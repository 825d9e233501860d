-- ===== src/Glob/Suffixes.antt =====
-- Suffixes of the pattern and the subject.
use dd_trace_rs.Prelude.{
  ℕ, zero, suc, ◌+◌, ◌≤◌, ◌<◌, ◌≡◌, refl, [], ◌∷◌, none, some, arith, length, drop, get_elem?,
}
use native.Mathlib.Numerals.{add-one}
use dd_trace_rs.Prelude.Text.{Bytes}
use dd_trace_rs.Glob.Language.{Matches}

drop-get_some :
    (xs : Bytes) (i c : ℕ)
    → get_elem? xs i ≡ some c
    → (drop i xs ≡ c ∷ drop (suc i) xs) × (i < length xs)
drop-get_some [] i c h = cc
drop-get_some (x ∷ xs) zero c h = ground arith
drop-get_some (x ∷ xs) (suc i) c h = let (here, lt) = drop-get_some xs i c h in (here, omega arith)

pub drop-get_none :
    (xs : Bytes) (i : ℕ) → get_elem? xs i ≡ none → (drop i xs ≡ []) × (length xs ≤ i)
drop-get_none [] zero h = (refl, omega arith)
drop-get_none [] (suc i) h = (refl, omega arith)
drop-get_none (x ∷ xs) zero h = cc
drop-get_none (x ∷ xs) (suc i) h = let (here, le) = drop-get_none xs i h in (here, omega arith)

pub get-drop : (xs : Bytes) (i a : ℕ) (ys : Bytes) → drop i xs ≡ a ∷ ys → get_elem? xs i ≡ some a
get-drop [] zero a ys h = cc
get-drop [] (suc i) a ys h = cc
get-drop (x ∷ xs) zero a ys h = cc
get-drop (x ∷ xs) (suc i) a ys h = get-drop xs i a ys h

pub drop-lt : (xs : Bytes) (i : ℕ) → i < length xs → (c : ℕ) × (drop i xs ≡ c ∷ drop (suc i) xs)
drop-lt [] i h = absurd (omega arith)
drop-lt (x ∷ xs) zero h = (x, refl)
drop-lt (x ∷ xs) (suc i) h = let (c, here) = drop-lt xs i (omega arith) in (c, here)

-- The same in the form in which the loop steps on.
pub at_some :
    (xs : Bytes) (i c : ℕ)
    → get_elem? xs i ≡ some c
    → (drop i xs ≡ c ∷ drop (i + 1) xs) × (i + 1 ≤ length xs)
at_some xs i c h = let (here, lt) = drop-get_some xs i c h in rw (add-one i) (here, lt)

pub drop_past : (xs : Bytes) (i : ℕ) → length xs ≤ i → drop i xs ≡ []
drop_past [] zero h = refl
drop_past [] (suc i) h = refl
drop_past (x ∷ xs) zero h = absurd (omega arith)
drop_past (x ∷ xs) (suc i) h = drop_past xs i (omega arith)

pub not-nil_cons : {d : ℕ} {s : Bytes} → ¬ Matches [] (d ∷ s)
not-nil_cons m = elim m [ ]

-- The run ended, and its answer decides `G`.
