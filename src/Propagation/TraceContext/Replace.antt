-- ===== src/Propagation/TraceContext/Replace.antt =====
-- `replace_chars` of dd-trace-propagation/src/tracecontext.rs. A text is the bytes of its UTF-8
-- encoding, so a character that is not ASCII is a byte from 128 on and the continuation bytes,
-- 128 to 191, behind it.
use dd_trace_rs.Prelude.{
  ℕ, ◌≡◌, refl, Bool, true, false, not, ◌&&◌, [], ◌∷◌, leb, ltb, if◌then◌else◌, all, arith,
  Bool-cases, inl, inr,
}
use dd_trace_rs.Prelude.Text.{Bytes}

abbrev is_ascii : ℕ → Bool
is_ascii c = ltb c 128

abbrev is_continuation : ℕ → Bool
is_continuation c = leb 128 c && ltb c 192

-- A byte that stays.
abbrev pub kept : (ℕ → Bool) → ℕ → Bool
kept f c = is_ascii c && not (f c)

-- The loop: bytes up to the next one to replace are copied, and the rest of a character that is
-- not ASCII is skipped, which is what `skipping` tells.
unfoldable replace_from : (ℕ → Bool) → ℕ → Bool → Bytes → Bytes
replace_from f replacement_char skipping [] = []
replace_from f replacement_char skipping (c ∷ tail) =
    let rest = replace_from f replacement_char false tail in
    let inside = replace_from f replacement_char true tail in
    if skipping && is_continuation c
    then inside
    else if kept f c
    then c ∷ rest
    else if is_ascii c
    then replacement_char ∷ rest
    else replacement_char ∷ inside

unfoldable pub replace_chars : (ℕ → Bool) → ℕ → Bytes → Bytes
unfolding replace_from
replace_chars f replacement_char s =
    if all (kept f) s then s else replace_from f replacement_char false s

replace_from-kept :
    (f : ℕ → Bool) (r : ℕ) (skipping : Bool) (s : Bytes)
    → kept f r ≡ true
    → all (kept f) (replace_from f r skipping s) ≡ true
unfolding replace_from
replace_from-kept f r skipping [] h = refl
replace_from-kept f r skipping (c ∷ s) h =
    ground (arith, replace_from-kept f r false s, replace_from-kept f r true s)

-- If the replacement itself may stay, then only bytes that may stay are left.
pub replace_chars-kept :
    (f : ℕ → Bool) (r : ℕ) (s : Bytes) → kept f r ≡ true → all (kept f) (replace_chars f r s) ≡ true
unfolding replace_chars
replace_chars-kept f r s h = elim (Bool-cases (all (kept f) s)) [
  | inl clean ↦ rw clean clean
  | inr unclean ↦ rw unclean (replace_from-kept f r false s h)
]
