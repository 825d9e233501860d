-- ===== src/Glob/Language.antt =====
-- What a glob pattern means, with no search order in it, and the laws by which the loop is judged.
use dd_trace_rs.Prelude.{ℕ, ◌≡◌, ◌≢◌, Bool, true, ◌||◌, [], ◌∷◌, ◌==◌}
use dd_trace_rs.Prelude.Text.{Bytes}
use dd_trace_rs.Glob.{star, question}

-- A pattern byte other than a star, against one byte of the subject.
abbrev pub accepts : ℕ → ℕ → Bool
accepts a c = a == question || c == a

pub data Matches : Bytes → Bytes → Type 0 where
  empty : Matches [] []
  byte :
      {a c : ℕ} {p s : Bytes}
      → a ≢ star
      → accepts a c ≡ true
      → Matches p s
      → Matches (a ∷ p) (c ∷ s)
  leave : {a : ℕ} {p s : Bytes} → a ≡ star → Matches p s → Matches (a ∷ p) s
  take : {a c : ℕ} {p s : Bytes} → a ≡ star → Matches (a ∷ p) s → Matches (a ∷ p) (c ∷ s)

pub byte_inv :
    {a c : ℕ} {p s : Bytes}
    → a ≢ star
    → Matches (a ∷ p) (c ∷ s)
    → (accepts a c ≡ true) × Matches p s
byte_inv ne (byte _ h d) = (h, d)
byte_inv ne (leave e d) = absurd (ne e)
byte_inv ne (take e d) = absurd (ne e)

pub not-byte_at_end : {a : ℕ} {p : Bytes} → a ≢ star → ¬ Matches (a ∷ p) []
not-byte_at_end ne (leave e d) = ne e

pub star_at_end : {a : ℕ} {p : Bytes} → a ≡ star → Matches (a ∷ p) [] → Matches p []
star_at_end e (leave _ d) = d

pub must_take :
    {a c : ℕ} {p s : Bytes}
    → a ≡ star
    → Matches (a ∷ p) (c ∷ s)
    → ¬ Matches p (c ∷ s)
    → Matches (a ∷ p) s
must_take e (byte ne _ d) n = absurd (ne e)
must_take e (leave _ d) n = absurd (n d)
must_take e (take _ d) n = d

pub two_stars :
    {a b : ℕ} {p : Bytes} (s : Bytes)
    → a ≡ star
    → b ≡ star
    → Matches (a ∷ b ∷ p) s
    → Matches (b ∷ p) s
two_stars s ea eb (byte ne _ d) = absurd (ne ea)
two_stars s ea eb (leave _ d) = d
two_stars (c ∷ s) ea eb (take _ d) = take eb (two_stars s ea eb d)

-- Why going back to the last star is enough: wherever the byte `b` matches, `p` begins after the
-- subject's first byte.
pub drop_byte :
    {a b c : ℕ} {p : Bytes} (s : Bytes)
    → a ≡ star
    → b ≢ star
    → Matches (a ∷ b ∷ p) (c ∷ s)
    → Matches (a ∷ p) s
drop_byte s ea nb (byte ne _ d) = absurd (ne ea)
drop_byte s ea nb (leave _ d) = leave ea (byte_inv nb d).1
drop_byte [] ea nb (take _ (leave _ d)) = absurd (not-byte_at_end nb d)
drop_byte (c ∷ s) ea nb (take _ d) = take ea (drop_byte s ea nb d)
