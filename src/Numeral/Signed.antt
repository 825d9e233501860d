-- ===== src/Numeral/Signed.antt =====
-- Printed signed numbers are read back.
use dd_trace_rs.Prelude.{
  ℕ, zero, suc, ◌-◌, ◌≤◌, ◌<◌, ◌≡◌, ◌≢◌, refl, some, [], ◌∷◌, arith, ◌>>=◌, All, Option-cases, inl,
  inr,
}
use dd_trace_rs.Prelude.Text.{Bytes}
use dd_trace_rs.Prelude.Int.{ℤ, pos, negsuc, InRange}
use dd_trace_rs.Numeral.{scan, print, parse_signed, print_signed, negate}
use dd_trace_rs.Numeral.RoundTrip.{NoSign, scan-print, print-ne-nil, print-NoSign, scan-le}

parse_signed-scan :
    (low high : ℕ) (s : Bytes)
    → s ≢ []
    → All NoSign s
    → parse_signed low high s ≡ (scan 10 (high - 1) 0 s >>= λ n. some (pos n))
unfolding parse_signed
parse_signed-scan low high [] h below = absurd (h refl)
parse_signed-scan low high (c ∷ []) h below = refl
parse_signed-scan low high (c ∷ d ∷ s) h below = ground arith

pub parse_signed-minus :
    (low high : ℕ) (s : Bytes)
    → s ≢ []
    → parse_signed low high (45 ∷ s) ≡ (scan 10 low 0 s >>= λ n. some (negate n))
unfolding parse_signed
parse_signed-minus low high [] h = absurd (h refl)
parse_signed-minus low high (c ∷ s) h = refl

-- Every signed number in the range of its type is read back from its print.
pub parse_signed-print :
    (low high : ℕ) (z : ℤ) → InRange low high z → parse_signed low high (print_signed z) ≡ some z
unfolding print_signed
parse_signed-print low high (pos n) h = rw (
  parse_signed-scan low high (print 10 n) (print-ne-nil 10 n) (print-NoSign 10 n),
  scan-print 10 (high - 1) n (omega arith) (omega arith) (omega arith),
)
parse_signed-print low high (negsuc n) h = rw (
  parse_signed-minus low high (print 10 (suc n)) (print-ne-nil 10 (suc n)),
  scan-print 10 low (suc n) (omega arith) (omega arith) h,
)

read_pos :
    (low high : ℕ) (s : Bytes) (z : ℤ)
    → 0 < high
    → (scan 10 (high - 1) 0 s >>= λ n. some (pos n)) ≡ some z
    → InRange low high z
read_pos low high s z h e = elim (Option-cases (scan 10 (high - 1) 0 s)) [
  | inl failed ↦ absurd (ground arith)
  | inr (n, read) ↦ ground (arith, scan-le 10 (high - 1) 0 s {r = n})
]

InRange-negate : (low high n : ℕ) → 0 < high → n ≤ low → InRange low high (negate n)
InRange-negate low high zero h fits = h
InRange-negate low high (suc n) h fits = fits

read_neg :
    (low high : ℕ) (s : Bytes) (z : ℤ)
    → 0 < high
    → (scan 10 low 0 s >>= λ n. some (negate n)) ≡ some z
    → InRange low high z
read_neg low high s z h e = elim (Option-cases (scan 10 low 0 s)) [
  | inl failed ↦ absurd (ground arith)
  | inr (n, read) ↦ ground (arith, scan-le 10 low 0 s {r = n}, InRange-negate low high n)
]

-- What is read fits the type.
pub parse_signed-InRange :
    (low high : ℕ) (s : Bytes) (z : ℤ)
    → 0 < high
    → parse_signed low high s ≡ some z
    → InRange low high z
unfolding parse_signed
parse_signed-InRange low high [] z h e = cc
parse_signed-InRange low high (c ∷ []) z h e = read_pos low high (c ∷ []) z h e
parse_signed-InRange low high (c ∷ d ∷ s) z h e = ground (
  arith,
  read_neg low high (d ∷ s) z,
  read_pos low high (d ∷ s) z,
  read_pos low high (c ∷ d ∷ s) z,
)
