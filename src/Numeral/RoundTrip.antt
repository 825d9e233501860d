-- ===== src/Numeral/RoundTrip.antt =====
-- Printed numbers are read back.
use dd_trace_rs.Prelude.{
  ℕ, zero, suc, ◌+◌, ◌-◌, ◌*◌, ◌/◌, ◌%◌, ◌^◌, ◌≤◌, ◌<◌, List, [], ◌∷◌, ◌++◌, map, some, ◌≡◌, ◌≢◌,
  refl, ltb, leb, length, replicate, arith, All, All-append, Bool-cases, inl, inr, length-map,
  length-append, length-replicate, ap, ◌∙◌, le→leb, leb→le, Option-cases, lt→ltb,
}
use native.Mathlib.Nat.{pow-suc, pow-zero, one-mul, div-lt_iff_lt-mul, div-lt_self, div-add-mod'}
use mathlib.Core.List.{concat-ne-nil}
use dd_trace_rs.Prelude.Text.{Bytes}
use dd_trace_rs.Numeral.{digits, eval, digit_char, to_digit, print, pad, scan, parse_unsigned}

abbrev pub AllBelow : ℕ → List ℕ → Type 0
AllBelow b = All (λ d. d < b)

pub digits-AllBelow : (b f n : ℕ) → 2 ≤ b → AllBelow b (digits b f n)
unfolding digits
digits-AllBelow b zero n h = tt
digits-AllBelow b (suc f) n h = elim (Bool-cases (ltb n b)) [
  | inl small ↦ rw small (ground arith, tt)
  | inr big ↦ rw big (
      All-append (λ d. d < b) (digits b f (n / b)) (n % b ∷ []) (digits-AllBelow b f (n / b) h)
        (omega arith, tt))
]

eval-append : (b acc : ℕ) (xs ys : List ℕ) → eval b acc (xs ++ ys) ≡ eval b (eval b acc xs) ys
eval-append b acc [] ys = refl
eval-append b acc (x ∷ xs) ys = eval-append b (acc * b + x) xs ys

quotient_lt : (b n : ℕ) → 2 ≤ b → 0 < n → n / b < n
quotient_lt b n h pos = div-lt_self pos h

-- Fuel above the number is enough, and the digits stand for it.
pub eval-digits : (b f n : ℕ) → 2 ≤ b → n < f → eval b 0 (digits b f n) ≡ n
unfolding digits
eval-digits b zero n h lt = absurd (omega arith)
eval-digits b (suc f) n h lt = elim (Bool-cases (ltb n b)) [
  | inl small ↦ rw small (omega arith)
  | inr big ↦
      let positive : 0 < n = ground arith in
      let fits : n / b < f = omega (arith, quotient_lt b n h positive) in
      rw (big, eval-append b 0 (digits b f (n / b)) (n % b ∷ []))
        (rw (eval-digits b f (n / b) h fits) (div-add-mod' n b))
]

-- A number below b ^ (k + 1) has at most k + 1 digits.
length-digits : (b f n k : ℕ) → 2 ≤ b → n < b ^ suc k → length (digits b f n) ≤ suc k
unfolding digits
length-digits b zero n k h lt = omega arith
length-digits b (suc f) n zero h lt =
    let small : n < b = rw (pow-suc b 0, pow-zero b, one-mul b) at lt in
    rw (lt→ltb n b small) (omega arith)
length-digits b (suc f) n (suc k) h lt = elim (Bool-cases (ltb n b)) [
  | inl small ↦ rw small (omega arith)
  | inr big ↦
      let fits : n / b < b ^ suc k =
        (div-lt_iff_lt-mul {k = b} {x = n} {y = b ^ suc k} (omega arith)).1
          (rw (pow-suc b (suc k)) at lt) in
      rw (big, length-append (digits b f (n / b)) (n % b ∷ []))
        (omega (arith, length-digits b f (n / b) k h fits))
]

digit_char-to_digit : (b d : ℕ) → b ≤ 16 → d < b → to_digit b (digit_char d) ≡ some d
unfolding to_digit digit_char
digit_char-to_digit b d h lt = ground arith

le-eval : (b acc : ℕ) (ds : List ℕ) → 1 ≤ b → acc ≤ eval b acc ds
le-eval b acc [] h = omega arith
le-eval b acc (d ∷ ds) h = grind (arith, le-eval b (acc * b + d) ds h)

scan-digits :
    (b max acc : ℕ) (ds : List ℕ)
    → 2 ≤ b
    → b ≤ 16
    → AllBelow b ds
    → eval b acc ds ≤ max
    → scan b max acc (map digit_char ds) ≡ some (eval b acc ds)
unfolding scan
scan-digits b max acc [] h h' below fits = refl
scan-digits b max acc (d ∷ ds) h h' (d_below, below) fits =
    rw
      (
        digit_char-to_digit b d h' d_below,
        le→leb (acc * b + d) max (omega (arith, le-eval b (acc * b + d) ds (omega arith))),
      )
      (scan-digits b max (acc * b + d) ds h h' below fits)

scan-zeros : (b max k : ℕ) (s : Bytes) → 2 ≤ b → scan b max 0 (replicate k 48 ++ s) ≡ scan b max 0 s
unfolding scan to_digit
scan-zeros b max zero s h = refl
scan-zeros b max (suc k) s h = ground (arith, scan-zeros b max k s h)

-- Neither a plus nor a minus sign.
abbrev pub NoSign : ℕ → Type 0
NoSign c = (c ≢ 43) × (c ≢ 45)

digit_char-NoSign : (d : ℕ) → NoSign (digit_char d)
unfolding digit_char
digit_char-NoSign d = ground arith

digits-ne-nil : (b f n : ℕ) → digits b (suc f) n ≢ []
unfolding digits
digits-ne-nil b f n = elim (Bool-cases (ltb n b)) [
  | inl small ↦ rw small (cc)
  | inr big ↦ rw big (concat-ne-nil (n % b) (digits b f (n / b)))
]

pub print-ne-nil : (b n : ℕ) → print b n ≢ []
unfolding print
print-ne-nil b n h = digits-ne-nil b n n (map_eq_nil (digits b (suc n) n) h)
  where
    map_eq_nil : (ds : List ℕ) → map digit_char ds ≡ [] → ds ≡ []
    map_eq_nil [] e = refl
    map_eq_nil (d ∷ ds) e = cc

map-digit_char-NoSign : (ds : List ℕ) → All NoSign (map digit_char ds)
map-digit_char-NoSign [] = tt
map-digit_char-NoSign (d ∷ ds) = (digit_char-NoSign d, map-digit_char-NoSign ds)

pub print-NoSign : (b n : ℕ) → All NoSign (print b n)
unfolding print
print-NoSign b n = map-digit_char-NoSign (digits b (suc n) n)

replicate-NoSign : (k : ℕ) → All NoSign (replicate k 48)
replicate-NoSign zero = tt
replicate-NoSign (suc k) = (omega arith, replicate-NoSign k)

-- Without a sign in front the parser scans the whole text.
parse_unsigned-scan :
    (b max : ℕ) (s : Bytes) → s ≢ [] → All NoSign s → parse_unsigned b max s ≡ scan b max 0 s
unfolding parse_unsigned
parse_unsigned-scan b max [] h below = absurd (h refl)
parse_unsigned-scan b max (c ∷ []) h below = refl
parse_unsigned-scan b max (c ∷ d ∷ s) h below = ground arith

module _ (b max n : ℕ) (low : 2 ≤ b) (high : b ≤ 16) (fits : n ≤ max) where
  pub scan-print : scan b max 0 (print b n) ≡ some n
  unfolding print
  scan-print =
      let exact = eval-digits b (suc n) n low (omega arith) in
      scan-digits b max 0 (digits b (suc n) n) low high (digits-AllBelow b (suc n) n low)
        (rw exact fits)
      ∙ ap some exact

  -- Every number that fits the type is read back from its print.
  pub parse_unsigned-print : parse_unsigned b max (print b n) ≡ some n
  parse_unsigned-print =
      parse_unsigned-scan b max (print b n) (print-ne-nil b n) (print-NoSign b n) ∙ scan-print

  -- And from a print with zeros in front.
  pub parse_unsigned-pad : (w : ℕ) → parse_unsigned b max (pad w (print b n)) ≡ some n
  unfolding pad
  parse_unsigned-pad w =
      let k = w - length (print b n) in
      parse_unsigned-scan b max (replicate k 48 ++ print b n)
        (λ e. print-ne-nil b n (append_eq_nil (replicate k 48) e))
        (All-append NoSign (replicate k 48) (print b n) (replicate-NoSign k) (print-NoSign b n))
      ∙ scan-zeros b max k (print b n) low
      ∙ scan-print
    where
      append_eq_nil : (xs : Bytes) {ys : Bytes} → xs ++ ys ≡ [] → ys ≡ []
      append_eq_nil [] e = e
      append_eq_nil (x ∷ xs) e = cc

pub length-print : (b n k : ℕ) → 2 ≤ b → n < b ^ suc k → length (print b n) ≤ suc k
unfolding print
length-print b n k h lt =
    rw (length-map (digits b (suc n) n) digit_char) (length-digits b (suc n) n k h lt)

-- A padded print has exactly the width, for a number that fits it.
pub length-pad : (b n k : ℕ) → 2 ≤ b → n < b ^ suc k → length (pad (suc k) (print b n)) ≡ suc k
unfolding pad
length-pad b n k h lt = omega (
  arith,
  length-append (replicate (suc k - length (print b n)) 48) (print b n),
  length-replicate (suc k - length (print b n)) (let z : ℕ = 48 in z),
  length-print b n k h lt,
)

-- What is read fits the type.
pub scan-le : (b max acc : ℕ) (s : Bytes) {r : ℕ} → acc ≤ max → scan b max acc s ≡ some r → r ≤ max
unfolding scan
scan-le b max acc [] h e = ground arith
scan-le b max acc (c ∷ s) {r} h e = elim (Option-cases (to_digit b c)) [
  | inl no_digit ↦ absurd (ground arith)
  | inr (d, digit) ↦ elim (Bool-cases (leb (acc * b + d) max)) [
    | inl fits ↦
        scan-le b max (acc * b + d) s (leb→le (acc * b + d) max fits) (rw (digit, fits) at e)
    | inr big ↦ absurd (ground arith)
  ]
]

pub parse_unsigned-le : (b max : ℕ) (s : Bytes) (n : ℕ) → parse_unsigned b max s ≡ some n → n ≤ max
unfolding parse_unsigned
parse_unsigned-le b max [] n h = absurd (ground arith)
parse_unsigned-le b max (c ∷ []) n h = scan-le b max 0 (c ∷ []) {r = n} (omega arith) h
parse_unsigned-le b max (c ∷ d ∷ s) n h =
    ground (arith, scan-le b max 0 (d ∷ s) {r = n}, scan-le b max 0 (c ∷ d ∷ s) {r = n})
