-- ===== src/Numeral.antt =====
-- Numbers as text, as the standard library prints and parses them for the program:
-- `to_string`, `{:x}`, `{:016x}`, `str::parse::<T>` and `T::from_str_radix`.
pub mod RoundTrip
pub mod Signed
use dd_trace_rs.Prelude.{
  ℕ, zero, suc, ◌+◌, ◌-◌, ◌*◌, ◌/◌, ◌%◌, ◌^◌, Bool, true, false, ◌&&◌, ◌||◌, List, [], ◌∷◌, ◌++◌,
  map, Option, none, some, ◌≡◌, refl, ltb, leb, ◌==◌, if◌then◌else◌, ◌>>=◌, length, replicate,
}
use dd_trace_rs.Prelude.Text.{Bytes, codes}
use dd_trace_rs.Prelude.Int.{ℤ, pos, negsuc}

-- The digits of a number, the highest first. Fuel above the number is enough: see `eval-digits`.
unfoldable pub digits : ℕ → ℕ → ℕ → List ℕ
digits b zero n = []
digits b (suc f) n =
    let rest = digits b f (n / b) in if ltb n b then n ∷ [] else rest ++ (n % b) ∷ []

-- The number that digits stand for, behind `acc`.
abbrev pub eval : ℕ → ℕ → List ℕ → ℕ
eval b acc [] = acc
eval b acc (d ∷ ds) = eval b (acc * b + d) ds

unfoldable pub digit_char : ℕ → ℕ
digit_char d = if ltb d 10 then d + 48 else d + 87

-- `char::to_digit`.
unfoldable pub to_digit : ℕ → ℕ → Option ℕ
to_digit b c =
    if leb 48 c && ltb c 58 && ltb (c - 48) b
    then some (c - 48)
    else if leb 97 c && ltb c 123 && ltb (c - 87) b
    then some (c - 87)
    else if leb 65 c && ltb c 91 && ltb (c - 55) b
    then some (c - 55)
    else none

unfoldable pub print : ℕ → ℕ → Bytes
print b n = map digit_char (digits b (suc n) n)

-- `{:0wx}`: zeros in front up to `w` characters.
unfoldable pub pad : ℕ → Bytes → Bytes
pad w s = replicate (w - length s) 48 ++ s

-- Digits up to the end; a digit that is none and a value above `max` are errors.
unfoldable pub scan : ℕ → ℕ → ℕ → Bytes → Option ℕ
scan b max acc [] = some acc
scan b max acc (c ∷ s) = do
  d ← to_digit b c
  if leb (acc * b + d) max then scan b max (acc * b + d) s else none

-- `from_str_radix` and `parse` of an unsigned type: a plus sign may stand in front of digits.
unfoldable pub parse_unsigned : ℕ → ℕ → Bytes → Option ℕ
parse_unsigned b max [] = none
parse_unsigned b max (c ∷ []) = scan b max 0 (c ∷ [])
parse_unsigned b max (c ∷ d ∷ s) =
    if c == 43 then scan b max 0 (d ∷ s) else scan b max 0 (c ∷ d ∷ s)

-- -n
abbrev pub negate : ℕ → ℤ
negate zero = pos 0
negate (suc n) = negsuc n

-- `parse` of a signed type with -low ≤ z < high.
unfoldable pub parse_signed : ℕ → ℕ → Bytes → Option ℤ
parse_signed low high [] = none
parse_signed low high (c ∷ []) = do n ← scan 10 (high - 1) 0 (c ∷ []); some (pos n)
parse_signed low high (c ∷ d ∷ s) =
    if c == 45
    then (do n ← scan 10 low 0 (d ∷ s); some (negate n))
    else if c == 43
    then (do n ← scan 10 (high - 1) 0 (d ∷ s); some (pos n))
    else (do n ← scan 10 (high - 1) 0 (c ∷ d ∷ s); some (pos n))

-- `Display` of a signed type.
unfoldable pub print_signed : ℤ → Bytes
print_signed (pos n) = print 10 n
print_signed (negsuc n) = 45 ∷ print 10 (suc n)

abbrev pub u8_max : ℕ
u8_max = 2 ^ 8 - 1

abbrev pub u64_max : ℕ
u64_max = 2 ^ 64 - 1

abbrev pub u128_max : ℕ
u128_max = 2 ^ 128 - 1
