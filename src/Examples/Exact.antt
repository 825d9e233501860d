-- ===== src/Examples/Exact.antt =====
-- Numbers in quarters, for which the laws that are asked of `f64` hold.
use dd_trace_rs.Prelude.{
  ℕ, ◌+◌, ◌*◌, ◌/◌, ◌≤◌, ◌≡◌, refl, leb, ltb, ◌==◌, if◌then◌else◌, arith, ap, Bool, not, ◌&&◌, ◌<◌,
  ◌^◌,
}
use native.Mathlib.Nat.{
  mul_assoc, mul-le-mul_right, mul-one, one-mul, div-mul-le_self, le-div_iff_mul-le,
}
use dd_trace_rs.Prelude.Int.{ℤ, pos, negsuc, pos_part}
use dd_trace_rs.Numeral.{print}
use dd_trace_rs.Sampler.Float.{Float, IsOrdered, IsRounded, proportion}

abbrev quarters : ℤ → ℕ
quarters (pos n) = n * 4
quarters (negsuc n) = 0

abbrev divide : ℕ → ℕ → ℕ
divide x y = if y == 0 then 0 else x * 4 / y

abbrev pub exact : Float
exact = record {
  F = ℕ;
  nought = 0;
  one = 4;
  two = 8;
  le = leb;
  lt = ltb;
  add = λ x y. x + y;
  mul = λ x y. x * y / 4;
  div = divide;
  of_ℕ = λ n. n * 4;
  of_ℤ = quarters;
  to_u64 = λ x. x / 4;
  to_i64 = λ x. pos (x / 4);
  to_i32 = λ x. pos (x / 4);
  same = λ x y. x == y;
  floor = λ x. x / 4 * 4;
  print = λ x. print 10 (x / 4);
}

scaled : (x n : ℕ) → x * (n * 4) / 4 ≡ x * n
scaled x n = let e = mul_assoc x n 4 in omega arith

pub exact-IsOrdered : IsOrdered exact
exact-IsOrdered = record {
  bounds = refl;
  refl_of_le = λ x y h. (ground arith, ground arith);
  le_trans = λ x y z h k. ground arith;
  le_total = λ x y h k. ground arith;
  lt-eq-not-le = λ x y h k. ground arith;
  mul_mono =
      λ x y n p q h. ground (arith, scaled x n, scaled y n, mul-le-mul_right {m = x} {n = y} n);
  to_u64_mono = λ x y h. ground arith;
}

-- Fractions, a numerator and a denominator, for the law on rounding.
abbrev pub Fraction : Type 0
Fraction = ℕ × ℕ

abbrev pub whole : ℕ → Fraction
whole n = (n, 1)

abbrev pub less_equal : Fraction → Fraction → Bool
less_equal (a, b) (c, d) = leb (a * d) (c * b)

abbrev pub cut : Fraction → ℕ
cut (a, b) = a / b

abbrev pub fractions : Float
fractions = record {
  F = Fraction;
  nought = whole 0;
  one = whole 1;
  two = whole 2;
  le = less_equal;
  lt = λ x y. not (less_equal y x);
  add = λ x y. (x.0 * y.1 + y.0 * x.1, x.1 * y.1);
  mul = λ x y. (x.0 * y.0, x.1 * y.1);
  div = λ x y. (x.0 * y.1, x.1 * y.0);
  of_ℕ = whole;
  of_ℤ = λ i. whole (pos_part i);
  to_u64 = cut;
  to_i64 = λ x. pos (cut x);
  to_i32 = λ x. pos (cut x);
  same = λ x y. less_equal x y && less_equal y x;
  floor = λ x. whole (cut x);
  print = λ x. print 10 (cut x);
}

proportion_exact : (a w n : ℕ) → proportion fractions a w n ≡ a * n / w
proportion_exact a w n = simp (mul-one, one-mul) refl

fractions_above : (a w n : ℕ) → proportion fractions a w n * (w * 2 ^ 50) ≤ a * (n * (2 ^ 50 + 1))
fractions_above a w n =
    let e = ap (λ (t : ℕ). t * (w * 2 ^ 50)) (proportion_exact a w n) in
    let cut_off = mul-le-mul_right (2 ^ 50) (div-mul-le_self (a * n) w) in omega (arith, e, cut_off)

fractions_below :
    (a w n : ℕ) → 0 < w → w * (2 ^ 50 + 1) ≤ a * (n * 2 ^ 50) → 0 < proportion fractions a w n
fractions_below a w n p h =
    let enough : w ≤ a * n = omega arith in
    let one_fits = (le-div_iff_mul-le {k = w} {x = 1} {y = a * n} p).1 (omega arith) in
    omega (arith, proportion_exact a w n, one_fits)

pub fractions-IsRounded : IsRounded fractions
fractions-IsRounded = record {
  above = λ a w n h k l. fractions_above a w n;
  below = λ a w n h p k l m. fractions_below a w n p m;
}
