-- ===== src/Sampler/Float.antt =====
-- `f64`, which is the platform's: the operations that the samplers use. What a property relies on
-- are the laws of `IsOrdered` and `IsRounded`.
use dd_trace_rs.Prelude.{ℕ, ◌+◌, ◌*◌, ◌^◌, ◌≤◌, ◌<◌, ◌≡◌, ◌⊎◌, Bool, true, not, if◌then◌else◌}
use dd_trace_rs.Prelude.Int.{ℤ, pos, pos_part}
use dd_trace_rs.Prelude.Text.{Bytes}

-- The casts `as` saturate, and send NaN to 0.
pub record Float : Type 1 where
  pub F : Type 0
  pub nought : F
  pub one : F
  pub two : F
  pub le : F → F → Bool
  pub lt : F → F → Bool
  pub add : F → F → F
  pub mul : F → F → F
  pub div : F → F → F
  pub of_ℕ : ℕ → F
  pub of_ℤ : ℤ → F
  pub to_u64 : F → ℕ
  pub to_i64 : F → ℤ
  pub to_i32 : F → ℤ
  pub same : F → F → Bool
  pub floor : F → F
  pub print : F → Bytes

module _ (float : Float) where
  open float use {F, nought, one, le, lt, mul, div, of_ℕ, of_ℤ, to_u64, to_i64}

  -- `f64::clamp`.
  unfoldable pub clamp : F → F → F → F
  clamp low high x = if lt x low then low else if lt high x then high else x

  infix 4 ◌≼◌
  abbrev pub ◌≼◌ : F → F → Type 0
  x ≼ y = le x y ≡ true

  -- NaN is the value that is not `<=` itself. Away from it the order is total, and rounding keeps it:
  -- a factor that is positive and finite makes no NaN, not even of an infinity.
  pub record IsOrdered : Type 0 where
    pub bounds : nought ≼ one
    pub refl_of_le : (x y : F) → x ≼ y → (x ≼ x) × (y ≼ y)
    pub le_trans : (x y z : F) → x ≼ y → y ≼ z → x ≼ z
    pub le_total : (x y : F) → x ≼ x → y ≼ y → (x ≼ y) ⊎ (y ≼ x)
    pub lt-eq-not-le : (x y : F) → x ≼ x → y ≼ y → lt x y ≡ not (le y x)
    pub mul_mono : (x y : F) (n : ℕ) → 0 < n → n < 2 ^ 64 → x ≼ y → mul x (of_ℕ n) ≼ mul y (of_ℕ n)
    pub to_u64_mono : (x y : F) → x ≼ y → to_u64 x ≤ to_u64 y

  -- `(a as f64 / w as f64) * n as f64`, cast to an `i64`; a negative number counts as 0.
  abbrev pub proportion : ℕ → ℕ → ℕ → ℕ
  proportion a w n = pos_part (to_i64 (mul (div (of_ℕ a) (of_ℕ w)) (of_ℤ (pos n))))

  -- The conversions of `a` and `w`, the quotient and the product are each rounded to the nearest
  -- double, which is off by a part in 2 ^ 53 at most where nothing overflows, and `n` is exact: the
  -- whole is off by less than a part in 2 ^ 50. The last cast cuts off, and saturates.
  pub record IsRounded : Type 0 where
    pub above :
        (a w n : ℕ)
        → a < 2 ^ 128
        → w < 2 ^ 64
        → n < 2 ^ 31
        → proportion a w n * (w * 2 ^ 50) ≤ a * (n * (2 ^ 50 + 1))
    pub below :
        (a w n : ℕ)
        → a < 2 ^ 128
        → 0 < w
        → w < 2 ^ 64
        → n < 2 ^ 31
        → w * (2 ^ 50 + 1) ≤ a * (n * 2 ^ 50)
        → 0 < proportion a w n
