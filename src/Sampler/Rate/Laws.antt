-- ===== src/Sampler/Rate/Laws.antt =====
-- What the rate sampler keeps.
use dd_trace_rs.Prelude.{ℕ, ◌*◌, ◌%◌, ◌^◌, ◌≤◌, ◌≡◌, true, false, arith}
use dd_trace_rs.Numeral.{u64_max}
use dd_trace_rs.Sampler.Float.{Float, IsOrdered, clamp}
use dd_trace_rs.Sampler.Rate.{hashed_id, calculate_threshold, new, sample}

-- The factor's inverse modulo 2 ^ 64.
abbrev pub unhash : ℕ → ℕ
unhash h = h * 3396998997810348023 % 2 ^ 64

-- The hash loses nothing of the lower 64 bits: it is undone by a second multiplication, so no two
-- ids share a hash, and a threshold t keeps t + 1 of the 2 ^ 64 ids.
pub unhash-hashed_id : (trace_id : ℕ) → unhash (hashed_id trace_id) ≡ trace_id % 2 ^ 64
unfolding hashed_id
unhash-hashed_id trace_id = omega arith

module _ (float : Float) (laws : IsOrdered float) where
  open float use {F, nought, one, le, mul, of_ℕ, to_u64}
  open laws use {bounds, refl_of_le, le_trans, le_total, lt-eq-not-le, mul_mono, to_u64_mono}

  clamp_mono :
      (x y : F) → le x y ≡ true → le (clamp float nought one x) (clamp float nought one y) ≡ true
  unfolding clamp
  clamp_mono x y h =
      let (xx, yy) = refl_of_le x y h in
      let (zz, oo) = refl_of_le nought one bounds in
      let x_low = lt-eq-not-le x nought xx zz in
      let y_low = lt-eq-not-le y nought yy zz in
      let x_high = lt-eq-not-le one x oo xx in
      let y_high = lt-eq-not-le one y oo yy in
      let x_cases = le_total x one xx oo in
      let y_cases = le_total y one yy oo in
      let up = le_trans nought x y in
      let through = le_trans one x y in
      let x_zero = le_total nought x zz xx in let y_zero = le_total nought y zz yy in ground arith

  threshold_mono :
      (x y : F)
      → le x y ≡ true
      → le one y ≡ false
      → calculate_threshold float x ≤ calculate_threshold float y
  unfolding calculate_threshold
  threshold_mono x y h below = ground (
    arith,
    le_trans one x y,
    mul_mono x y u64_max (omega arith) (omega arith),
    to_u64_mono (mul x (of_ℕ u64_max)) (mul y (of_ℕ u64_max)),
  )

  -- A trace that is kept at a rate is kept at every higher rate.
  pub sample_mono :
      (low high : F) (trace_id : ℕ)
      → le low high ≡ true
      → sample float (new float low) trace_id ≡ true
      → sample float (new float high) trace_id ≡ true
  unfolding sample new
  sample_mono low high trace_id h kept =
      let a = clamp float nought one low in
      let b = clamp float nought one high in
      let up : le a b ≡ true = clamp_mono low high h in
      ground (arith, le_trans a b nought, le_trans one a b, threshold_mono a b up)
