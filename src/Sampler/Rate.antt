-- ===== src/Sampler/Rate.antt =====
-- `RateSampler`: dd-trace-sampling/src/rate_sampler.rs, with the constants of constants.rs.
pub mod Laws
use dd_trace_rs.Prelude.{ℕ, ◌*◌, ◌%◌, ◌^◌, Bool, true, false, leb, if◌then◌else◌}
use dd_trace_rs.Numeral.{u64_max}
use dd_trace_rs.Sampler.Float.{Float, clamp}

abbrev pub knuth_factor : ℕ
knuth_factor = 1_111_111_111_111_111_111

-- The lower 64 bits of the trace id, times the factor, in a `u64`.
unfoldable pub hashed_id : ℕ → ℕ
hashed_id trace_id = trace_id % 2 ^ 64 * knuth_factor % 2 ^ 64

module _ (float : Float) where
  open float use {F, nought, one, le, mul, of_ℕ, to_u64}

  pub record RateSampler : Type 0 where
    pub sample_rate : F
    pub sampling_id_threshold : ℕ

  unfoldable pub calculate_threshold : F → ℕ
  calculate_threshold rate = if le one rate then u64_max else to_u64 (mul rate (of_ℕ u64_max))

  unfoldable pub new : F → RateSampler
  unfolding calculate_threshold
  new sample_rate =
      let clamped_rate = clamp float nought one sample_rate in
      record {
        sample_rate = clamped_rate;
        sampling_id_threshold = calculate_threshold clamped_rate;
      }

  unfoldable pub sample : RateSampler → ℕ → Bool
  unfolding hashed_id
  sample s trace_id =
      if le s.sample_rate nought
      then false
      else if le one s.sample_rate
      then true
      else leb (hashed_id trace_id) s.sampling_id_threshold
