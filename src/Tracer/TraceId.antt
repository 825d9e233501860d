-- ===== src/Tracer/TraceId.antt =====
-- `TraceidGenerator`: datadog-opentelemetry/src/trace_id.rs. The random bits and the clock, in seconds
-- since the epoch, are arguments; `none` stands for a clock before the epoch.
use dd_trace_rs.Prelude.{ℕ, ◌+◌, ◌*◌, ◌%◌, ◌/◌, ◌^◌, ◌<◌, ◌≡◌, Option, some, unwrap_or, arith}

-- The bytes of the two halves, the higher one first, as a number.
unfoldable pub new_trace_id : ℕ → Option ℕ → ℕ
new_trace_id random elapsed =
    let timestamp = unwrap_or (2 ^ 31) elapsed in
    let upper_half = timestamp * 2 ^ 32 % 2 ^ 64 in upper_half * 2 ^ 64 + random

-- A trace id is the time in its first 32 bits, 32 zeros, and the random bits.
pub new_trace_id_layout :
    (random seconds : ℕ)
    → random < 2 ^ 64
    → seconds < 2 ^ 32
    → let id = new_trace_id random (some seconds) in
      (id / 2 ^ 96 ≡ seconds) × (id / 2 ^ 64 % 2 ^ 32 ≡ 0) × (id % 2 ^ 64 ≡ random)
unfolding new_trace_id
new_trace_id_layout random seconds h h' = (omega arith, omega arith, omega arith)
