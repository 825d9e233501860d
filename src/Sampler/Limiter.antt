-- ===== src/Sampler/Limiter.antt =====
-- `RateLimiter`: dd-trace-sampling/src/rate_limiter.rs. An instant is its number of nanoseconds, and
-- `duration_since` is 0 for an instant that is later. The mutex makes each of the two parts of
-- `is_allowed` one step: the state between them is explicit.
pub mod Bounds
pub mod Pauses
pub mod Bucket
pub mod Tokens
pub mod Window
use dd_trace_rs.Prelude.{
  ℕ, ◌+◌, ◌-◌, ◌%◌, ◌^◌, Bool, true, false, Option, none, some, leb, ◌==◌, if◌then◌else◌, unwrap_or,
}
use dd_trace_rs.Prelude.Int.{ℤ, pos, negsuc, ltb_ℤ, add_ℕ, pos_part, pred_ℤ}
use dd_trace_rs.Sampler.Float.{Float}

-- `x += 1` on a `u64`.
abbrev pub increment : ℕ → ℕ
increment x = (x + 1) % 2 ^ 64

module _ (float : Float) where
  open float use {F, one, two, add, mul, div, of_ℕ, of_ℤ, to_i64}

  pub record RateLimiterState : Type 0 where
    pub time_window_ns : ℕ
    pub tokens : ℤ
    pub max_tokens : ℤ
    pub last_update : ℕ
    pub current_window_start : Option ℕ
    pub tokens_allowed : ℕ
    pub tokens_total : ℕ
    pub prev_window_rate : Option F

  pub record RateLimiter : Type 0 where
    pub rate_limit : ℤ
    pub inner : RateLimiterState

  -- Created at the instant `now`.
  unfoldable pub new : ℤ → Option ℕ → ℕ → RateLimiter
  new rate_limit time_window_ns now = record {
    rate_limit = rate_limit;
    inner = record {
      time_window_ns = unwrap_or 1_000_000_000 time_window_ns;
      tokens = rate_limit;
      max_tokens = rate_limit;
      last_update = now;
      current_window_start = none;
      tokens_allowed = 0;
      tokens_total = 0;
      prev_window_rate = none;
    };
  }

  -- The tokens that come in since the last update.
  unfoldable pub tokens_to_add : ℤ → RateLimiterState → ℕ → ℤ
  tokens_to_add rate_limit state timestamp = to_i64 (
      mul (div (of_ℕ (timestamp - state.last_update)) (of_ℕ state.time_window_ns))
        (of_ℤ rate_limit))

  abbrev capped : ℤ → ℤ → ℤ
  capped max_tokens tokens = if ltb_ℤ max_tokens tokens then max_tokens else tokens

  unfoldable pub replenish : ℤ → RateLimiterState → ℕ → RateLimiterState
  replenish rate_limit state timestamp =
      let added = tokens_to_add rate_limit state timestamp in
      record state {
        tokens =
            if ltb_ℤ (pos 0) added
            then capped state.max_tokens (add_ℕ state.tokens (pos_part added))
            else state.tokens;
        last_update = timestamp;
      }

  -- Take a token if there is one.
  unfoldable pub try_consume : RateLimiterState → Option RateLimiterState
  try_consume state =
      if ltb_ℤ (pos 0) state.tokens
      then some (record state { tokens = pred_ℤ state.tokens })
      else none

  -- The part of `is_allowed_at` under the lock: refill only when there is no token.
  unfoldable pub take_token : ℤ → RateLimiterState → ℕ → Bool × RateLimiterState
  take_token rate_limit state timestamp = elim (try_consume state) [
    | some state' ↦ (true, state')
    | none ↦
        let refilled = replenish rate_limit state timestamp in
        elim (try_consume refilled) [ some state' ↦ (true, state') | none ↦ (false, refilled) ]
  ]

  unfoldable pub is_allowed_at : RateLimiter → ℕ → Bool × RateLimiterState
  is_allowed_at l timestamp =
      if ltb_ℤ l.rate_limit (pos 0)
      then (true, l.inner)
      else if ltb_ℤ (pos 0) l.rate_limit
      then take_token l.rate_limit l.inner timestamp
      else (false, l.inner)

  unfoldable pub current_window_rate : RateLimiterState → F
  current_window_rate state =
      if state.tokens_total == 0
      then one
      else div (of_ℕ state.tokens_allowed) (of_ℕ state.tokens_total)

  -- The window is started, or started again when it has passed.
  unfoldable pub roll_window : ℕ → RateLimiterState → RateLimiterState
  roll_window timestamp state = elim state.current_window_start [
    | none ↦ record state { current_window_start = some timestamp }
    | some window_start ↦
        if leb state.time_window_ns ((timestamp - window_start) % 2 ^ 64)
        then record state {
          prev_window_rate = some (current_window_rate state);
          tokens_allowed = 0;
          tokens_total = 0;
          current_window_start = some timestamp;
        }
        else state
  ]

  abbrev count_call : Bool → RateLimiterState → RateLimiterState
  count_call allowed state = record state {
    tokens_allowed = if allowed then increment state.tokens_allowed else state.tokens_allowed;
    tokens_total = increment state.tokens_total;
  }

  unfoldable pub update_rate_counts : Bool → ℕ → RateLimiterState → RateLimiterState
  update_rate_counts allowed timestamp state = count_call allowed (roll_window timestamp state)

  -- A call at the instant `now`.
  unfoldable pub is_allowed : RateLimiter → ℕ → Bool × RateLimiter
  is_allowed l now =
      let (allowed, state) = is_allowed_at l now in
      (allowed, record l { inner = update_rate_counts allowed now state })

  unfoldable pub effective_rate : RateLimiter → F
  effective_rate l =
      let current_rate = current_window_rate l.inner in
      elim l.inner.prev_window_rate [
        | some prev_rate ↦ div (add current_rate prev_rate) two
        | none ↦ current_rate
      ]
