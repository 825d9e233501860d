-- ===== src/Sampler/Limiter/Pauses.antt =====
-- What the time between the calls does to the rate limiter. A refill cuts off what is less than a token
-- and forgets the time it took.
use dd_trace_rs.Prelude.{ℕ, ◌+◌, ◌-◌, ◌*◌, ◌^◌, ◌≤◌, ◌<◌, ◌≡◌, ◌∙◌, true, List, [], ◌∷◌, arith}
use native.Mathlib.Nat.{mul-le-mul_right}
use dd_trace_rs.Sampler.Float.{Float, IsRounded}
use dd_trace_rs.Sampler.Limiter.{RateLimiter, is_allowed}
use dd_trace_rs.Sampler.Limiter.Bucket.{Bucket, take, Ascends, left, left_since}
use dd_trace_rs.Sampler.Limiter.Tokens.{Implements, income, is_allowed-take}

module _ (float : Float) (limit window : ℕ) where
  -- The limiter after the calls.
  unfoldable pub after_calls : RateLimiter float → List ℕ → RateLimiter float
  after_calls l [] = l
  after_calls l (now ∷ later) = after_calls (is_allowed float l now).1 later

  after_calls-Implements :
      (b : Bucket) (l : RateLimiter float) (nows : List ℕ)
      → Implements float limit window b l
      → Implements float limit window
          (left limit (income float limit window) b nows)
          (after_calls l nows)
  unfolding after_calls left
  after_calls-Implements b l [] h = h
  after_calls-Implements b l (now ∷ later) h =
      after_calls-Implements (take limit (income float limit window) b now).1
        (is_allowed float l now).1 later (is_allowed-take float limit window b l now h).1

  take_allows :
      (b : Bucket) (now : ℕ)
      → 0 < limit
      → 0 < income float limit window (now - b.since)
      → (take limit (income float limit window) b now).0 ≡ true
  unfolding take
  take_allows b now some_calls earned = ground arith

  -- With rounding as that of doubles, a limit of 31 bits, a window of 64 bits that is not 0 and instants
  -- of 128 bits: after any calls in ascending time, allowed or refused, a limiter that implements a
  -- bucket allows a call if the time since the last of them is worth a token and a part in 2 ^ 50.
  pub is_allowed_after_pause :
      (b : Bucket) (l : RateLimiter float) (nows : List ℕ) (last now : ℕ)
      → IsRounded float
      → limit < 2 ^ 31
      → 0 < window
      → window < 2 ^ 64
      → Implements float limit window b l
      → Ascends b.since nows last
      → now < 2 ^ 128
      → window * (2 ^ 50 + 1) ≤ (now - last) * (limit * 2 ^ 50)
      → (is_allowed float (after_calls l nows) now).0 ≡ true
  unfolding income
  is_allowed_after_pause b l nows last now rounded small some_time fits h hs soon pause =
      let b' = left limit (income float limit window) b nows in
      let filled = left_since limit (income float limit window) b nows last hs in
      let longer : now - last ≤ now - b'.since = omega arith in
      let worth = mul-le-mul_right (limit * 2 ^ 50) longer in
      let earned =
        rounded.below (now - b'.since) window limit (omega arith) some_time fits small
          (omega arith) in
      (is_allowed-take float limit window b' (after_calls l nows) now
        (after_calls-Implements b l nows h)).0
      ∙ take_allows b' now h.some_calls earned
