-- ===== src/Sampler/Limiter/Bounds.antt =====
-- How many calls the rate limiter lets through.
use dd_trace_rs.Prelude.{
  ℕ, ◌+◌, ◌-◌, ◌*◌, ◌^◌, ◌≤◌, ◌<◌, ◌≡◌, refl, ◌∙◌, List, [], ◌∷◌, length, arith, some,
}
use dd_trace_rs.Prelude.Int.{pos}
use dd_trace_rs.Sampler.Float.{Float, IsRounded}
use dd_trace_rs.Sampler.Limiter.{RateLimiter, new, is_allowed}
use dd_trace_rs.Sampler.Limiter.Bucket.{
  Bucket, take, granted, granted_bound, granted_burst, Ascends, to_ℕ,
}
use dd_trace_rs.Sampler.Limiter.Tokens.{Implements, income, is_allowed-take}

module _ (float : Float) where
  -- The number of calls that are let through, one call at each instant.
  unfoldable pub let_through : RateLimiter float → List ℕ → ℕ
  let_through l [] = 0
  let_through l (now ∷ later) =
      let (allowed, l') = is_allowed float l now in to_ℕ allowed + let_through l' later

  module _ (limit window : ℕ) where
    pub let_through-granted :
        (b : Bucket) (l : RateLimiter float) (nows : List ℕ)
        → Implements float limit window b l
        → let_through l nows ≡ granted limit (income float limit window) b nows
    unfolding let_through granted
    let_through-granted b l [] h = refl
    let_through-granted b l (now ∷ later) h =
        let call = is_allowed-take float limit window b l now h in
        rw (
          call.0,
          let_through-granted (take limit (income float limit window) b now).1
              (is_allowed float l now).1 later call.1,
        )

    -- With rounding as that of doubles, a limit of 31 bits, a window of 64 bits and fewer than 2 ^ 128
    -- nanoseconds n from the bucket's last filling to `last`, a limiter that implements the bucket allows,
    -- of calls in ascending time up to `last`, no more than the tokens held and the share
    -- `limit * n / window`, but for a part in 2 ^ 50 of that share.
    pub let_through_bound :
        (b : Bucket) (l : RateLimiter float) (nows : List ℕ) (last : ℕ)
        → IsRounded float
        → limit < 2 ^ 31
        → window < 2 ^ 64
        → Implements float limit window b l
        → Ascends b.since nows last
        → last - b.since < 2 ^ 128
        → let_through l nows * (window * 2 ^ 50)
          ≤ b.tokens * (window * 2 ^ 50) + (last - b.since) * (limit * (2 ^ 50 + 1))
    unfolding income
    let_through_bound b l nows last rounded small fits h hs near =
        rw (let_through-granted b l nows h) (
          granted_bound limit (income float limit window) (window * 2 ^ 50) (limit * (2 ^ 50 + 1))
            (last - b.since)
            (λ elapsed below. rounded.above elapsed window limit (omega arith) fits small) b nows
            last hs (omega arith))

    pub new-Implements :
        (now : ℕ)
        → 0 < limit
        → Implements float limit window
            (record { tokens = limit; since = now })
            (new float (pos limit) (some window) now)
    unfolding new
    new-Implements now h = record {
      limited = refl;
      some_calls = h;
      state = record { held = refl; since = refl; most = refl; length = refl; bound = omega arith };
    }

    pub new_burst :
        (now : ℕ) (nows : List ℕ)
        → length nows ≤ limit
        → 0 < limit
        → let_through (new float (pos limit) (some window) now) nows ≡ length nows
    new_burst now nows h n =
        let_through-granted _ _ nows (new-Implements now n)
        ∙ granted_burst limit (income float limit window) _ nows h
