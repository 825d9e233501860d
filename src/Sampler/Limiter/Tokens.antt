-- ===== src/Sampler/Limiter/Tokens.antt =====
-- The rate limiter as a token bucket: every call takes from the bucket what the code takes from its
-- tokens.
use dd_trace_rs.Prelude.{
  ℕ, zero, suc, ◌+◌, ◌-◌, ◌≤◌, ◌<◌, ◌≡◌, refl, sym, ap, ◌∙◌, Bool, true, false, ltb, leb, lt→ltb,
  if◌then◌else◌, arith, Bool-cases, Option, none, some, inl, inr, ◌%◌, ◌^◌,
}
use dd_trace_rs.Prelude.Int.{ℤ, pos, negsuc, ltb_ℤ, add_ℕ, pos_part, pred_ℤ}
use dd_trace_rs.Sampler.Float.{Float}
use dd_trace_rs.Sampler.Limiter.{
  RateLimiterState, RateLimiter, tokens_to_add, capped, replenish, try_consume, is_allowed_at,
  take_token, roll_window, update_rate_counts, is_allowed,
}
use dd_trace_rs.Sampler.Limiter.Bucket.{Bucket, take, refill, less, least}

module _ (float : Float) where
  open float use {mul, div, of_ℕ, of_ℤ, to_i64}

  -- What comes in during `elapsed` nanoseconds, at `limit` tokens for a window.
  unfoldable pub income : ℕ → ℕ → ℕ → ℕ
  income limit window elapsed =
      pos_part (to_i64 (mul (div (of_ℕ elapsed) (of_ℕ window)) (of_ℤ (pos limit))))

  module _ (limit window : ℕ) where
    -- The state of a limiter for `limit` calls in `window` nanoseconds holds what the bucket does.
    pub record Holds (b : Bucket) (s : RateLimiterState float) : Type 0 where
      pub held : s.tokens ≡ pos b.tokens
      pub since : s.last_update ≡ b.since
      pub most : s.max_tokens ≡ pos limit
      pub length : s.time_window_ns ≡ window
      pub bound : b.tokens ≤ limit

    capped_lem :
        (tokens : ℕ) (added : ℤ)
        → tokens ≤ limit
        → (if ltb_ℤ (pos 0) added
            then capped float (pos limit) (add_ℕ (pos tokens) (pos_part added))
            else pos tokens)
          ≡ pos (least limit (tokens + pos_part added))
    capped_lem tokens (pos zero) h = ground arith
    capped_lem tokens (pos (suc n)) h = ground arith
    capped_lem tokens (negsuc n) h = ground arith

    tokens_to_add-income :
        (b : Bucket) (s : RateLimiterState float) (now : ℕ)
        → Holds b s
        → income limit window (now - b.since) ≡ pos_part (tokens_to_add float (pos limit) s now)
    unfolding income tokens_to_add
    tokens_to_add-income b s now h = rw (h.since, h.length)

    replenish-Holds :
        (b : Bucket) (s : RateLimiterState float) (now : ℕ)
        → Holds b s
        → Holds (refill limit (income limit window) b now) (replenish float (pos limit) s now)
    unfolding replenish tokens_to_add
    replenish-Holds b s now h = record {
      held =
          rw (tokens_to_add-income b s now h, h.held, h.most)
            (capped_lem b.tokens (tokens_to_add float (pos limit) s now) h.bound);
      since = refl;
      most = h.most;
      length = h.length;
      bound = ground arith;
    }

    try_consume-some :
        (n : ℕ) (s : RateLimiterState float)
        → s.tokens ≡ pos (suc n)
        → try_consume float s ≡ some (record s { tokens = pos n })
    unfolding try_consume
    try_consume-some n s h =
        let there : ltb_ℤ (pos 0) (pos (suc n)) ≡ true = ground arith in
        let left : pred_ℤ (pos (suc n)) ≡ pos n = ground arith in rw (h, there, left)

    try_consume-none : (s : RateLimiterState float) → s.tokens ≡ pos 0 → try_consume float s ≡ none
    unfolding try_consume
    try_consume-none s h = rw h

    -- Only four fields of the state count.
    Holds-fields :
        (b : Bucket) (s s' : RateLimiterState float)
        → s'.tokens ≡ s.tokens
        → s'.last_update ≡ s.last_update
        → s'.max_tokens ≡ s.max_tokens
        → s'.time_window_ns ≡ s.time_window_ns
        → Holds b s
        → Holds b s'
    Holds-fields b s s' e₀ e₁ e₂ e₃ h = record {
      held = e₀ ∙ h.held;
      since = e₁ ∙ h.since;
      most = e₂ ∙ h.most;
      length = e₃ ∙ h.length;
      bound = h.bound;
    }

    Holds-window :
        (b : Bucket) (s : RateLimiterState float) (now : ℕ) (start : Option ℕ)
        → start ≡ s.current_window_start
        → Holds b s
        → Holds b (roll_window float now s)
    unfolding roll_window
    Holds-window b s now none e h = rw (← e) (Holds-fields b s _ refl refl refl refl h)
    Holds-window b s now (some start) e h =
        elim (Bool-cases (leb s.time_window_ns ((now - start) % 2 ^ 64))) [
          | inl e' ↦ rw (← e, e') (Holds-fields b s _ refl refl refl refl h)
          | inr e' ↦ rw (← e, e') (Holds-fields b s _ refl refl refl refl h)
        ]

    update_rate_counts-Holds :
        (b : Bucket) (s : RateLimiterState float) (allowed : Bool) (now : ℕ)
        → Holds b s
        → Holds b (update_rate_counts float allowed now s)
    unfolding update_rate_counts
    update_rate_counts-Holds b s allowed now h =
        Holds-fields b (roll_window float now s) _ refl refl refl refl
          (Holds-window b s now s.current_window_start refl h)

  -- The limiter is one for `limit` calls, and its state holds what the bucket does.
  pub record Implements (limit window : ℕ) (b : Bucket) (l : RateLimiter float) : Type 0 where
    pub limited : l.rate_limit ≡ pos limit
    pub some_calls : 0 < limit
    pub state : Holds limit window b l.inner

  module _ (limit window : ℕ) where
    -- What the bucket and the tokens have after a call, and whether they let it through.
    abbrev Agrees : Bool × Bucket → Bool × RateLimiterState float → Type 0
    Agrees (allowed, b) (allowed', s) = (allowed' ≡ allowed) × Holds limit window b s

    Holds-less :
        (b : Bucket) (n : ℕ) (s : RateLimiterState float)
        → b.tokens ≡ suc n
        → Holds limit window b s
        → Holds limit window (less b) (record s { tokens = pos n })
    Holds-less b n s e h = record {
      held = ap pos (omega arith);
      since = h.since;
      most = h.most;
      length = h.length;
      bound = let k = h.bound in omega arith;
    }

    -- After a refill.
    again-Agrees :
        (n : ℕ) (b : Bucket) (s : RateLimiterState float)
        → n ≡ b.tokens
        → Holds limit window b s
        → Agrees
            (if ltb 0 b.tokens then (true, less b) else (false, b))
            (elim (try_consume float s) [ some s' ↦ (true, s') | none ↦ (false, s) ])
    again-Agrees (suc n) b s e h =
        rw
          (
            try_consume-some limit window n s (h.held ∙ ap pos (sym e)),
            lt→ltb 0 b.tokens (omega arith),
          )
          (refl, Holds-less b n s (sym e) h)
    again-Agrees zero b s e h =
        let no : ltb 0 b.tokens ≡ false = ground arith in
        rw (try_consume-none limit window s (h.held ∙ ap pos (sym e)), no) (refl, h)

    take_token-Agrees :
        (n : ℕ) (b : Bucket) (s : RateLimiterState float) (now : ℕ)
        → n ≡ b.tokens
        → Holds limit window b s
        → Agrees (take limit (income limit window) b now) (take_token float (pos limit) s now)
    unfolding take_token take
    take_token-Agrees (suc n) b s now e h =
        rw
          (
            try_consume-some limit window n s (h.held ∙ ap pos (sym e)),
            take_token,
            take,
            lt→ltb 0 b.tokens (omega arith),
          )
          (refl, Holds-less b n s (sym e) h)
    take_token-Agrees zero b s now e h =
        let no : ltb 0 b.tokens ≡ false = ground arith in
        let b' = refill limit (income limit window) b now in
        rw (try_consume-none limit window s (h.held ∙ ap pos (sym e)), take_token, take, no)
          (again-Agrees b'.tokens b' (replenish float (pos limit) s now) refl
            (replenish-Holds limit window b s now h))

    -- A call on the limiter is a `take` from the bucket.
    pub is_allowed-take :
        (b : Bucket) (l : RateLimiter float) (now : ℕ)
        → Implements limit window b l
        → ((is_allowed float l now).0 ≡ (take limit (income limit window) b now).0)
          × Implements limit window
              (take limit (income limit window) b now).1
              (is_allowed float l now).1
    unfolding is_allowed is_allowed_at
    is_allowed-take b l now h =
        let n = h.some_calls in
        let positive : ltb_ℤ (pos 0) (pos limit) ≡ true = ground arith in
        let not_negative : ltb_ℤ (pos limit) (pos 0) ≡ false = ground arith in
        let agrees = take_token-Agrees b.tokens b l.inner now refl h.state in
        rw (h.limited, not_negative, positive)
          (
            agrees.0,
            record {
              limited = refl;
              some_calls = n;
              state = update_rate_counts-Holds limit window _ _ _ now agrees.1;
            },
          )
