-- ===== src/Sampler/Limiter/Window.antt =====
-- The counters of the current window, from which the effective rate is made.
use dd_trace_rs.Prelude.{
  ℕ, suc, ◌+◌, ◌-◌, ◌%◌, ◌^◌, ◌≤◌, ◌<◌, ◌≡◌, refl, Bool, true, false, Option, none, some, leb,
  if◌then◌else◌, arith, Bool-cases, inl, inr,
}
use dd_trace_rs.Prelude.Int.{ℤ, pos, ltb_ℤ}
use dd_trace_rs.Sampler.Float.{Float}
use dd_trace_rs.Sampler.Limiter.{
  RateLimiter, RateLimiterState, is_allowed, is_allowed_at, take_token, try_consume, replenish,
  roll_window, update_rate_counts,
}

module _ (float : Float) where
  -- At most `calls` calls are counted, and no more are allowed than counted.
  pub record Counted (calls : ℕ) (s : RateLimiterState float) : Type 0 where
    pub proportion : s.tokens_allowed ≤ s.tokens_total
    pub total : s.tokens_total ≤ calls

  Counted-fields :
      (calls : ℕ) (s s' : RateLimiterState float)
      → s'.tokens_allowed ≡ s.tokens_allowed
      → s'.tokens_total ≡ s.tokens_total
      → Counted calls s
      → Counted calls s'
  Counted-fields calls s s' e e' h =
      let p = h.proportion in
      let t = h.total in record { proportion = omega arith; total = omega arith }

  -- A token taken leaves the counters alone.
  Counted-consumed :
      (calls : ℕ) (s : RateLimiterState float) (fallback : Bool × RateLimiterState float)
      → Counted calls s
      → Counted calls fallback.1
      → Counted calls
          (elim (try_consume float s) as (λ _. Bool × RateLimiterState float) [
            | some s' ↦ (true, s')
            | none ↦ fallback
          ]).1
  unfolding try_consume
  Counted-consumed calls s fallback h h' = elim (Bool-cases (ltb_ℤ (pos 0) s.tokens)) [
    | inl e ↦ rw e (Counted-fields calls s _ refl refl h)
    | inr e ↦ rw e h'
  ]

  replenish-Counted :
      (calls : ℕ) (rate : ℤ) (s : RateLimiterState float) (now : ℕ)
      → Counted calls s
      → Counted calls (replenish float rate s now)
  unfolding replenish
  replenish-Counted calls rate s now h = Counted-fields calls s _ refl refl h

  take_token-Counted :
      (calls : ℕ) (rate : ℤ) (s : RateLimiterState float) (now : ℕ)
      → Counted calls s
      → Counted calls (take_token float rate s now).1
  unfolding take_token
  take_token-Counted calls rate s now h =
      let refilled = replenish float rate s now in
      let h' = replenish-Counted calls rate s now h in
      Counted-consumed calls s _ h (Counted-consumed calls refilled (false, refilled) h' h')

  is_allowed_at-Counted :
      (calls : ℕ) (l : RateLimiter float) (now : ℕ)
      → Counted calls l.inner
      → Counted calls (is_allowed_at float l now).1
  unfolding is_allowed_at
  is_allowed_at-Counted calls l now h = elim (Bool-cases (ltb_ℤ l.rate_limit (pos 0))) [
    | inl e ↦ rw e h
    | inr e ↦ rw e (elim (Bool-cases (ltb_ℤ (pos 0) l.rate_limit)) [
      | inl e' ↦ rw e' (take_token-Counted calls l.rate_limit l.inner now h)
      | inr e' ↦ rw e' h
    ])
  ]

  Counted-window :
      (calls : ℕ) (s : RateLimiterState float) (now : ℕ) (start : Option ℕ)
      → start ≡ s.current_window_start
      → Counted calls s
      → Counted calls (roll_window float now s)
  unfolding roll_window
  Counted-window calls s now none e h = rw (← e) (Counted-fields calls s _ refl refl h)
  Counted-window calls s now (some start) e h =
      elim (Bool-cases (leb s.time_window_ns ((now - start) % 2 ^ 64))) [
        | inl e' ↦ rw (← e, e') (record { proportion = omega arith; total = omega arith })
        | inr e' ↦ rw (← e, e') (Counted-fields calls s _ refl refl h)
      ]

  -- Of a limiter's counters, those of allowed calls stay at most those of all calls, and these at most
  -- the number of calls, as long as that number fits in 64 bits.
  pub is_allowed-Counted :
      (calls : ℕ) (l : RateLimiter float) (now : ℕ)
      → suc calls < 2 ^ 64
      → Counted calls l.inner
      → Counted (suc calls) (is_allowed float l now).1.inner
  unfolding is_allowed update_rate_counts
  is_allowed-Counted calls l now fits h =
      count (is_allowed_at float l now).0 _
        (Counted-window calls _ now _ refl (is_allowed_at-Counted calls l now h))
    where
      count :
          (allowed : Bool) (s : RateLimiterState float)
          → Counted calls s
          → Counted (suc calls) (record s {
            tokens_allowed = if allowed then (s.tokens_allowed + 1) % 2 ^ 64 else s.tokens_allowed;
            tokens_total = (s.tokens_total + 1) % 2 ^ 64;
          })
      count true s k =
          let p = k.proportion in
          let t = k.total in record { proportion = omega arith; total = omega arith }
      count false s k =
          let p = k.proportion in
          let t = k.total in record { proportion = omega arith; total = omega arith }
