-- ===== src/Examples/Sampler.antt =====
-- The samplers: a limiter at two tokens for a window of a second, and a rate.
use dd_trace_rs.Prelude.{ℕ, ◌+◌, ◌*◌, ◌-◌, ◌^◌, ◌≤◌, ◌≡◌, refl, true, List, [], ◌∷◌, some, arith}
use dd_trace_rs.Prelude.Int.{pos}
use dd_trace_rs.Sampler.Float.{clamp}
use dd_trace_rs.Sampler.Rate
use dd_trace_rs.Sampler.Rate.{sample}
use dd_trace_rs.Sampler.Rate.Laws.{sample_mono}
use dd_trace_rs.Sampler.Limiter.{
  RateLimiter, new, is_allowed, is_allowed_at, take_token, try_consume, update_rate_counts,
  roll_window, replenish, tokens_to_add,
}
use dd_trace_rs.Sampler.Limiter.Bucket.{Bucket, take, Ascends}
use dd_trace_rs.Sampler.Limiter.Tokens.{Implements, income, is_allowed-take}
use dd_trace_rs.Sampler.Limiter.Bounds.{let_through, let_through_bound, new-Implements}
use dd_trace_rs.Sampler.Limiter.Pauses.{after_calls, is_allowed_after_pause}
use dd_trace_rs.Examples.Exact.{exact, exact-IsOrdered, fractions, fractions-IsRounded}

abbrev second : ℕ
second = 1_000_000_000

abbrev fresh : RateLimiter fractions
fresh = new fractions (pos 2) (some second) 0

abbrev full : Bucket
full = record { tokens = 2; since = 0 }

fresh-full : Implements fractions 2 second full fresh
fresh-full = new-Implements fractions 2 second 0 (ground arith)

abbrev calls : List ℕ
calls = 0 ∷ 0 ∷ 0 ∷ second ∷ second ∷ 1_100_000_000 ∷ []

calls-Ascends : Ascends 0 calls 1_100_000_000
unfolding Ascends
calls-Ascends = ground arith

-- The third call and the last are too many.
calls-let_through : let_through fractions fresh calls ≡ 4
unfolding let_through is_allowed is_allowed_at new take_token try_consume update_rate_counts
    roll_window replenish tokens_to_add
calls-let_through = refl

let_through_bound_example :
    let_through fractions fresh calls * (second * 2 ^ 50)
    ≤ 2 * (second * 2 ^ 50) + (1_100_000_000 - 0) * (2 * (2 ^ 50 + 1))
let_through_bound_example =
    let_through_bound fractions 2 second full fresh calls 1_100_000_000 fractions-IsRounded
      (ground arith) (ground arith) fresh-full calls-Ascends (ground arith)

is_allowed-take_example :
    ((is_allowed fractions fresh 3).0 ≡ (take 2 (income fractions 2 second) full 3).0)
    × Implements fractions 2 second
        (take 2 (income fractions 2 second) full 3).1
        (is_allowed fractions fresh 3).1
is_allowed-take_example = is_allowed-take fractions 2 second full fresh 3 fresh-full

-- A limiter that has no tokens left.
abbrev spent : RateLimiter fractions
spent =
    let s = fresh.inner in
    record fresh { inner = record s { tokens = pos 0; tokens_allowed = 2; tokens_total = 3 } }

abbrev drained : Bucket
drained = record { tokens = 0; since = 0 }

spent-drained : Implements fractions 2 second drained spent
unfolding new
spent-drained = record {
  limited = refl;
  some_calls = ground arith;
  state = record { held = refl; since = refl; most = refl; length = refl; bound = ground arith };
}

-- Five calls in two seconds, each 0.4 seconds after the one before it.
abbrev pressing : List ℕ
pressing = 400_000_000 ∷ 800_000_000 ∷ 1_200_000_000 ∷ 1_600_000_000 ∷ 2_000_000_000 ∷ []

pressing-Ascends : Ascends 0 pressing 2_000_000_000
unfolding Ascends
pressing-Ascends = ground arith

is_allowed_after_pause_example :
    (is_allowed fractions (after_calls fractions 2 second spent pressing) 2_600_000_000).0 ≡ true
is_allowed_after_pause_example =
    is_allowed_after_pause fractions 2 second drained spent pressing 2_000_000_000 2_600_000_000
      fractions-IsRounded (ground arith) (ground arith) (ground arith) spent-drained
      pressing-Ascends (ground arith) (ground arith)

abbrev trace_id : ℕ
trace_id = 16984994989051740115

-- An id that is kept at one quarter is kept at one half, that is at one and at two.
kept_at_one : sample exact (Rate.new exact 1) trace_id ≡ true
unfolding sample Rate.new clamp
kept_at_one = refl

sample_mono_example : sample exact (Rate.new exact 2) trace_id ≡ true
sample_mono_example = sample_mono exact exact-IsOrdered 1 2 trace_id refl kept_at_one
