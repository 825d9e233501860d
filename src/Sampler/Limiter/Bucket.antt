-- ===== src/Sampler/Limiter/Bucket.antt =====
-- A token bucket: what the rate limiter promises, without its clocks, windows and counters.
use dd_trace_rs.Prelude.{
  ℕ, ◌+◌, ◌-◌, ◌≤◌, ◌≡◌, refl, Bool, true, false, List, [], ◌∷◌, ltb, if◌then◌else◌, Bool-cases,
  inl, inr, arith, length, ap, suc, ◌*◌,
}
use native.Mathlib.Nat.{mul-le-mul_right}

abbrev pub least : ℕ → ℕ → ℕ
least a b = if ltb b a then b else a

-- `since` is the instant of the last refill.
pub record Bucket : Type 0 where
  pub tokens : ℕ
  pub since : ℕ

-- `income dt` is what comes in during `dt`.
abbrev pub refill : ℕ → (ℕ → ℕ) → Bucket → ℕ → Bucket
refill limit income b now = record {
  tokens = least limit (b.tokens + income (now - b.since));
  since = now;
}

abbrev pub less : Bucket → Bucket
less b = record b { tokens = b.tokens - 1 }

unfoldable pub take : ℕ → (ℕ → ℕ) → Bucket → ℕ → Bool × Bucket
take limit income b now =
    let b' = refill limit income b now in
    if ltb 0 b.tokens
    then (true, less b)
    else if ltb 0 b'.tokens
    then (true, less b')
    else (false, b')

abbrev pub to_ℕ : Bool → ℕ
to_ℕ true = 1
to_ℕ false = 0

-- The number of calls that are let through, one call at each instant.
unfoldable pub granted : ℕ → (ℕ → ℕ) → Bucket → List ℕ → ℕ
granted limit income b [] = 0
granted limit income b (now ∷ later) =
    let (allowed, b') = take limit income b now in to_ℕ allowed + granted limit income b' later

-- Each instant is at or after the one before it, and none is after `last`.
unfoldable pub Ascends : ℕ → List ℕ → ℕ → Type 0
Ascends first [] last = first ≤ last
Ascends first (now ∷ later) last = (first ≤ now) × Ascends now later last

Ascends-le : (first : ℕ) (nows : List ℕ) (last : ℕ) → Ascends first nows last → first ≤ last
unfolding Ascends
Ascends-le first [] last h = h
Ascends-le first (now ∷ later) last (h, hs) = let rest = Ascends-le now later last hs in omega arith

Ascends-earlier :
    (a b : ℕ) (nows : List ℕ) (last : ℕ) → a ≤ b → Ascends b nows last → Ascends a nows last
unfolding Ascends
Ascends-earlier a b [] last h hs = omega arith
Ascends-earlier a b (now ∷ later) last h (e, hs) = (omega arith, hs)

-- `income` brings at most `rate` for `unit` in a time of at most `horizon`.
module _ (limit : ℕ) (income : ℕ → ℕ) (unit rate horizon : ℕ)
    (bounded : (elapsed : ℕ) → elapsed ≤ horizon → income elapsed * unit ≤ elapsed * rate) where
  pub granted_bound :
      (b : Bucket) (nows : List ℕ) (last : ℕ)
      → Ascends b.since nows last
      → last - b.since ≤ horizon
      → granted limit income b nows * unit ≤ b.tokens * unit + (last - b.since) * rate
  unfolding granted take Ascends
  granted_bound b [] last h near = omega arith
  granted_bound b (now ∷ later) last (h, hs) near =
      let limits = Ascends-le now later last hs in
      let kept =
        granted_bound (less b) later last (Ascends-earlier b.since now later last h hs) near in
      let b' = refill limit income b now in
      let near' : last - now ≤ horizon = omega arith in
      let earned = bounded (now - b.since) (omega arith) in
      let sum : (now - b.since) + (last - now) ≡ last - b.since = omega arith in
      let split = ap (λ (t : ℕ). t * rate) sum in
      let held : b'.tokens ≤ b.tokens + income (now - b.since) = ground arith in
      let worth = mul-le-mul_right unit held in
      let refilled = granted_bound (less b') later last hs near' in
      let emptied = granted_bound b' later last hs near' in
      elim (Bool-cases (ltb 0 b.tokens)) [
        | inl e ↦
            let one_less : b.tokens ≡ suc (b.tokens - 1) = ground arith in
            let price = ap (λ (t : ℕ). t * unit) one_less in rw e (omega arith)
        | inr e ↦ rw e (elim (Bool-cases (ltb 0 b'.tokens)) [
          | inl e' ↦
              let one_less : b'.tokens ≡ suc (b'.tokens - 1) = ground arith in
              let price = ap (λ (t : ℕ). t * unit) one_less in rw e' (omega arith)
          | inr e' ↦ rw e' (omega arith)
        ])
      ]

-- Each instant comes at most `gap` after the one before it.
unfoldable pub Within : ℕ → ℕ → List ℕ → Type 0
Within gap first [] = first ≤ first
Within gap first (now ∷ later) = (now - first ≤ gap) × Within gap now later

-- What is empty stays so if nothing comes in between two calls.
pub granted_none :
    (limit : ℕ) (income : ℕ → ℕ) (gap : ℕ) (b : Bucket) (nows : List ℕ)
    → ((elapsed : ℕ) → elapsed ≤ gap → income elapsed ≡ 0)
    → b.tokens ≡ 0
    → Within gap b.since nows
    → granted limit income b nows ≡ 0
unfolding granted take Within
granted_none limit income gap b [] dry h hs = refl
granted_none limit income gap b (now ∷ later) dry h (near, hs) =
    let b' = refill limit income b now in
    let nothing = dry (now - b.since) near in
    let empty : ltb 0 b.tokens ≡ false = ground arith in
    let still : b'.tokens ≡ 0 = ground arith in
    let empty' : ltb 0 b'.tokens ≡ false = ground arith in
    let rest = granted_none limit income gap b' later dry still hs in
    rw (empty, empty') (omega arith)

-- The bucket that is left after the calls.
unfoldable pub left : ℕ → (ℕ → ℕ) → Bucket → List ℕ → Bucket
left limit income b [] = b
left limit income b (now ∷ later) = left limit income (take limit income b now).1 later

take_since :
    (limit : ℕ) (income : ℕ → ℕ) (b : Bucket) (now : ℕ)
    → b.since ≤ now
    → (take limit income b now).1.since ≤ now
unfolding take
take_since limit income b now h = ground arith

-- It was filled no later than the last call.
pub left_since :
    (limit : ℕ) (income : ℕ → ℕ) (b : Bucket) (nows : List ℕ) (last : ℕ)
    → Ascends b.since nows last
    → (left limit income b nows).since ≤ last
unfolding left Ascends
left_since limit income b [] last h = h
left_since limit income b (now ∷ later) last (h, hs) =
    let b' = (take limit income b now).1 in
    left_since limit income b' later last
      (Ascends-earlier b'.since now later last (take_since limit income b now h) hs)

pub granted_burst :
    (limit : ℕ) (income : ℕ → ℕ) (b : Bucket) (nows : List ℕ)
    → length nows ≤ b.tokens
    → granted limit income b nows ≡ length nows
unfolding granted take
granted_burst limit income b [] h = refl
granted_burst limit income b (now ∷ later) h =
    let there : ltb 0 b.tokens ≡ true = ground arith in
    let rest = granted_burst limit income (less b) later (omega arith) in
    rw (there, rest) (omega arith)
