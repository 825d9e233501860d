-- ===== src/Sampler/Rules/First.antt =====
-- The rule that is found.
use dd_trace_rs.Prelude.{
  ◌≡◌, Bool, true, false, none, some, List, [], ◌∷◌, ◌++◌, ap, arith, Bool-cases, inl, inr,
}
use dd_trace_rs.Prelude.Lists.{All}
use dd_trace_rs.Sampler.Float.{Float}
use dd_trace_rs.Mapping.Keys.{Semconv}
use dd_trace_rs.Mapping.Value.{OpenTelemetry}
use dd_trace_rs.Sampler.Rules.{SamplingRule, PreSampledSpan, find, rule_matches, find_matching_rule}

-- What `find` finds passes, and nothing in front of it does.
pub find_first :
    {A : Type 0} (p : A → Bool) (xs : List A) (x : A)
    → find p xs ≡ some x
    → (before : List A) × (after : List A) × (xs ≡ before ++ x ∷ after)
      × (p x ≡ true)
      × All (λ y. p y ≡ false) before
unfolding find
find_first p [] x h = absurd (ground arith)
find_first p (y ∷ ys) x h = elim (Bool-cases (p y)) [
  | inl e ↦ let here : y ≡ x = ground arith in ([], ys, rw here, rw (← here) e, tt)
  | inr e ↦
      let rest : find p ys ≡ some x = ground arith in
      let (before, after, split, passes, fail) = find_first p ys x rest in
      (y ∷ before, after, ap (λ zs. y ∷ zs) split, passes, (e, fail))
]

pub find_none :
    {A : Type 0} (p : A → Bool) (xs : List A) → find p xs ≡ none → All (λ y. p y ≡ false) xs
unfolding find
find_none p [] h = tt
find_none p (y ∷ ys) h = (ground arith, find_none p ys (ground arith))

module _ (float : Float) (conv : Semconv) (otel : OpenTelemetry float) where
  -- The rule that is found matches the span, and no rule before it does.
  pub find_matching_rule_first :
      (rules : List (SamplingRule float)) (span : PreSampledSpan float) (rule : SamplingRule float)
      → find_matching_rule float conv otel rules span ≡ some rule
      → (before : List (SamplingRule float)) × (after : List (SamplingRule float)) × (rules
          ≡ before ++ rule ∷ after)
        × (rule_matches float conv otel rule span ≡ true)
        × All (λ r. rule_matches float conv otel r span ≡ false) before
  unfolding find_matching_rule
  find_matching_rule_first rules span rule h =
      find_first (λ r. rule_matches float conv otel r span) rules rule h
