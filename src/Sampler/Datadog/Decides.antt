-- ===== src/Sampler/Datadog/Decides.antt =====
-- What the sampler decides, and what its decision costs.
use dd_trace_rs.Prelude.{
  ℕ, ◌≡◌, ◌⊎◌, refl, ◌∙◌, Bool, true, false, Option, none, some, List, [], ◌∷◌, ◌++◌, if◌then◌else◌,
  arith, Option-cases, Bool-cases, inl, inr,
}
use dd_trace_rs.Prelude.Int.{ℤ}
use dd_trace_rs.Prelude.Text.{Bytes, codes, beq}
use dd_trace_rs.Prelude.Dict.{lookup, bytes_eq}
use dd_trace_rs.Decision.{SamplingMechanism}
use dd_trace_rs.Decision.Priority
use dd_trace_rs.Decision.Mechanism.{to_priority, to_cow}
use dd_trace_rs.Decision.Laws.{is_keep-to_priority}
use dd_trace_rs.Sampler.Float.{Float}
use dd_trace_rs.Sampler.Limiter
use dd_trace_rs.Mapping.Keys.{Semconv}
use dd_trace_rs.Mapping.Value.{Value, SpanKind, OpenTelemetry, KeyValue}
use dd_trace_rs.Sampler.Rules.{SamplingRule, PreSampledSpan, find_matching_rule, sample_rule}
use dd_trace_rs.Sampler.Datadog.{
  DatadogSampler, TraceRootSamplingInfo, DdSamplingResult, get_sampling_mechanism, root_result,
  sample_by_rule, sample_by_service, service_key, sample_root, sample_matched, sample,
  to_dd_sampling_tags, rate_tags, limit_tags,
}

module _ (float : Float) where
  -- The priority keeps the trace exactly when the result does; a result for a span with a parent has
  -- no priority.
  pub Consistent : DdSamplingResult float → Type 0
  Consistent result = elim result.trace_root_info [
    | none ↦ Unit
    | some info ↦ Priority.is_keep info.priority ≡ result.is_keep
  ]

  root_result-Consistent :
      (m : SamplingMechanism) (keep : Bool) (rate : float.F) (limit : Option ℤ)
      → Consistent (root_result float m keep rate limit)
  unfolding Consistent root_result
  root_result-Consistent m keep rate limit = is_keep-to_priority m keep

  -- The span as the rules see it.
  abbrev pub seen :
      DatadogSampler float → Bytes → SpanKind → List (KeyValue float) → PreSampledSpan float
  seen sampler name span_kind attributes = record {
    name = name;
    span_kind = span_kind;
    attributes = attributes;
    resource = sampler.resource;
  }

  sample_by_rule-Consistent :
      (rule : SamplingRule float) (now trace_id : ℕ) (sampler : DatadogSampler float)
      → Consistent (sample_by_rule float rule now trace_id sampler).0
  unfolding sample_by_rule
  sample_by_rule-Consistent rule now trace_id sampler =
      elim (Bool-cases (sample_rule float rule trace_id)) [
        | inl e ↦ rw e (root_result-Consistent _ _ _ _)
        | inr e ↦ rw e (root_result-Consistent _ _ _ _)
      ]

  sample_by_service-Consistent :
      (key : Bytes) (trace_id : ℕ) (sampler : DatadogSampler float)
      → Consistent (sample_by_service float key trace_id sampler)
  unfolding sample_by_service
  sample_by_service-Consistent key trace_id sampler =
      elim (Option-cases (lookup key sampler.service_samplers)) [
        | inl e ↦ rw (sample_by_service, e) (root_result-Consistent _ _ _ _)
        | inr (s, e) ↦ rw (sample_by_service, e) (root_result-Consistent _ _ _ _)
      ]

  -- A rule's decision has the priorities of a user's decision.
  rule_priority :
      (rule : SamplingRule float) (keep : Bool)
      → to_priority (get_sampling_mechanism float (some rule) false) keep
        ≡ (if keep then Priority.user_keep else Priority.user_reject)
  unfolding get_sampling_mechanism to_priority
  rule_priority rule keep = ground arith

  module _ (conv : Semconv) (otel : OpenTelemetry float) where
    -- A span with a parent inherits its decision and gets no priority; the priority of a root span
    -- keeps the trace exactly when the sampler does.
    pub sample-Consistent :
        (now : ℕ) (parent : Option Bool) (trace_id : ℕ) (name : Bytes) (kind : SpanKind)
        (attributes : List (KeyValue float)) (sampler : DatadogSampler float)
        → Consistent (sample float conv otel now parent trace_id name kind attributes sampler).0
    unfolding sample sample_root sample_matched Consistent
    sample-Consistent now (some p) trace_id name kind attributes sampler = tt
    sample-Consistent now none trace_id name kind attributes sampler =
        elim (Option-cases
          (find_matching_rule float conv otel sampler.rules (seen sampler name kind attributes))) [
            | inl e ↦ rw (sample, sample_root, e) (sample_by_service-Consistent _ trace_id sampler)
            | inr (rule, e) ↦
                rw (sample, sample_root, e) (sample_by_rule-Consistent rule now trace_id sampler)
          ]

    -- A root span is decided on.
    pub sample_decides :
        (now trace_id : ℕ) (name : Bytes) (kind : SpanKind) (attributes : List (KeyValue float))
        (sampler : DatadogSampler float)
        → let result = (sample float conv otel now none trace_id name kind attributes sampler).0 in
          (info : TraceRootSamplingInfo float) × (result.trace_root_info ≡ some info)
          × (Priority.is_keep info.priority ≡ result.is_keep)
    unfolding sample sample_root sample_matched sample_by_rule sample_by_service root_result
    sample_decides now trace_id name kind attributes sampler =
        elim (Option-cases
          (find_matching_rule float conv otel sampler.rules (seen sampler name kind attributes))) [
            | inl e ↦
                elim (Option-cases (
                  lookup (service_key float conv otel (seen sampler name kind attributes))
                    sampler.service_samplers)) [
                      | inl e' ↦
                          rw (sample, sample_root, e, sample_by_service, e')
                            (_, refl, is_keep-to_priority _ _)
                      | inr (s, e') ↦
                          rw (sample, sample_root, e, sample_by_service, e')
                            (_, refl, is_keep-to_priority _ _)
                    ]
            | inr (rule, e) ↦ elim (Bool-cases (sample_rule float rule trace_id)) [
              | inl keeps ↦
                  rw (sample, sample_root, e, sample_by_rule, keeps)
                    (_, refl, is_keep-to_priority _ _)
              | inr drops ↦
                  rw (sample, sample_root, e, sample_by_rule, drops)
                    (_, refl, is_keep-to_priority _ _)
            ]
          ]

    -- The four ways a call of `sample` can go: the parent's decision is inherited; no rule matches; the
    -- rule that matches drops the trace; or it keeps it, and then the limiter is asked, which decides.
    -- Only the last changes the sampler, and there it is the limiter that changes.
    pub Framed :
        ℕ
        → Option Bool
        → ℕ
        → Option (SamplingRule float)
        → DatadogSampler float
        → DdSamplingResult float × DatadogSampler float
        → Type 0
    Framed now parent trace_id matching sampler (result, sampler') =
        let asked = Limiter.is_allowed float sampler.rate_limiter now in
        ((p : Bool) × (parent ≡ some p)
          × (sampler' ≡ sampler)
          × (result.is_keep ≡ p)
          × (result.trace_root_info ≡ none))
        ⊎ ((parent ≡ none) × (matching ≡ none) × (sampler' ≡ sampler))
        ⊎ ((rule : SamplingRule float) × (parent ≡ none)
            × (matching ≡ some rule)
            × (sample_rule float rule trace_id ≡ false)
            × (sampler' ≡ sampler)
            × (result.is_keep ≡ false))
        ⊎ ((rule : SamplingRule float) × (parent ≡ none)
            × (matching ≡ some rule)
            × (sample_rule float rule trace_id ≡ true)
            × (sampler' ≡ record sampler { rate_limiter = asked.1 })
            × (result.is_keep ≡ asked.0))

    -- The limiter is asked for a root span that a rule matches and keeps, and for no other; it then
    -- decides, and in no other case does the sampler change. A span with a parent has the parent's
    -- decision, and a root span whose rule drops it is dropped.
    pub sample_frame :
        (now : ℕ) (parent : Option Bool) (trace_id : ℕ) (name : Bytes) (kind : SpanKind)
        (attributes : List (KeyValue float)) (sampler : DatadogSampler float)
        → Framed now parent trace_id
            (find_matching_rule float conv otel sampler.rules (seen sampler name kind attributes))
            sampler
            (sample float conv otel now parent trace_id name kind attributes sampler)
    unfolding Framed sample sample_root sample_matched sample_by_rule root_result
    sample_frame now (some p) trace_id name kind attributes sampler =
        inl (p, refl, refl, refl, refl)
    sample_frame now none trace_id name kind attributes sampler =
        elim (Option-cases
          (find_matching_rule float conv otel sampler.rules (seen sampler name kind attributes))) [
            | inl e ↦ inr (inl (refl, e, rw (sample, sample_root, e)))
            | inr (rule, e) ↦ elim (Bool-cases (sample_rule float rule trace_id)) [
              | inl keeps ↦ inr (
                  inr (
                    inr (
                      rule,
                      refl,
                      e,
                      keeps,
                      rw (sample, sample_root, e, sample_by_rule, keeps),
                      rw (sample, sample_root, e, sample_by_rule, keeps),
                    )))
              | inr drops ↦ inr (
                  inr (
                    inl (
                      rule,
                      refl,
                      e,
                      drops,
                      rw (sample, sample_root, e, sample_by_rule, drops),
                      rw (sample, sample_root, e, sample_by_rule, drops),
                    )))
            ]
          ]

    -- The trace of a matching rule is kept with the priority of a user's keep, and dropped, by the
    -- rule's rate or by the limit, with that of a user's reject.
    pub sample_rule_priority :
        (now trace_id : ℕ) (name : Bytes) (kind : SpanKind) (attributes : List (KeyValue float))
        (sampler : DatadogSampler float) (rule : SamplingRule float)
        → find_matching_rule float conv otel sampler.rules (seen sampler name kind attributes)
          ≡ some rule
        → let result = (sample float conv otel now none trace_id name kind attributes sampler).0 in
          (info : TraceRootSamplingInfo float) × (result.trace_root_info ≡ some info)
          × (info.priority ≡ (if result.is_keep then Priority.user_keep else Priority.user_reject))
    unfolding sample sample_root sample_matched sample_by_rule root_result
    sample_rule_priority now trace_id name kind attributes sampler rule e =
        elim (Bool-cases (sample_rule float rule trace_id)) [
          | inl keeps ↦
              rw (sample, sample_root, e, sample_by_rule, keeps) (_, refl, rule_priority rule _)
          | inr drops ↦
              rw (sample, sample_root, e, sample_by_rule, drops) (_, refl, rule_priority rule _)
        ]

  limit_tags_lem :
      (limit : Option ℤ) (mechanism : Value float) (rest : List (KeyValue float))
      → let tags = limit_tags float limit ++ (codes "_dd.p.dm", mechanism) ∷ rest in
        (lookup (codes "_dd.p.dm") tags ≡ some mechanism)
        × (lookup (codes "_sampling_priority_v1") tags
            ≡ lookup (codes "_sampling_priority_v1") rest)
  unfolding limit_tags lookup beq
  limit_tags_lem none mechanism rest = (refl, refl)
  limit_tags_lem (some l) mechanism rest = (refl, refl)

  rate_tags_lem :
      (m : SamplingMechanism) (rate : float.F) (priority : Value float)
      → lookup
          (codes "_sampling_priority_v1")
          (rate_tags float m rate ++ (codes "_sampling_priority_v1", priority) ∷ [])
        ≡ some priority
  unfolding rate_tags lookup beq
  rate_tags_lem m rate priority = ground arith

  pub Tagged : Option (TraceRootSamplingInfo float) → List (KeyValue float) → Type 0
  Tagged none tags = tags ≡ []
  Tagged (some info) tags =
      (lookup (codes "_dd.p.dm") tags ≡ some (Value.string (to_cow info.mechanism)))
      × (lookup (codes "_sampling_priority_v1") tags ≡ some (Value.i64 info.priority.value))

  -- The tags of a root span tell its mechanism and its priority; a span with a parent has none.
  pub to_dd_sampling_tags_sound :
      (result : DdSamplingResult float)
      → Tagged result.trace_root_info (to_dd_sampling_tags float result)
  unfolding Tagged to_dd_sampling_tags
  to_dd_sampling_tags_sound result = tagged result.trace_root_info refl
    where
      tagged :
          (root_info : Option (TraceRootSamplingInfo float))
          → root_info ≡ result.trace_root_info
          → Tagged root_info (to_dd_sampling_tags float result)
      tagged none e = rw (to_dd_sampling_tags, ← e)
      tagged (some info) e =
          let tags =
            limit_tags_lem info.rl_effective_rate (Value.string (to_cow info.mechanism)) _ in
          rw (to_dd_sampling_tags, ← e) (tags.0, tags.1 ∙ rate_tags_lem info.mechanism info.rate _)
