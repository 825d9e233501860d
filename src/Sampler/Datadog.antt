-- ===== src/Sampler/Datadog.antt =====
-- `DatadogSampler`: dd-trace-sampling/src/datadog_sampler.rs. The rate limiter changes with a call, so
-- a call gives the sampler that it leaves; `now` is the instant that the limiter reads.
pub mod Decides
use dd_trace_rs.Prelude.{
  ℕ, Bool, true, false, not, ◌&&◌, ◌||◌, Option, none, some, List, [], ◌∷◌, ◌++◌, if◌then◌else◌,
  ◌>>=◌, unwrap_or,
}
use dd_trace_rs.Prelude.Int.{ℤ, pos}
use dd_trace_rs.Prelude.Text.{Bytes, codes, beq}
use dd_trace_rs.Prelude.Dict.{Dict, lookup, bytes_eq}
use dd_trace_rs.Decision.{SamplingPriority, SamplingMechanism}
use dd_trace_rs.Decision.Mechanism
use dd_trace_rs.Decision.Mechanism.{to_priority, to_cow}
use dd_trace_rs.Sampler.Float.{Float}
use dd_trace_rs.Sampler.Rate
use dd_trace_rs.Sampler.Rate.{RateSampler}
use dd_trace_rs.Sampler.Limiter
use dd_trace_rs.Sampler.Limiter.{RateLimiter}
use dd_trace_rs.Mapping.Keys.{Semconv}
use dd_trace_rs.Mapping.Value.{Value, SpanKind, OpenTelemetry, Resource, KeyValue}
use dd_trace_rs.Mapping.Names.{get_otel_service, get_otel_env}
use dd_trace_rs.Sampler.Rules.{
  SamplingRule, SamplingRuleConfig, PreSampledSpan, from_configs, otel_span, find_matching_rule,
  sample_rule, update_rates,
}

-- `opentelemetry::trace::SamplingDecision`.
pub data OtelDecision : Type 0 where
  drop : OtelDecision
  record_only : OtelDecision
  record_and_sample : OtelDecision

abbrev pub to_decision : Bool → OtelDecision
to_decision true = record_and_sample
to_decision false = record_only

module _ (float : Float) where
  open float use {F, one, to_i32}

  pub record DatadogSampler : Type 0 where
    pub rules : List (SamplingRule float)
    pub service_samplers : Dict Bytes (RateSampler float)
    pub rate_limiter : RateLimiter float
    pub resource : Resource float

  pub record TraceRootSamplingInfo : Type 0 where
    pub priority : SamplingPriority
    pub mechanism : SamplingMechanism
    pub rate : F
    pub rl_effective_rate : Option ℤ

  pub record DdSamplingResult : Type 0 where
    pub is_keep : Bool
    pub trace_root_info : Option TraceRootSamplingInfo

  unfoldable pub new : List (SamplingRule float) → ℤ → Resource float → ℕ → DatadogSampler
  new rules rate_limit resource now = record {
    rules = rules;
    service_samplers = [];
    rate_limiter = Limiter.new float rate_limit none now;
    resource = resource;
  }

  -- The callback for the agent's answer. `parse` reads its JSON text: `none` where that fails, and
  -- the optional field `rates_by_service`.
  unfoldable pub on_agent_response :
      (Bytes → Option (Option (List (Bytes × F)))) → Bytes → DatadogSampler → DatadogSampler
  on_agent_response parse s sampler = elim (parse s) [
    | none ↦ sampler
    | some none ↦ sampler
    | some (some new_rates) ↦ record sampler { service_samplers = update_rates float new_rates }
  ]

  unfoldable pub get_sampling_mechanism : Option (SamplingRule float) → Bool → SamplingMechanism
  get_sampling_mechanism (some rule) used_agent_sampler =
      if beq rule.provenance (codes "customer")
      then Mechanism.remote_user_trace_sampling_rule
      else if beq rule.provenance (codes "dynamic")
      then Mechanism.remote_dynamic_trace_sampling_rule
      else Mechanism.local_user_trace_sampling_rule
  get_sampling_mechanism none used_agent_sampler =
      if used_agent_sampler then Mechanism.agent_rate_by_service else Mechanism.default

  -- The result of `sample_root` from what was found out.
  unfoldable pub root_result : SamplingMechanism → Bool → F → Option ℤ → DdSamplingResult
  root_result mechanism is_keep rate rl_effective_rate = record {
    is_keep = is_keep;
    trace_root_info = some (record {
      priority = to_priority mechanism is_keep;
      mechanism = mechanism;
      rate = rate;
      rl_effective_rate = rl_effective_rate;
    });
  }

  -- The branch of a matching rule: the limiter is asked only if the rule keeps the trace.
  unfoldable pub sample_by_rule :
      SamplingRule float → ℕ → ℕ → DatadogSampler → DdSamplingResult × DatadogSampler
  unfolding root_result
  sample_by_rule rule now trace_id sampler =
      let mechanism = get_sampling_mechanism (some rule) false in
      if sample_rule float rule trace_id
      then (let (allowed, limiter) = Limiter.is_allowed float sampler.rate_limiter now in
          let effective_rate = to_i32 (Limiter.effective_rate float limiter) in
          (
            root_result mechanism allowed rule.sample_rate
                (if allowed then none else some effective_rate),
            record sampler { rate_limiter = limiter },
          ))
      else (root_result mechanism false rule.sample_rate none, sampler)

  -- The branch without a rule: the agent's rate for the service, if there is one.
  unfoldable pub sample_by_service : Bytes → ℕ → DatadogSampler → DdSamplingResult
  unfolding root_result
  sample_by_service key trace_id sampler = elim (lookup key sampler.service_samplers) [
    | some s ↦
        root_result (get_sampling_mechanism none true) (Rate.sample float s trace_id) s.sample_rate
          none
    | none ↦ root_result (get_sampling_mechanism none false) true one none
  ]

  module _ (conv : Semconv) (otel : OpenTelemetry float) where
    -- The callback for remote configuration.
    unfoldable pub on_rules_update :
        List (SamplingRuleConfig float) → DatadogSampler → DatadogSampler
    on_rules_update rule_configs sampler = record sampler {
      rules = from_configs float conv otel rule_configs;
    }

    unfoldable pub service_key : PreSampledSpan float → Bytes
    service_key span =
        let view = otel_span float conv otel span in
        codes "service:"
        ++ get_otel_service conv otel view
        ++ codes ",env:"
        ++ get_otel_env conv otel view

    unfoldable pub sample_matched :
        Option (SamplingRule float)
        → PreSampledSpan float
        → ℕ
        → ℕ
        → DatadogSampler
        → DdSamplingResult × DatadogSampler
    sample_matched (some rule) span now trace_id sampler = sample_by_rule rule now trace_id sampler
    sample_matched none span now trace_id sampler =
        (sample_by_service (service_key span) trace_id sampler, sampler)

    unfoldable pub sample_root :
        ℕ
        → ℕ
        → Bytes
        → SpanKind
        → List (KeyValue float)
        → DatadogSampler
        → DdSamplingResult × DatadogSampler
    sample_root now trace_id name span_kind attributes sampler =
        let span : PreSampledSpan float = record {
          name = name;
          span_kind = span_kind;
          attributes = attributes;
          resource = sampler.resource;
        } in
        sample_matched (find_matching_rule float conv otel sampler.rules span) span now trace_id
          sampler

    unfoldable pub sample :
        ℕ
        → Option Bool
        → ℕ
        → Bytes
        → SpanKind
        → List (KeyValue float)
        → DatadogSampler
        → DdSamplingResult × DatadogSampler
    sample now (some is_parent_sampled) trace_id name span_kind attributes sampler =
        (record { is_keep = is_parent_sampled; trace_root_info = none }, sampler)
    sample now none trace_id name span_kind attributes sampler =
        sample_root now trace_id name span_kind attributes sampler

  rate_tags : SamplingMechanism → F → List (KeyValue float)
  rate_tags mechanism rate =
      if Mechanism.is mechanism Mechanism.agent_rate_by_service
      then (codes "_dd.agent_psr", Value.f64 rate) ∷ []
      else if Mechanism.is mechanism Mechanism.remote_user_trace_sampling_rule
          || Mechanism.is mechanism Mechanism.remote_dynamic_trace_sampling_rule
          || Mechanism.is mechanism Mechanism.local_user_trace_sampling_rule
      then (codes "_dd.rule_psr", Value.f64 rate) ∷ []
      else []

  limit_tags : Option ℤ → List (KeyValue float)
  limit_tags (some limit) = (codes "_dd.limit_psr", Value.i64 limit) ∷ []
  limit_tags none = []

  unfoldable pub to_dd_sampling_tags : DdSamplingResult → List (KeyValue float)
  unfolding rate_tags limit_tags
  to_dd_sampling_tags result = elim result.trace_root_info [
    | none ↦ []
    | some root_info ↦
        limit_tags root_info.rl_effective_rate
        ++ (codes "_dd.p.dm", Value.string (to_cow root_info.mechanism))
          ∷ (rate_tags root_info.mechanism root_info.rate
              ++ (codes "_sampling_priority_v1", Value.i64 root_info.priority.value) ∷ [])
  ]

  abbrev pub to_otel_decision : DdSamplingResult → OtelDecision
  to_otel_decision result = to_decision result.is_keep
