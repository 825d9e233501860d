-- ===== src/Sampler/Rules.antt =====
-- `SamplingRule` and the samplers that hold the rules and the agent's rates: dd-trace-sampling/src/
-- datadog_sampler.rs, rules_sampler.rs, agent_service_sampler.rs, utils.rs. A rule's matcher is its
-- pattern in lower case, as the cache of a `GlobMatcher` does not show.
pub mod First
use dd_trace_rs.Prelude.{
  ℕ, Bool, true, false, not, ◌&&◌, ◌||◌, Option, none, some, List, [], ◌∷◌, map, all, is_empty,
  if◌then◌else◌, ◌>>=◌, ◌==◌, unwrap_or,
}
use dd_trace_rs.Prelude.Int.{ℤ, pos}
use dd_trace_rs.Prelude.Text.{Bytes, codes, beq, starts_with}
use dd_trace_rs.Prelude.Dict.{Dict, lookup, insert, bytes_eq}
use dd_trace_rs.Numeral.{print_signed}
use dd_trace_rs.Glob.{uncached, star}
use dd_trace_rs.Sampler.Float.{Float}
use dd_trace_rs.Sampler.Rate.{RateSampler}
use dd_trace_rs.Sampler.Rate
use dd_trace_rs.Mapping.Keys.{Semconv}
use dd_trace_rs.Mapping.Value.{Value, SpanKind, OpenTelemetry, Resource, KeyValue}
use dd_trace_rs.Mapping.Span.{OtelSpan, pre_sampled}
use dd_trace_rs.Mapping.Names.{
  get_otel_operation_name_v2, get_otel_resource_v2, get_otel_service, get_otel_status_code,
  get_dd_key_for_otlp_attribute,
}

-- A pattern in lower case.
pub record GlobMatcher : Type 0 where
  pub pattern : Bytes

-- The first element that passes the test: `Iterator::find`.
unfoldable pub find : {A : Type 0} → (A → Bool) → List A → Option A
find p [] = none
find p (x ∷ xs) = if p x then some x else find p xs

-- `Iterator::any`.
unfoldable pub any : {A : Type 0} → (A → Bool) → List A → Bool
any p [] = false
any p (x ∷ xs) = p x || any p xs

module _ (float : Float) where
  open float use {F, same, of_ℤ, to_i64, print}

  pub record SamplingRuleConfig : Type 0 where
    pub sample_rate : F
    pub service : Option Bytes
    pub name : Option Bytes
    pub resource : Option Bytes
    pub tags : Dict Bytes Bytes
    pub provenance : Bytes

  pub record SamplingRule : Type 0 where
    pub sample_rate : F
    pub provenance : Bytes
    pub rate_sampler : RateSampler float
    pub name_matcher : Option GlobMatcher
    pub service_matcher : Option GlobMatcher
    pub resource_matcher : Option GlobMatcher
    pub tag_matchers : Dict Bytes GlobMatcher

  pub record PreSampledSpan : Type 0 where
    pub name : Bytes
    pub span_kind : SpanKind
    pub attributes : List (KeyValue float)
    pub resource : Resource float

  unfoldable pub extract_string_value : Value float → Option Bytes
  extract_string_value (Value.string s) = some s
  extract_string_value (Value.i64 i) = some (print_signed i)
  extract_string_value (Value.f64 f) = some (print f)
  extract_string_value (Value.bool b) = some (if b then codes "true" else codes "false")
  extract_string_value _ = none

  unfoldable pub extract_float_value : Value float → Option F
  extract_float_value (Value.f64 f) = some f
  extract_float_value (Value.i64 i) = some (of_ℤ i)
  extract_float_value _ = none

  module _ (conv : Semconv) (otel : OpenTelemetry float) where
    open otel use {to_lowercase}

    unfoldable pub matcher_from_rule : Bytes → Option GlobMatcher
    matcher_from_rule rule =
        if is_empty rule then none else some (record { pattern = to_lowercase rule })

    tag_matchers_of : Dict Bytes Bytes → Dict Bytes GlobMatcher → Dict Bytes GlobMatcher
    tag_matchers_of [] matchers = matchers
    tag_matchers_of ((key, value) ∷ tags) matchers =
        tag_matchers_of tags (elim (matcher_from_rule value) [
          | some matcher ↦ insert key matcher matchers
          | none ↦ matchers
        ])

    unfoldable pub new_rule :
        F
        → Option Bytes
        → Option Bytes
        → Option Bytes
        → Option (Dict Bytes Bytes)
        → Option Bytes
        → SamplingRule
    unfolding matcher_from_rule tag_matchers_of
    new_rule sample_rate service name resource tags provenance = record {
      sample_rate = sample_rate;
      provenance = unwrap_or (codes "default") provenance;
      rate_sampler = Rate.new float sample_rate;
      name_matcher = name >>= matcher_from_rule;
      service_matcher = service >>= matcher_from_rule;
      resource_matcher = resource >>= matcher_from_rule;
      tag_matchers = tag_matchers_of (unwrap_or [] tags) [];
    }

    unfoldable pub from_configs : List SamplingRuleConfig → List SamplingRule
    unfolding new_rule
    from_configs configs =
        map
          (λ config.
            new_rule config.sample_rate config.service config.name config.resource
              (some config.tags) (some config.provenance))
          configs

    abbrev pub glob_matches : GlobMatcher → Bytes → Bool
    glob_matches matcher subject = uncached to_lowercase matcher.pattern subject

    -- A number with decimals matches only a pattern of stars.
    match_float : F → GlobMatcher → Bool
    match_float x matcher =
        if same x (of_ℤ (to_i64 x))
        then glob_matches matcher (print x)
        else all (λ c. c == star) matcher.pattern

    unfoldable pub match_attribute_value : Value float → GlobMatcher → Option Bool
    unfolding match_float extract_float_value extract_string_value
    match_attribute_value value matcher = elim (extract_float_value value) [
      | some x ↦ some (match_float x matcher)
      | none ↦ extract_string_value value >>= λ s. some (glob_matches matcher s)
    ]

    unfoldable pub otel_span : PreSampledSpan → OtelSpan float
    unfolding pre_sampled
    otel_span span =
        pre_sampled float conv otel span.name span.span_kind span.attributes span.resource

    unfoldable pub match_http_status_code_rule : GlobMatcher → PreSampledSpan → Option Bool
    unfolding otel_span match_attribute_value
    match_http_status_code_rule matcher span =
        let status_code = get_otel_status_code conv otel (otel_span span) in
        if status_code == 0
        then none
        else match_attribute_value (Value.i64 (pos status_code)) matcher

    attribute_matches : GlobMatcher → KeyValue float → Bool
    unfolding match_attribute_value
    attribute_matches matcher kv = unwrap_or false (match_attribute_value kv.1 matcher)

    direct_match : Bytes → GlobMatcher → PreSampledSpan → Bool
    unfolding attribute_matches find
    direct_match key matcher span = elim (find (λ kv. beq kv.0 key) span.attributes) [
      | some kv ↦ attribute_matches matcher kv
      | none ↦ false
    ]

    mapped_match : Bytes → GlobMatcher → PreSampledSpan → Bool
    unfolding attribute_matches any
    mapped_match key matcher span =
        any
          (λ kv. beq (get_dd_key_for_otlp_attribute conv kv.0) key && attribute_matches matcher kv)
          span.attributes

    -- One round of the loop over the tags: whether it goes on.
    unfoldable pub tag_matches : PreSampledSpan → Bytes × GlobMatcher → Bool
    unfolding match_http_status_code_rule direct_match mapped_match
    tag_matches span (key, matcher) =
        if beq key (codes "http.status_code") || beq key conv.http_response_status_code
        then unwrap_or false (match_http_status_code_rule matcher span)
        else if direct_match key matcher span
        then true
        else if starts_with (codes "http.") key
        then mapped_match key matcher span
        else false

    -- No matcher asks for nothing.
    abbrev pub passes : Option GlobMatcher → Bytes → Bool
    passes none text = true
    passes (some matcher) text = glob_matches matcher text

    unfoldable pub rule_matches : SamplingRule → PreSampledSpan → Bool
    unfolding otel_span tag_matches
    rule_matches rule span =
        let view = otel_span span in
        passes rule.name_matcher (get_otel_operation_name_v2 conv otel view)
        && passes rule.service_matcher (get_otel_service conv otel view)
        && passes rule.resource_matcher (get_otel_resource_v2 conv otel view)
        && all (tag_matches span) rule.tag_matchers

    -- `RulesSampler::find_matching_rule`.
    unfoldable pub find_matching_rule : List SamplingRule → PreSampledSpan → Option SamplingRule
    unfolding find rule_matches
    find_matching_rule rules span = find (λ rule. rule_matches rule span) rules

  -- `SamplingRule::sample`.
  unfoldable pub sample_rule : SamplingRule → ℕ → Bool
  sample_rule rule trace_id = Rate.sample float rule.rate_sampler trace_id

  -- `ServicesSampler::update_rates`.
  unfoldable pub update_rates : List (Bytes × F) → Dict Bytes (RateSampler float)
  update_rates rates = collect rates []
    where
      collect : List (Bytes × F) → Dict Bytes (RateSampler float) → Dict Bytes (RateSampler float)
      collect [] samplers = samplers
      collect ((s, r) ∷ rest) samplers = collect rest (insert s (Rate.new float r) samplers)
