-- ===== src/Tracer/ShouldSample.antt =====
-- `Sampler::should_sample`: datadog-opentelemetry/src/sampler.rs. The sampler and the registry change
-- with a call.
pub mod Agrees
use dd_trace_rs.Prelude.{
  ℕ, Bool, true, false, not, ◌&&◌, List, [], ◌∷◌, Option, none, some, ◌==◌, ◌>>=◌, if◌then◌else◌,
  unwrap_or,
}
use dd_trace_rs.Prelude.Text.{Bytes, codes}
use dd_trace_rs.Prelude.Dict.{Dict, insert, bytes_eq}
use dd_trace_rs.Decision.{SamplingDecision, SamplingPriority}
use dd_trace_rs.Decision.Priority
use dd_trace_rs.Decision.Mechanism.{to_cow}
use dd_trace_rs.Registry.{RegisterTracePropagationResult, existing}
use dd_trace_rs.Registry.Segment.{TracePropagationData}
use dd_trace_rs.Registry.Shards.{TraceRegistry, registry_register_data}
use dd_trace_rs.Sampler.Float.{Float}
use dd_trace_rs.Sampler.Datadog.{
  DatadogSampler, DdSamplingResult, TraceRootSamplingInfo, OtelDecision, to_decision, sample,
  to_dd_sampling_tags, to_otel_decision,
}
use dd_trace_rs.Mapping.Keys.{Semconv}
use dd_trace_rs.Mapping.Value.{SpanKind, OpenTelemetry, KeyValue}
use dd_trace_rs.Tracer.Context.{
  Context, OtelSpanContext, DatadogExtractData, trace_flag_deferred, is_sampled,
}

abbrev pub is_deferred : Context → Bool
is_deferred c = c.span_context.trace_flags == trace_flag_deferred

unfoldable pub is_parent_deferred : Option Context → Bool
is_parent_deferred none = false
is_parent_deferred (some c) = is_deferred c

unfoldable pub is_parent_sampled : Option Context → Option Bool
is_parent_sampled none = none
is_parent_sampled (some c) =
    if not (is_deferred c) && c.has_active_span
    then some (is_sampled c.span_context.trace_flags)
    else none

abbrev pub trace_state : Option Context → Option Bytes
trace_state none = none
trace_state (some c) = c.span_context.trace_state

-- What was extracted, if the parent is there and has it.
abbrev pub parent_data : Option Context → Option DatadogExtractData
parent_data parent = parent >>= λ c. c.extract_data

-- The tags and the origin that a deferred decision goes on from.
merged : Option Context → Option (Dict Bytes Bytes) × Option Bytes
unfolding is_parent_deferred
merged parent =
    if is_parent_deferred parent
    then elim (parent_data parent) [
      | some d ↦ (some d.internal_tags, d.origin)
      | none ↦ (none, none)
    ]
    else (none, none)

-- `priority.is_none_or(|p| p.is_keep())`
abbrev pub keeps : SamplingDecision → Bool
keeps d = elim d.priority [ none ↦ true | some p ↦ Priority.is_keep p ]

module _ (float : Float) where
  -- The decision of a local root.
  unfoldable pub root_data : Option Context → TraceRootSamplingInfo float → TracePropagationData
  unfolding merged
  root_data parent info =
      let (tags, origin) = merged parent in
      record {
        sampling_decision = record {
          priority = some info.priority;
          mechanism = some info.mechanism;
        };
        origin = origin;
        tags = some (insert (codes "_dd.p.dm") (to_cow info.mechanism) (unwrap_or [] tags));
      }

  -- The decision of a remote parent.
  unfoldable pub remote_data : Option Context → Option TracePropagationData
  remote_data none = none
  remote_data (some c) =
      if c.span_context.is_remote
      then (c.extract_data >>= λ d. some (record {
        sampling_decision = record {
          priority = d.sampling.priority;
          mechanism = d.sampling.mechanism;
        };
        origin = d.origin;
        tags = some d.internal_tags;
      }))
      else none

  unfoldable pub trace_propagation_data :
      Option Context → DdSamplingResult float → Option TracePropagationData
  unfolding root_data remote_data
  trace_propagation_data parent result = elim result.trace_root_info [
    | some info ↦ some (root_data parent info)
    | none ↦ remote_data parent
  ]

  pub record SamplingResult : Type 0 where
    pub decision : OtelDecision
    pub attributes : List (KeyValue float)
    pub trace_state : Option Bytes

  abbrev pub sampled : Option Context → DdSamplingResult float → SamplingResult
  sampled parent result = record {
    decision = to_otel_decision float result;
    attributes = to_dd_sampling_tags float result;
    trace_state = trace_state parent;
  }

  -- The result when the trace has a decision already.
  abbrev pub decided : Option Context → SamplingDecision → SamplingResult
  decided parent d = record {
    decision = to_decision (keeps d);
    attributes = [];
    trace_state = trace_state parent;
  }

  module _ (SpanData : Type 0) (span_id : SpanData → ℕ) (hash : ℕ → ℕ) where
    abbrev pub result_of :
        Option Context
        → DdSamplingResult float
        → RegisterTracePropagationResult SpanData span_id
        → SamplingResult
    result_of parent result (existing d) = decided parent d
    result_of parent result RegisterTracePropagationResult.new = sampled parent result

    -- The registration of the decision, and the result.
    unfoldable pub register :
        ℕ
        → Option Context
        → DdSamplingResult float
        → Option TracePropagationData
        → TraceRegistry SpanData span_id hash
        → SamplingResult × TraceRegistry SpanData span_id hash
    register trace_id parent result none registry = (sampled parent result, registry)
    register trace_id parent result (some propagation_data) registry =
        let (registry', answer) =
          registry_register_data SpanData span_id hash trace_id propagation_data registry in
        (result_of parent result answer, registry')

    module _ (conv : Semconv) (otel : OpenTelemetry float) where
      unfoldable pub should_sample :
          Bool
          → ℕ
          → Option Context
          → ℕ
          → Bytes
          → SpanKind
          → List (KeyValue float)
          → DatadogSampler float
          → TraceRegistry SpanData span_id hash
          → SamplingResult × DatadogSampler float × TraceRegistry SpanData span_id hash
      unfolding trace_propagation_data register is_parent_sampled
      should_sample enabled now parent trace_id name span_kind attributes sampler registry =
          if enabled
          then (let (result, sampler') =
                sample float conv otel now (is_parent_sampled parent) trace_id name span_kind
                  attributes sampler in
              let (answer, registry') =
                register trace_id parent result (trace_propagation_data parent result) registry in
              (answer, sampler', registry'))
          else (
            record { decision = OtelDecision.drop; attributes = []; trace_state = none },
            sampler,
            registry,
          )
