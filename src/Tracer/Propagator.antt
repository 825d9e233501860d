-- ===== src/Tracer/Propagator.antt =====
-- `DatadogPropagator`: datadog-opentelemetry/src/text_map_propagator.rs, with the composite propagator
-- inside it. No call panics here, so `catch_panic!` gives what its argument does.
pub mod Inherits
pub mod PassesOn
use dd_trace_rs.Prelude.{
  ℕ, Bool, true, false, not, List, [], ◌∷◌, Option, none, some, ◌==◌, ◌>>=◌, if◌then◌else◌,
  unwrap_or,
}
use dd_trace_rs.Prelude.Text.{Bytes}
use dd_trace_rs.Decision.{SamplingDecision, SamplingPriority}
use dd_trace_rs.Decision.Priority
use dd_trace_rs.Registry.Segment.{TracePropagationData}
use dd_trace_rs.Registry.Shards.{TraceRegistry, registry_propagation_data}
use dd_trace_rs.Propagation.Tracestate.{Sampling, Tracestate}
use dd_trace_rs.Propagation.Context.{SpanContext, InjectSpanContext, InjectTraceState}
use dd_trace_rs.Propagation.Composite
use dd_trace_rs.Propagation.Composite.{DatadogCompositePropagator}
use dd_trace_rs.Tracer.Context.{
  Context, OtelSpanContext, DatadogExtractData, from_span_context, trace_flag_deferred, is_sampled,
}

unfoldable pub extract_trace_flags : SpanContext → ℕ
extract_trace_flags sc = elim sc.sampling.priority [
  | some priority ↦ if Priority.is_keep priority then 1 else 0
  | none ↦ trace_flag_deferred
]

-- The sampling that is injected: the trace's, or else what the span's flags say.
unfoldable pub sampling_of : SamplingDecision → ℕ → Sampling
sampling_of decision trace_flags = elim decision.priority [
  | some priority ↦ record { priority = some priority; mechanism = decision.mechanism }
  | none ↦ record {
    priority = some (if is_sampled trace_flags then Priority.auto_keep else Priority.auto_reject);
    mechanism = none;
  }
]

unfoldable pub inject_span_context : OtelSpanContext → TracePropagationData → InjectSpanContext
unfolding sampling_of
inject_span_context sc propagation_data = record {
  trace_id = sc.trace_id;
  span_id = sc.span_id;
  sampling = sampling_of propagation_data.sampling_decision sc.trace_flags;
  origin = propagation_data.origin;
  tags = unwrap_or [] propagation_data.tags;
  is_remote = sc.is_remote;
  tracestate = sc.trace_state >>= λ header. some (record { header = header });
}

-- What is called of the crate `opentelemetry`: whether a span context is valid, a trace state from its
-- entries, and a context with a remote span and the extracted data in it.
pub record OtelContexts : Type 0 where
  pub is_valid : OtelSpanContext → Bool
  pub from_key_value : List (Bytes × Bytes) → Option Bytes
  pub with_remote : OtelSpanContext → DatadogExtractData → Context → Context

module _ (contexts : OtelContexts) where
  open contexts use {is_valid, from_key_value, with_remote}

  unfoldable pub extract_trace_state_from_context : SpanContext → Option Bytes
  extract_trace_state_from_context sc = do
    tracestate ← sc.tracestate
    additional ← tracestate.additional_values
    from_key_value additional

  unfoldable pub otel_span_context : SpanContext → OtelSpanContext
  unfolding extract_trace_flags extract_trace_state_from_context
  otel_span_context sc = record {
    trace_id = sc.trace_id;
    span_id = sc.span_id;
    trace_flags = extract_trace_flags sc;
    is_remote = sc.is_remote;
    trace_state = extract_trace_state_from_context sc;
  }

  -- What the extracted context makes of the current one.
  unfoldable pub with_extracted : Context → Option SpanContext → Context
  unfolding otel_span_context
  with_extracted cx none = cx
  with_extracted cx (some sc) = with_remote (otel_span_context sc) (from_span_context sc) cx

  unfoldable pub extract_with_context :
      Bool → DatadogCompositePropagator → Context → (Bytes → Option Bytes) → Context
  unfolding with_extracted
  extract_with_context enabled inner cx extractor =
      if enabled then with_extracted cx (Composite.extract extractor inner) else cx

  module _ (SpanData : Type 0) (span_id : SpanData → ℕ) (hash : ℕ → ℕ) {C : Type 0}
      (set : Bytes → Bytes → C → C) where
    unfoldable pub inject_context :
        Bool → DatadogCompositePropagator → TraceRegistry SpanData span_id hash → Context → C → C
    unfolding inject_span_context
    inject_context enabled inner registry cx injector =
        let sc = cx.span_context in
        let propagation_data =
          registry_propagation_data SpanData span_id hash sc.trace_id registry in
        if not enabled
        then injector
        else if not (is_valid sc)
        then injector
        else (Composite.inject set inner (inject_span_context sc propagation_data) injector).0

unfoldable pub fields : Bool → DatadogCompositePropagator → List Bytes
fields enabled inner = if enabled then inner.keys else []
