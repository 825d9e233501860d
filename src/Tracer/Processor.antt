-- ===== src/Tracer/Processor.antt =====
-- `DatadogSpanProcessor`: the callbacks `on_start` and `on_end` of
-- datadog-opentelemetry/src/span_processor.rs. The chunk that `on_end` gives to the exporter is part of
-- its result.
pub mod Chunks
use dd_trace_rs.Prelude.{
  ℕ, ◌%◌, ◌^◌, Bool, true, false, not, ◌&&◌, ◌||◌, List, [], ◌∷◌, ◌++◌, map, Option, none, some,
  ◌==◌, ◌>>=◌, if◌then◌else◌, unwrap_or, is_empty,
}
use dd_trace_rs.Prelude.Text.{Bytes, codes}
use dd_trace_rs.Prelude.Dict.{Dict}
use dd_trace_rs.Decision.{SamplingDecision}
use dd_trace_rs.Decision.Mechanism.{to_cow}
use dd_trace_rs.Registry.Segment.{Trace, TracePropagationData, empty_propagation_data}
use dd_trace_rs.Registry.Shards.{
  TraceRegistry, registry_register_root, registry_register_span, registry_finish_span,
}
use dd_trace_rs.Propagation.Context.{SpanLink}
use dd_trace_rs.Sampler.Float.{Float}
use dd_trace_rs.Mapping.Value.{Value, KeyValue}
use dd_trace_rs.Tracer.Context.{Context, OtelSpanContext, DatadogExtractData}

module _ (float : Float) where
  open float use {one}

  -- A finished span of the SDK, of which the processor reads and writes these.
  pub record SpanData : Type 0 where
    pub span_context : OtelSpanContext
    pub attributes : List (KeyValue float)

  abbrev pub span_id : SpanData → ℕ
  span_id s = s.span_context.span_id

  -- A span that starts. `is_valid` is that of its context.
  pub record Span : Type 0 where
    pub span_context : OtelSpanContext
    pub is_recording : Bool
    pub is_valid : Bool
    pub links : List (OtelSpanContext × List (KeyValue float))

  unfoldable pub push : Bytes → Value float → SpanData → SpanData
  push key value s = record s { attributes = s.attributes ++ (key, value) ∷ [] }

  -- `parse_state` is `TraceState::from_str`.
  to_link : (Bytes → Option Bytes) → SpanLink → OtelSpanContext × List (KeyValue float)
  to_link parse_state link = (
    record {
      trace_id = link.trace_id;
      span_id = link.span_id;
      trace_flags = unwrap_or 0 link.flags % 2 ^ 8;
      is_remote = false;
      trace_state = link.tracestate >>= parse_state;
    },
    map (λ kv. (kv.0, Value.string kv.1)) (unwrap_or [] link.attributes),
  )

  unfoldable pub add_remote_links : (Bytes → Option Bytes) → Context → Span → Span
  unfolding to_link
  add_remote_links parse_state parent_ctx span = elim parent_ctx.extract_data [
    | some d ↦ record span { links = span.links ++ map (to_link parse_state) d.links }
    | none ↦ span
  ]

  unfoldable pub push_all : Dict Bytes Bytes → SpanData → SpanData
  unfolding push
  push_all [] s = s
  push_all ((key, value) ∷ tags) s = push_all tags (push key (Value.string value) s)

  push_priority : SamplingDecision → SpanData → SpanData
  unfolding push
  push_priority d s = elim d.priority [
    | some priority ↦ push (codes "_sampling_priority_v1") (Value.i64 priority.value) s
    | none ↦ s
  ]

  push_mechanism : SamplingDecision → SpanData → SpanData
  unfolding push
  push_mechanism d s = elim d.mechanism [
    | some mechanism ↦ push (codes "_dd.p.dm") (Value.string (to_cow mechanism)) s
    | none ↦ s
  ]

  -- The body of the loop over the finished spans.
  unfoldable pub add_data : ℕ → TracePropagationData → SpanData → SpanData
  unfolding push push_all push_priority push_mechanism
  add_data local_root_span_id propagation_data span =
      let origin = unwrap_or [] propagation_data.origin in
      let tags = unwrap_or [] propagation_data.tags in
      let tagged = if span_id span == local_root_span_id then push_all tags span else span in
      let from =
        if is_empty origin
        then tagged
        else push (codes "_dd.origin") (Value.string origin) tagged in
      push_mechanism propagation_data.sampling_decision
        (push_priority propagation_data.sampling_decision from)

  unfoldable pub add_trace_propagation_data : Trace SpanData → List SpanData
  unfolding add_data
  add_trace_propagation_data trace =
      map (add_data trace.local_root_span_id trace.propagation_data) trace.finished_spans

  -- The first span with the id of the local root is tagged.
  unfoldable pub tag_top_level : ℕ → List SpanData → List SpanData
  unfolding push
  tag_top_level local_root_span_id [] = []
  tag_top_level local_root_span_id (s ∷ spans) =
      let rest = tag_top_level local_root_span_id spans in
      if span_id s == local_root_span_id
      then push (codes "_top_level") (Value.f64 one) s ∷ spans
      else s ∷ rest

  pub record Settings : Type 0 where
    pub enabled : Bool
    pub trace_partial_flush_enabled : Bool

  -- The chunk that a finished trace is exported as.
  unfoldable pub chunk_of : Settings → Trace SpanData → List SpanData
  unfolding tag_top_level add_trace_propagation_data
  chunk_of config trace =
      if config.trace_partial_flush_enabled
      then add_trace_propagation_data (record trace {
        finished_spans = tag_top_level trace.local_root_span_id trace.finished_spans;
      })
      else add_trace_propagation_data trace

  module _ (hash : ℕ → ℕ) where
    abbrev pub Registry : Type 0
    Registry = TraceRegistry SpanData span_id hash

    unfoldable pub on_start :
        (Bytes → Option Bytes) → Settings → Context → Span × Registry → Span × Registry
    unfolding add_remote_links
    on_start parse_state config parent_ctx (span, registry) =
        let trace_id = span.span_context.trace_id in
        let id = span.span_context.span_id in
        if not config.enabled || not span.is_recording || not span.is_valid
        then (span, registry)
        else if parent_ctx.span_context.is_remote
        then (
          add_remote_links parse_state parent_ctx span,
          registry_register_root SpanData span_id hash trace_id id registry,
        )
        else if not parent_ctx.has_active_span
        then (span, registry_register_root SpanData span_id hash trace_id id registry)
        else (
          span,
          registry_register_span SpanData span_id hash trace_id id empty_propagation_data registry,
        )

    -- What is exported, if anything is.
    export_of : Settings → Option (Trace SpanData) → Option (List SpanData)
    unfolding chunk_of
    export_of config none = none
    export_of config (some trace) = if config.enabled then some (chunk_of config trace) else none

    unfoldable pub on_end : Settings → SpanData → Registry → Option (List SpanData) × Registry
    unfolding export_of
    on_end config span registry =
        let (registry', finished) =
          registry_finish_span SpanData span_id hash span.span_context.trace_id span registry in
        (export_of config finished, registry')
