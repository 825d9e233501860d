-- ===== src/Tracer/Context.antt =====
-- The context of OpenTelemetry as the tracer reads it, and `DatadogExtractData`:
-- datadog-opentelemetry/src/text_map_propagator.rs.
use dd_trace_rs.Prelude.{ℕ, ◌%◌, Bool, List, [], ◌∷◌, Option, ◌==◌, if◌then◌else◌}
use dd_trace_rs.Prelude.Text.{Bytes, codes, starts_with}
use dd_trace_rs.Prelude.Dict.{Dict}
use dd_trace_rs.Propagation.Tracestate.{Sampling}
use dd_trace_rs.Propagation.Context.{SpanContext, SpanLink}

-- `opentelemetry::trace::SpanContext`; the trace state is its header, and `none` is `TraceState::NONE`,
-- which is also the default.
pub record OtelSpanContext : Type 0 where
  pub trace_id : ℕ
  pub span_id : ℕ
  pub trace_flags : ℕ
  pub is_remote : Bool
  pub trace_state : Option Bytes

pub record DatadogExtractData : Type 0 where
  pub links : List SpanLink
  pub origin : Option Bytes
  pub internal_tags : Dict Bytes Bytes
  pub sampling : Sampling

-- What the tracer reads of an `opentelemetry::Context`: `has_active_span`, the context of `span()`,
-- and the value of type `DatadogExtractData`.
pub record Context : Type 0 where
  pub has_active_span : Bool
  pub span_context : OtelSpanContext
  pub extract_data : Option DatadogExtractData

abbrev pub trace_flag_deferred : ℕ
trace_flag_deferred = 2

abbrev pub is_sampled : ℕ → Bool
is_sampled flags = flags % 2 == 1

internal_only : Dict Bytes Bytes → Dict Bytes Bytes
internal_only [] = []
internal_only ((k, v) ∷ tags) =
    let rest = internal_only tags in if starts_with (codes "_dd.") k then (k, v) ∷ rest else rest

unfoldable pub from_span_context : SpanContext → DatadogExtractData
unfolding internal_only
from_span_context context = record {
  links = context.links;
  origin = context.origin;
  internal_tags = internal_only context.tags;
  sampling = context.sampling;
}
