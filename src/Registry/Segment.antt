-- ===== src/Registry/Segment.antt =====
-- The records of a running trace: datadog-opentelemetry/src/span_processor.rs.
use dd_trace_rs.Prelude.{ℕ, ◌+◌, ◌%◌, ◌^◌, Bool, List, Option, none}
use dd_trace_rs.Prelude.Text.{Bytes}
use dd_trace_rs.Prelude.Dict.{Dict}
use dd_trace_rs.Decision.{SamplingDecision, undecided}

pub record TracePropagationData : Type 0 where
  pub sampling_decision : SamplingDecision
  pub origin : Option Bytes
  pub tags : Option (Dict Bytes Bytes)

abbrev pub empty_propagation_data : TracePropagationData
empty_propagation_data = record { sampling_decision = undecided; origin = none; tags = none }

-- `x += 1` on a `usize`.
abbrev pub increment : ℕ → ℕ
increment x = (x + 1) % 2 ^ 64

pub record Metrics : Type 0 where
  pub spans_created : ℕ
  pub spans_finished : ℕ
  pub trace_segments_created : ℕ
  pub trace_segments_closed : ℕ
  pub trace_partial_flush_count : ℕ

abbrev pub no_metrics : Metrics
no_metrics = record {
  spans_created = 0;
  spans_finished = 0;
  trace_segments_created = 0;
  trace_segments_closed = 0;
  trace_partial_flush_count = 0;
}

-- The settings that the registry reads.
pub record Config : Type 0 where
  pub trace_partial_flush_enabled : Bool
  pub trace_partial_flush_min_spans : ℕ

-- `SpanData` is the OpenTelemetry SDK's type.
pub record Trace (SpanData : Type 0) : Type 0 where
  pub local_root_span_id : ℕ
  pub finished_spans : List SpanData
  pub open_span_count : ℕ
  pub propagation_data : TracePropagationData
