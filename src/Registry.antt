-- ===== src/Registry.antt =====
-- `InnerTraceRegistry`: datadog-opentelemetry/src/span_processor.rs. One shard of the registry of the
-- traces that are running, built without the feature active-span-metadata. Trace and span ids are
-- the numbers that their bytes spell, so the id of eight zero bytes is 0. Counters are `usize`s of 64
-- bits, which wrap around.
pub mod Segment
pub mod Spans
pub mod Events
pub mod Isolation
pub mod Root
pub mod Flush
pub mod Decided
pub mod Shards
pub mod Counters
pub mod Refinement
use dd_trace_rs.Prelude.{
  ℕ, ◌+◌, ◌-◌, ◌%◌, ◌^◌, Bool, true, false, ◌&&◌, List, [], ◌∷◌, ◌++◌, Option, none, some, ◌==◌,
  leb, if◌then◌else◌, length, is_some,
}
use dd_trace_rs.Prelude.Text.{Bytes}
use dd_trace_rs.Prelude.Dict.{Dict, lookup, insert, remove, nat_eq}
use dd_trace_rs.Decision.{SamplingDecision, undecided}
use Segment.{
  Trace, TracePropagationData, empty_propagation_data, Config, Metrics, no_metrics, increment,
}

-- The spans are those of the OpenTelemetry SDK, of which the registry reads the id.
module _ (SpanData : Type 0) (span_id : SpanData → ℕ) where
  abbrev pub Traces : Type 0
  Traces = Dict ℕ (Trace SpanData)

  pub record InnerTraceRegistry : Type 0 where
    pub registry : Traces
    pub metrics : Metrics
    pub config : Config

  pub data RegisterTracePropagationResult : Type 0 where
    existing : SamplingDecision → RegisterTracePropagationResult
    new : RegisterTracePropagationResult

  -- A trace whose local root span is still to come.
  abbrev awaiting_root : TracePropagationData → Trace SpanData
  awaiting_root propagation_data = record {
    local_root_span_id = 0;
    finished_spans = [];
    open_span_count = 1;
    propagation_data = propagation_data;
  }

  abbrev register_occupied :
      InnerTraceRegistry
      → ℕ
      → TracePropagationData
      → Trace SpanData
      → InnerTraceRegistry × RegisterTracePropagationResult
  register_occupied r trace_id propagation_data trace =
      if is_some trace.propagation_data.sampling_decision.priority
      then (r, existing trace.propagation_data.sampling_decision)
      else (
        record r {
          registry =
              insert trace_id (record trace { propagation_data = propagation_data }) r.registry;
        },
        new,
      )

  abbrev register_vacant :
      InnerTraceRegistry
      → ℕ
      → TracePropagationData
      → InnerTraceRegistry × RegisterTracePropagationResult
  register_vacant r trace_id propagation_data =
      let m = r.metrics in
      (
        record r {
          registry = insert trace_id (awaiting_root propagation_data) r.registry;
          metrics = record m {
            trace_segments_created = increment m.trace_segments_created;
            spans_created = increment m.spans_created;
          };
        },
        new,
      )

  unfoldable pub register_local_root_trace_propagation_data :
      ℕ
      → TracePropagationData
      → InnerTraceRegistry
      → InnerTraceRegistry × RegisterTracePropagationResult
  register_local_root_trace_propagation_data trace_id propagation_data r =
      elim (lookup trace_id r.registry) [
        | some trace ↦ register_occupied r trace_id propagation_data trace
        | none ↦ register_vacant r trace_id propagation_data
      ]

  abbrev set_root : ℕ → Trace SpanData → Trace SpanData
  set_root root_span_id trace =
      if trace.local_root_span_id == 0
      then record trace { local_root_span_id = root_span_id }
      else trace

  unfoldable pub register_local_root_span : ℕ → ℕ → InnerTraceRegistry → InnerTraceRegistry
  register_local_root_span trace_id root_span_id r = elim (lookup trace_id r.registry) [
    | some trace ↦ record r { registry = insert trace_id (set_root root_span_id trace) r.registry }
    | none ↦ record r {
      registry =
          insert trace_id (set_root root_span_id (awaiting_root empty_propagation_data)) r.registry;
    }
  ]

  abbrev open_one : Trace SpanData → Trace SpanData
  open_one trace = record trace { open_span_count = increment trace.open_span_count }

  unfoldable pub register_span :
      ℕ → ℕ → TracePropagationData → InnerTraceRegistry → InnerTraceRegistry
  register_span trace_id span_id propagation_data r =
      let m = r.metrics in
      elim (lookup trace_id r.registry) [
        | some trace ↦ record r {
          registry = insert trace_id (open_one trace) r.registry;
          metrics = record m { spans_created = increment m.spans_created };
        }
        | none ↦
            let first : Trace SpanData = record {
              local_root_span_id = span_id;
              finished_spans = [];
              open_span_count = 0;
              propagation_data = propagation_data;
            } in
            record r {
              registry = insert trace_id (open_one first) r.registry;
              metrics = record m {
                spans_created = increment m.spans_created;
                trace_segments_created = increment m.trace_segments_created;
              };
            }
      ]

  -- Push a finished span; the local root takes the first place, and what stood there goes last.
  unfoldable pub push_finished : ℕ → SpanData → List SpanData → List SpanData
  push_finished root span [] = span ∷ []
  push_finished root span (s ∷ ss) =
      if span_id span == root then span ∷ ss ++ s ∷ [] else s ∷ ss ++ span ∷ []

  abbrev pub close_one : SpanData → Trace SpanData → Trace SpanData
  close_one span trace = record trace {
    finished_spans = push_finished trace.local_root_span_id span trace.finished_spans;
    open_span_count = trace.open_span_count - 1;
  }

  abbrev pub flush_due : Config → Trace SpanData → Bool
  flush_due c trace =
      c.trace_partial_flush_enabled
      && leb c.trace_partial_flush_min_spans (length trace.finished_spans)

  -- What `finish_span` does to the slot of a known trace, once the span is pushed.
  abbrev pub finish_occupied :
      InnerTraceRegistry → ℕ → Trace SpanData → InnerTraceRegistry × Option (Trace SpanData)
  finish_occupied r trace_id trace =
      let m = r.metrics in
      if flush_due r.config trace
      then (
        record r {
          registry = insert trace_id (record trace { finished_spans = [] }) r.registry;
          metrics = record m { trace_partial_flush_count = increment m.trace_partial_flush_count };
        },
        some trace,
      )
      else if trace.open_span_count == 0
      then (
        record r {
          registry = remove trace_id r.registry;
          metrics = record m { trace_segments_closed = increment m.trace_segments_closed };
        },
        some trace,
      )
      else (record r { registry = insert trace_id trace r.registry }, none)

  -- A span of a trace that is not registered is flushed alone.
  abbrev pub finish_vacant :
      InnerTraceRegistry → SpanData → InnerTraceRegistry × Option (Trace SpanData)
  finish_vacant r span =
      let m = r.metrics in
      (
        record r {
          metrics = record m {
            trace_segments_created = increment m.trace_segments_created;
            trace_segments_closed = increment m.trace_segments_closed;
          };
        },
        some (record {
          local_root_span_id = span_id span;
          finished_spans = span ∷ [];
          open_span_count = 0;
          propagation_data = empty_propagation_data;
        }),
      )

  abbrev pub count_finished : InnerTraceRegistry → InnerTraceRegistry
  count_finished r =
      let m = r.metrics in
      record r { metrics = record m { spans_finished = increment m.spans_finished } }

  unfoldable pub finish_span :
      ℕ → SpanData → InnerTraceRegistry → InnerTraceRegistry × Option (Trace SpanData)
  unfolding push_finished
  finish_span trace_id span r = elim (lookup trace_id r.registry) [
    | some trace ↦ finish_occupied (count_finished r) trace_id (close_one span trace)
    | none ↦ finish_vacant (count_finished r) span
  ]

  unfoldable pub get_trace_propagation_data : ℕ → InnerTraceRegistry → TracePropagationData
  get_trace_propagation_data trace_id r = elim (lookup trace_id r.registry) [
    | some trace ↦ trace.propagation_data
    | none ↦ empty_propagation_data
  ]

  -- `std::mem::take` of the counters.
  unfoldable get_metrics : InnerTraceRegistry → InnerTraceRegistry × Metrics
  get_metrics r = (record r { metrics = no_metrics }, r.metrics)
