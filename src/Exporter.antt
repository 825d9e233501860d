-- ===== src/Exporter.antt =====
-- The queue between the span processor and the exporter's worker:
-- datadog-opentelemetry/src/span_exporter.rs. `Batch`, `Sender` and `Receiver`. A method runs under the
-- lock and is a function that returns the new state; `poisoned` says that a thread panicked under it.
pub mod Services
pub mod Worker
use dd_trace_rs.Prelude.{
  ℕ, ◌+◌, ◌%◌, ◌^◌, Bool, true, false, not, ◌&&◌, ◌||◌, List, [], ◌∷◌, ◌++◌, length, Option, none,
  some, ltb, if◌then◌else◌, is_empty,
}
use dd_trace_rs.Prelude.Text.{Bytes, codes, beq}
use dd_trace_rs.Sampler.Float.{Float}
use dd_trace_rs.Mapping.Value.{Value, OpenTelemetry, KeyValue}
use dd_trace_rs.Tracer.Processor.{SpanData}
use Services.{ExtraServices, add_extra_service}

abbrev pub span_flush_threshold : ℕ
span_flush_threshold = 3000

abbrev pub max_buffered_spans : ℕ
max_buffered_spans = 10_000

abbrev pub usize_add : ℕ → ℕ → ℕ
usize_add a b = (a + b) % 2 ^ 64

pub data SenderError : Type 0 where
  already_shutdown : SenderError
  timed_out : SenderError
  mutex_poisoned : SenderError
  -- The number of spans that were dropped.
  batch_full : ℕ → SenderError

pub record QueueMetrics : Type 0 where
  pub spans_dropped_full_buffer : ℕ
  pub spans_queued : ℕ

abbrev pub no_metrics : QueueMetrics
no_metrics = record { spans_dropped_full_buffer = 0; spans_queued = 0 }

-- `Config::add_extra_service` with the name, unless it is empty or the default one.
add_service : Bytes → ExtraServices → ExtraServices
add_service service_name config =
    if not (is_empty service_name) && not (beq service_name (codes "otlpresourcenoservicename"))
    then add_extra_service service_name config
    else config

module _ (float : Float) where
  abbrev pub Chunk : Type 0
  Chunk = List (SpanData float)

  pub record Batch : Type 0 where
    pub chunks : List Chunk
    pub last_flush : ℕ
    pub span_count : ℕ
    pub max_buffered_spans : ℕ
    pub config : ExtraServices

  unfoldable pub new_batch : ℕ → ExtraServices → ℕ → Batch
  new_batch limit config now = record {
    chunks = [];
    last_flush = now;
    span_count = 0;
    max_buffered_spans = limit;
    config = config;
  }

  module _ (otel : OpenTelemetry float) where
    -- The first attribute of the name `service.name`.
    service_name_of : List (KeyValue float) → Option Bytes
    service_name_of [] = none
    service_name_of ((key, value) ∷ attributes) =
        if beq key (codes "service.name")
        then some (otel.to_string value)
        else service_name_of attributes

    extract_and_add_service_from_span : SpanData float → ExtraServices → ExtraServices
    unfolding service_name_of add_service
    extract_and_add_service_from_span span config = elim (service_name_of span.attributes) [
      | some service_name ↦ add_service service_name config
      | none ↦ config
    ]

    unfoldable pub add_services : Chunk → ExtraServices → ExtraServices
    unfolding extract_and_add_service_from_span
    add_services [] config = config
    add_services (span ∷ chunk) config =
        add_services chunk (extract_and_add_service_from_span span config)

    -- `none` for a chunk that is added, or the number of spans dropped.
    unfoldable pub batch_add : Chunk → Batch → Option ℕ × Batch
    batch_add chunk b =
        if ltb b.max_buffered_spans b.span_count
        then (some (length chunk), b)
        else if is_empty chunk
        then (none, b)
        else (
          none,
          record b {
            chunks = b.chunks ++ chunk ∷ [];
            span_count = usize_add b.span_count (length chunk);
            config = add_services chunk b.config;
          },
        )

  -- The chunks, and the emptied batch.
  unfoldable pub export : ℕ → Batch → List Chunk × Batch
  export now b = (b.chunks, record b { chunks = []; span_count = 0; last_flush = now })

  module _ (Resource : Type 0) where
    pub record SharedState : Type 0 where
      pub flush_needed : Bool
      pub shutdown_needed : Bool
      pub has_shutdown : Bool
      pub batch : Batch
      pub resource : Option Resource
      pub metrics : QueueMetrics
      pub poisoned : Bool

    -- `channel`
    unfoldable pub channel : ℕ → ExtraServices → ℕ → SharedState
    unfolding new_batch
    channel max_number_of_spans config now = record {
      flush_needed = false;
      shutdown_needed = false;
      has_shutdown = false;
      batch = new_batch max_number_of_spans config now;
      resource = none;
      metrics = no_metrics;
      poisoned = false;
    }

    -- The error of `Sender::get_running_state`, if it gives none of the state.
    unfoldable pub get_running_state : SharedState → Option SenderError
    get_running_state s =
        if s.poisoned
        then some mutex_poisoned
        else if s.has_shutdown
        then some already_shutdown
        else none

    -- The early return of an error.
    abbrev pub or_error :
        Option SenderError
        → SharedState
        → Option SenderError × SharedState
        → Option SenderError × SharedState
    or_error (some e) s answer = (some e, s)
    or_error none s answer = answer

    abbrev when_running :
        SharedState → Option SenderError × SharedState → Option SenderError × SharedState
    when_running s answer = or_error (get_running_state s) s answer

    unfoldable pub set_resource : Resource → SharedState → Option SenderError × SharedState
    set_resource r s = when_running s (none, record s { resource = some r })

    unfoldable pub trigger_flush : SharedState → Option SenderError × SharedState
    trigger_flush s = when_running s (none, record s { flush_needed = true })

    unfoldable pub trigger_shutdown : SharedState → Option SenderError × SharedState
    trigger_shutdown s = when_running s (none, record s { shutdown_needed = true })

    module _ (otel : OpenTelemetry float) (flush_trigger_number_of_spans : ℕ) where
      -- The counters and the flag after the batch has answered.
      unfoldable pub queued :
          Chunk → Option ℕ × Batch → SharedState → Option SenderError × SharedState
      queued chunk (some spans_dropped, b) s =
          let m = s.metrics in
          (
            some (batch_full spans_dropped),
            record s {
              batch = b;
              metrics = record m {
                spans_dropped_full_buffer = usize_add m.spans_dropped_full_buffer spans_dropped;
              };
            },
          )
      queued chunk (none, b) s =
          let m = s.metrics in
          (
            none,
            record s {
              batch = b;
              metrics = record m { spans_queued = usize_add m.spans_queued (length chunk) };
              flush_needed = s.flush_needed || ltb flush_trigger_number_of_spans b.span_count;
            },
          )

      unfoldable pub add_trace_chunk : Chunk → SharedState → Option SenderError × SharedState
      unfolding queued
      add_trace_chunk chunk s = when_running s (queued chunk (batch_add otel chunk s.batch) s)

    -- `QueueMetricsFetcher::get_metrics`
    unfoldable pub fetch_metrics : SharedState → QueueMetrics × SharedState
    fetch_metrics s =
        if s.poisoned then (no_metrics, s) else (s.metrics, record s { metrics = no_metrics })

    -- `Receiver::shutdown_done`
    unfoldable pub shutdown_done : SharedState → SharedState
    shutdown_done s = if s.poisoned then s else record s { has_shutdown = true }

    pub data TraceExporterMessage : Type 0 where
      flush_trace_chunks : TraceExporterMessage
      flush_trace_chunks_with_timeout : TraceExporterMessage
      set_resource_to : Resource → TraceExporterMessage
      shutdown : TraceExporterMessage

    -- The tests of `Receiver::receive` at the head of its loop: what it returns, or `none` if it waits.
    unfoldable pub ready :
        ℕ → SharedState → Option (TraceExporterMessage × List Chunk × SharedState)
    ready now s = elim s.resource [
      | some r ↦ some (set_resource_to r, [], record s { resource = none })
      | none ↦
          let (chunks, b) = export now s.batch in
          if s.shutdown_needed
          then some (shutdown, chunks, record s { batch = b })
          else if s.flush_needed
          then some (flush_trace_chunks, chunks, record s { flush_needed = false; batch = b })
          else none
    ]

    -- What `receive` returns when its wait has timed out.
    unfoldable pub on_timeout : ℕ → SharedState → TraceExporterMessage × List Chunk × SharedState
    on_timeout now s =
        let (chunks, b) = export now s.batch in
        (flush_trace_chunks_with_timeout, chunks, record s { batch = b })
