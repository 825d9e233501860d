-- ===== src/Registry/Shards.antt =====
-- `TraceRegistry`: datadog-opentelemetry/src/span_processor.rs. Sixty-four registries, of which the
-- hash of the trace id picks one. The hash is a parameter: it is that of the foldhash crate.
use dd_trace_rs.Prelude.{ℕ, zero, suc, ◌+◌, ◌^◌, ◌%◌, Option, none, some, [], ◌==◌, if◌then◌else◌}
use dd_trace_rs.Prelude.Dict.{lookup, nat_eq}
use dd_trace_rs.Registry.Segment.{Trace, TracePropagationData, Config, Metrics, no_metrics}
use dd_trace_rs.Registry.{
  InnerTraceRegistry, RegisterTracePropagationResult, register_local_root_trace_propagation_data,
  register_local_root_span, register_span, finish_span, get_trace_propagation_data, get_metrics,
}

module _ (SpanData : Type 0) (span_id : SpanData → ℕ) (hash : ℕ → ℕ) where
  abbrev Inner : Type 0
  Inner = InnerTraceRegistry SpanData span_id

  abbrev pub trace_registry_shards : ℕ
  trace_registry_shards = 64

  -- The shards by their index.
  pub record TraceRegistry : Type 0 where
    pub inner : ℕ → Inner

  abbrev pub shard_of : ℕ → ℕ
  shard_of trace_id = hash trace_id % trace_registry_shards

  unfoldable pub new : Config → TraceRegistry
  new config = record {
    inner = λ _. record { registry = []; metrics = no_metrics; config = config };
  }

  -- `get_shard` for reading, and for writing under the shard's lock.
  abbrev pub get_shard : ℕ → TraceRegistry → Inner
  get_shard trace_id t = t.inner (shard_of trace_id)

  abbrev pub set_shard : ℕ → Inner → TraceRegistry → TraceRegistry
  set_shard trace_id r t = record { inner = λ i. if i == shard_of trace_id then r else t.inner i }

  unfoldable pub registry_register_data :
      ℕ
      → TracePropagationData
      → TraceRegistry
      → TraceRegistry × RegisterTracePropagationResult SpanData span_id
  registry_register_data trace_id d t =
      let (r, result) =
        register_local_root_trace_propagation_data SpanData span_id trace_id d
          (get_shard trace_id t) in
      (set_shard trace_id r t, result)

  unfoldable pub registry_register_root : ℕ → ℕ → TraceRegistry → TraceRegistry
  registry_register_root trace_id root t =
      set_shard trace_id
        (register_local_root_span SpanData span_id trace_id root (get_shard trace_id t)) t

  unfoldable pub registry_register_span :
      ℕ → ℕ → TracePropagationData → TraceRegistry → TraceRegistry
  registry_register_span trace_id id d t =
      set_shard trace_id (register_span SpanData span_id trace_id id d (get_shard trace_id t)) t

  unfoldable pub registry_finish_span :
      ℕ → SpanData → TraceRegistry → TraceRegistry × Option (Trace SpanData)
  registry_finish_span trace_id s t =
      let (r, chunk) = finish_span SpanData span_id trace_id s (get_shard trace_id t) in
      (set_shard trace_id r t, chunk)

  unfoldable pub registry_propagation_data : ℕ → TraceRegistry → TracePropagationData
  registry_propagation_data trace_id t =
      get_trace_propagation_data SpanData span_id trace_id (get_shard trace_id t)

  unfoldable get_local_root_span_id : ℕ → TraceRegistry → Option ℕ
  get_local_root_span_id trace_id t = elim (lookup trace_id (get_shard trace_id t).registry) [
    | some trace ↦ if trace.local_root_span_id == 0 then none else some trace.local_root_span_id
    | none ↦ none
  ]

  abbrev add : ℕ → ℕ → ℕ
  add x y = (x + y) % 2 ^ 64

  abbrev add_metrics : Metrics → Metrics → Metrics
  add_metrics stats shard_stats = record {
    spans_created = add stats.spans_created shard_stats.spans_created;
    spans_finished = add stats.spans_finished shard_stats.spans_finished;
    trace_segments_created = add stats.trace_segments_created shard_stats.trace_segments_created;
    trace_segments_closed = add stats.trace_segments_closed shard_stats.trace_segments_closed;
    trace_partial_flush_count =
        add stats.trace_partial_flush_count shard_stats.trace_partial_flush_count;
  }

  -- The loop over the shards below `n`.
  unfoldable pub take_metrics : ℕ → TraceRegistry → TraceRegistry × Metrics
  take_metrics zero t = (t, no_metrics)
  take_metrics (suc n) t =
      let (t', stats) = take_metrics n t in
      let (r, shard_stats) = get_metrics SpanData span_id (t'.inner n) in
      (record { inner = λ i. if i == n then r else t'.inner i }, add_metrics stats shard_stats)

  unfoldable pub registry_get_metrics : TraceRegistry → TraceRegistry × Metrics
  unfolding take_metrics
  registry_get_metrics t = take_metrics trace_registry_shards t
