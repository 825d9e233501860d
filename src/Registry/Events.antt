-- ===== src/Registry/Events.antt =====
-- The calls that change the registry, as events: any interleaving of threads is a sequence of these,
-- since each call holds the lock of the registry.
use dd_trace_rs.Prelude.{ℕ, List, [], ◌∷◌, ◌==◌, if◌then◌else◌}
use dd_trace_rs.Registry.Segment.{TracePropagationData}
use dd_trace_rs.Registry.{
  InnerTraceRegistry, register_local_root_trace_propagation_data, register_local_root_span,
  register_span, finish_span,
}

module _ (SpanData : Type 0) (span_id : SpanData → ℕ) where
  pub data Call : Type 0 where
    local_root_data : TracePropagationData → Call
    local_root : ℕ → Call
    span : ℕ → TracePropagationData → Call
    finish : SpanData → Call

  -- A call and the trace that it is about.
  pub record Event : Type 0 where
    pub trace_id : ℕ
    pub call : Call

  unfoldable pub apply_call :
      Call → ℕ → InnerTraceRegistry SpanData span_id → InnerTraceRegistry SpanData span_id
  apply_call (local_root_data d) t r =
      (register_local_root_trace_propagation_data SpanData span_id t d r).0
  apply_call (local_root root) t r = register_local_root_span SpanData span_id t root r
  apply_call (span id d) t r = register_span SpanData span_id t id d r
  apply_call (finish s) t r = (finish_span SpanData span_id t s r).0

  unfoldable pub run :
      List Event → InnerTraceRegistry SpanData span_id → InnerTraceRegistry SpanData span_id
  run [] r = r
  run (e ∷ es) r = run es (apply_call e.call e.trace_id r)

  -- The events of one trace.
  unfoldable pub only : ℕ → List Event → List Event
  only t [] = []
  only t (e ∷ es) = let rest = only t es in if e.trace_id == t then e ∷ rest else rest
