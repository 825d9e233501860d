-- ===== src/Registry/Decided.antt =====
-- A sampling decision, once made, stays with its trace.
use dd_trace_rs.Prelude.{ℕ, ◌≡◌, true, none, some, is_some, arith}
use dd_trace_rs.Prelude.Dict.{
  lookup, insert, remove, nat_eq, lookup-insert_self, lookup-remove_self,
}
use dd_trace_rs.Registry.Segment.{Trace, TracePropagationData}
use dd_trace_rs.Registry.{
  InnerTraceRegistry, Traces, existing, register_local_root_trace_propagation_data,
  register_local_root_span, register_span, finish_span,
}
use dd_trace_rs.Registry.Events.{Call, local_root_data, local_root, span, finish, apply_call}

module _ (SpanData : Type 0) (span_id : SpanData → ℕ) where
  module _ (trace_id : ℕ) (r : InnerTraceRegistry SpanData span_id) (t : Trace SpanData)
      (known : lookup trace_id r.registry ≡ some t)
      (decided : is_some t.propagation_data.sampling_decision.priority ≡ true) where
    insert_self :
        (x : Trace SpanData) (m : Traces SpanData span_id)
        → lookup trace_id (insert trace_id x m) ≡ some x
    insert_self x m = lookup-insert_self trace_id x m

    remove_self : (m : Traces SpanData span_id) → lookup trace_id (remove trace_id m) ≡ none
    remove_self m = lookup-remove_self trace_id m

    -- A second registration of the trace's propagation data changes nothing and returns the decision
    -- that was made.
    pub register_decided :
        (d : TracePropagationData)
        → register_local_root_trace_propagation_data SpanData span_id trace_id d r
          ≡ (r, existing t.propagation_data.sampling_decision)
    unfolding register_local_root_trace_propagation_data
    register_decided d = rw (known, decided, register_local_root_trace_propagation_data)

    -- Whatever is called on a decided trace, the trace keeps its propagation data as long as it is
    -- registered.
    pub decided_stays :
        (c : Call SpanData span_id) (t' : Trace SpanData)
        → lookup trace_id (apply_call SpanData span_id c trace_id r).registry ≡ some t'
        → t'.propagation_data ≡ t.propagation_data
    unfolding apply_call register_local_root_trace_propagation_data register_local_root_span
        register_span finish_span
    decided_stays (local_root_data d) t' after = grind (arith, insert_self)
    decided_stays (local_root root) t' after = grind (arith, insert_self)
    decided_stays (span id d) t' after = grind (arith, insert_self)
    decided_stays (finish s) t' after = grind (arith, insert_self, remove_self)
