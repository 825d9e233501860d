-- ===== src/Examples/Registry.antt =====
-- The span registry on spans that are their ids, with a hash that is the identity.
use dd_trace_rs.Prelude.{ℕ, ◌≡◌, refl, true, false, [], List, ◌∷◌, ◌++◌, none, some, arith, inr}
use mathlib.Core.List.{Perm}
use dd_trace_rs.Prelude.Dict.{lookup, nat_eq}
use dd_trace_rs.Decision.Priority
use dd_trace_rs.Decision.Mechanism
use dd_trace_rs.Registry.Segment.{
  Trace, TracePropagationData, empty_propagation_data, Config, no_metrics,
}
use dd_trace_rs.Registry.{
  InnerTraceRegistry, register_local_root_trace_propagation_data, register_local_root_span,
  register_span, push_finished, finish_span,
}
use dd_trace_rs.Registry.Events.{local_root_data, span, finish, Event, apply_call, run, only}
use dd_trace_rs.Registry.Spans.{spans_of, finish_span-Perm}
use dd_trace_rs.Registry.Isolation.{run-only}
use dd_trace_rs.Registry.Root.{TraceRootFirst, finish_span-RootFirst}
use dd_trace_rs.Registry.Flush.{finish_each, OneChunk, finish_each-OneChunk, last_span_stays}
use dd_trace_rs.Registry.Decided.{decided_stays}
use dd_trace_rs.Registry.Shards.{
  new, registry_register_data, registry_register_root, registry_register_span, registry_finish_span,
}
use dd_trace_rs.Registry.Refinement.{Refines, new-Refines, sharded-Refines}

abbrev id : ℕ → ℕ
id s = s

abbrev decided_data : TracePropagationData
decided_data = record {
  sampling_decision = record {
    priority = some Priority.user_keep;
    mechanism = some Mechanism.manual;
  };
  origin = none;
  tags = none;
}

-- A trace with root 5, two open spans and one finished one.
abbrev open_trace : Trace ℕ
open_trace = record {
  local_root_span_id = 5;
  finished_spans = 7 ∷ [];
  open_span_count = 2;
  propagation_data = decided_data;
}

abbrev whole_chunks : Config
whole_chunks = record { trace_partial_flush_enabled = false; trace_partial_flush_min_spans = 300 }

abbrev partial_chunks : Config
partial_chunks = record { trace_partial_flush_enabled = true; trace_partial_flush_min_spans = 2 }

abbrev holding : Config → Trace ℕ → InnerTraceRegistry ℕ id
holding c t = record { registry = (1, t) ∷ []; metrics = no_metrics; config = c }

abbrev running : InnerTraceRegistry ℕ id
running = holding whole_chunks open_trace

found : (c : Config) (t : Trace ℕ) → lookup 1 (holding c t).registry ≡ some t
unfolding lookup
found c t = refl

root_goes_first :
    (finish_span ℕ id 1 5 (holding partial_chunks open_trace)).1
    ≡ some (record open_trace { finished_spans = 5 ∷ 7 ∷ []; open_span_count = 1 })
unfolding finish_span push_finished lookup
root_goes_first = refl

finish_span-Perm_example :
    Perm
      (spans_of ℕ id (finish_span ℕ id 1 5 running).1
        ++ spans_of ℕ id (lookup 1 (finish_span ℕ id 1 5 running).0.registry))
      (5 ∷ spans_of ℕ id (lookup 1 running.registry))
finish_span-Perm_example = finish_span-Perm ℕ id 1 5 running

finish_each-OneChunk_example :
    OneChunk ℕ id open_trace
      (5 ∷ 6 ∷ [] ++ open_trace.finished_spans)
      (finish_each ℕ id 1 (5 ∷ 6 ∷ []) running).1
    × (lookup 1 (finish_each ℕ id 1 (5 ∷ 6 ∷ []) running).0.registry ≡ none)
finish_each-OneChunk_example =
    finish_each-OneChunk ℕ id 1 5 (6 ∷ []) running open_trace refl (found whole_chunks open_trace)
      refl

abbrev interleaved : List (Event ℕ id)
interleaved =
    record { trace_id = 1; call = local_root_data decided_data }
    ∷ record { trace_id = 2; call = span 9 decided_data }
    ∷ record { trace_id = 1; call = span 6 decided_data }
    ∷ record { trace_id = 2; call = finish 9 }
    ∷ record { trace_id = 1; call = finish 6 }
    ∷ []

run-only_example :
    lookup 1 (run ℕ id interleaved running).registry
    ≡ lookup 1 (run ℕ id (only ℕ id 1 interleaved) running).registry
run-only_example = run-only ℕ id 1 interleaved running

front : TraceRootFirst ℕ id (lookup 1 running.registry)
front = rw (found whole_chunks open_trace) (inr (omega arith, tt))

finish_span-RootFirst_example :
    TraceRootFirst ℕ id (finish_span ℕ id 1 5 running).1
    × TraceRootFirst ℕ id (lookup 1 (finish_span ℕ id 1 5 running).0.registry)
finish_span-RootFirst_example = finish_span-RootFirst ℕ id 1 5 running front

after_data :
    lookup 1 (apply_call ℕ id (local_root_data empty_propagation_data) 1 running).registry
    ≡ some open_trace
unfolding apply_call register_local_root_trace_propagation_data lookup
after_data = refl

decided_stays_example : open_trace.propagation_data ≡ open_trace.propagation_data
decided_stays_example =
    decided_stays ℕ id 1 running open_trace (found whole_chunks open_trace) refl
      (local_root_data empty_propagation_data) open_trace after_data

abbrev last_open : Trace ℕ
last_open = record open_trace { open_span_count = 1 }

last_span_stays_example :
    (left : Trace ℕ) × (lookup 1
        (finish_span ℕ id 1 5 (holding partial_chunks last_open)).0.registry
      ≡ some left)
    × (left.open_span_count ≡ 0)
    × (left.finished_spans ≡ [])
    × ((finish_span ℕ id 1 5 (holding partial_chunks last_open)).0.metrics.trace_segments_closed
        ≡ 0)
last_span_stays_example =
    last_span_stays ℕ id 1 5 (holding partial_chunks last_open) last_open refl
      (found partial_chunks last_open) (omega arith) (omega arith)

abbrev nothing_yet : InnerTraceRegistry ℕ id
nothing_yet = record { registry = []; metrics = no_metrics; config = whole_chunks }

sharded-Refines_example :
    Refines ℕ id id
      (registry_register_data ℕ id id 1 decided_data (new ℕ id id whole_chunks)).0
      (register_local_root_trace_propagation_data ℕ id 1 decided_data nothing_yet).0
    × ((registry_register_data ℕ id id 1 decided_data (new ℕ id id whole_chunks)).1
        ≡ (register_local_root_trace_propagation_data ℕ id 1 decided_data nothing_yet).1)
    × Refines ℕ id id
        (registry_register_root ℕ id id 1 5 (new ℕ id id whole_chunks))
        (register_local_root_span ℕ id 1 5 nothing_yet)
    × Refines ℕ id id
        (registry_register_span ℕ id id 1 5 decided_data (new ℕ id id whole_chunks))
        (register_span ℕ id 1 5 decided_data nothing_yet)
    × Refines ℕ id id
        (registry_finish_span ℕ id id 1 9 (new ℕ id id whole_chunks)).0
        (finish_span ℕ id 1 9 nothing_yet).0
    × ((registry_finish_span ℕ id id 1 9 (new ℕ id id whole_chunks)).1
        ≡ (finish_span ℕ id 1 9 nothing_yet).1)
sharded-Refines_example =
    sharded-Refines ℕ id id (new ℕ id id whole_chunks) nothing_yet 1 5 decided_data 9
      (new-Refines ℕ id id whole_chunks)
