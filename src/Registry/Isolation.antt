-- ===== src/Registry/Isolation.antt =====
-- An operation on one trace leaves every other trace as it is.
use dd_trace_rs.Prelude.{
  ℕ, ◌≡◌, ◌≢◌, refl, sym, ◌∙◌, none, some, ◌==◌, inl, inr, arith, Bool-cases, subst, List, [], ◌∷◌,
}
use dd_trace_rs.Prelude.Dict.{
  lookup, insert, remove, nat_eq, lookup-insert_self, lookup-remove_self, lookup-insert,
  lookup-remove,
}
use dd_trace_rs.Registry.Segment.{Trace, TracePropagationData}
use dd_trace_rs.Registry.Events.{
  Call, local_root_data, local_root, span, finish, Event, apply_call, run, only,
}
use dd_trace_rs.Registry.{
  InnerTraceRegistry, Traces, register_local_root_trace_propagation_data, register_local_root_span,
  register_span, finish_span,
}

module _ (SpanData : Type 0) (span_id : SpanData → ℕ) where
  abbrev Registry : Type 0
  Registry = InnerTraceRegistry SpanData span_id

  -- The slots other than that of `trace_id` are the same.
  abbrev KeepsOthers : ℕ → Registry → Registry → Type 0
  KeepsOthers trace_id r r' =
      (other : ℕ) → trace_id ≢ other → lookup other r'.registry ≡ lookup other r.registry

  module _ (trace_id other : ℕ) (ne : trace_id ≢ other) where
    insert_other :
        (t : Trace SpanData) (m : Traces SpanData span_id)
        → lookup other (insert trace_id t m) ≡ lookup other m
    insert_other t m = ground (arith, lookup-insert trace_id other t m)

    remove_other : (m : Traces SpanData span_id) → lookup other (remove trace_id m) ≡ lookup other m
    remove_other m = ground (arith, lookup-remove trace_id other m)

  module _ (trace_id : ℕ) (r : Registry) where
    register_data_keeps :
        (d : TracePropagationData)
        → KeepsOthers trace_id r
            (register_local_root_trace_propagation_data SpanData span_id trace_id d r).0
    unfolding register_local_root_trace_propagation_data
    register_data_keeps d other ne = grind (arith, insert_other trace_id other ne)

    register_root_keeps :
        (root : ℕ)
        → KeepsOthers trace_id r (register_local_root_span SpanData span_id trace_id root r)
    unfolding register_local_root_span
    register_root_keeps root other ne = grind (arith, insert_other trace_id other ne)

    register_span_keeps :
        (id : ℕ) (d : TracePropagationData)
        → KeepsOthers trace_id r (register_span SpanData span_id trace_id id d r)
    unfolding register_span
    register_span_keeps id d other ne = grind (arith, insert_other trace_id other ne)

    finish_span_keeps :
        (s : SpanData) → KeepsOthers trace_id r (finish_span SpanData span_id trace_id s r).0
    unfolding finish_span
    finish_span_keeps s other ne =
        grind (arith, insert_other trace_id other ne, remove_other trace_id other ne)

  pub apply_call_keeps :
      (c : Call SpanData span_id) (trace_id : ℕ) (r : Registry)
      → KeepsOthers trace_id r (apply_call SpanData span_id c trace_id r)
  unfolding apply_call
  apply_call_keeps (local_root_data d) t r = register_data_keeps t r d
  apply_call_keeps (local_root root) t r = register_root_keeps t r root
  apply_call_keeps (span id d) t r = register_span_keeps t r id d
  apply_call_keeps (finish s) t r = finish_span_keeps t r s

  pub apply_call_config :
      (c : Call SpanData span_id) (trace_id : ℕ) (r : Registry)
      → (apply_call SpanData span_id c trace_id r).config ≡ r.config
  unfolding apply_call register_local_root_trace_propagation_data register_local_root_span
      register_span finish_span
  apply_call_config (local_root_data d) t r = ground arith
  apply_call_config (local_root root) t r = ground arith
  apply_call_config (span id d) t r = ground arith
  apply_call_config (finish s) t r = ground arith

  -- Two registries that agree on the settings and on one slot.
  pub record SameSlot (t : ℕ) (r r' : Registry) : Type 0 where
    pub same_config : r.config ≡ r'.config
    pub same_slot : lookup t r.registry ≡ lookup t r'.registry

  module _ (t : ℕ) (r r' : Registry) (h : SameSlot t r r') where
    insert_self :
        (x : Trace SpanData) (m : Traces SpanData span_id) → lookup t (insert t x m) ≡ some x
    insert_self x m = lookup-insert_self t x m

    remove_self : (m : Traces SpanData span_id) → lookup t (remove t m) ≡ none
    remove_self m = lookup-remove_self t m

    pub apply_call_slot :
        (c : Call SpanData span_id)
        → lookup t (apply_call SpanData span_id c t r).registry
          ≡ lookup t (apply_call SpanData span_id c t r').registry
    unfolding apply_call register_local_root_trace_propagation_data register_local_root_span
        register_span finish_span
    apply_call_slot (local_root_data d) = grind (arith, insert_self, h.same_slot)
    apply_call_slot (local_root root) = grind (arith, insert_self, h.same_slot)
    apply_call_slot (span id d) = grind (arith, insert_self, h.same_slot)
    apply_call_slot (finish s) = grind (arith, insert_self, remove_self, h.same_slot, h.same_config)

  -- What a call returns depends on that slot and the settings only.
  module _ (t : ℕ) (r r' : Registry) (h : SameSlot t r r') where
    pub register_data_result :
        (d : TracePropagationData)
        → (register_local_root_trace_propagation_data SpanData span_id t d r).1
          ≡ (register_local_root_trace_propagation_data SpanData span_id t d r').1
    unfolding register_local_root_trace_propagation_data
    register_data_result d = grind (arith, h.same_slot)

    pub finish_span_result :
        (s : SpanData)
        → (finish_span SpanData span_id t s r).1 ≡ (finish_span SpanData span_id t s r').1
    unfolding finish_span
    finish_span_result s = grind (arith, h.same_slot, h.same_config)

  SameSlot-run :
      (t : ℕ) (es : List (Event SpanData span_id)) (r r' : Registry)
      → SameSlot t r r'
      → SameSlot t
          (run SpanData span_id es r)
          (run SpanData span_id (only SpanData span_id t es) r')
  unfolding run only
  SameSlot-run t [] r r' h = h
  SameSlot-run t (e ∷ es) r r' h = elim (Bool-cases (e.trace_id == t)) [
    | inl mine ↦
        let same : e.trace_id ≡ t = ground arith in
        let next : SameSlot t (apply_call SpanData span_id e.call e.trace_id r)
            (apply_call SpanData span_id e.call e.trace_id r') =
          record {
            same_config =
                apply_call_config e.call e.trace_id r
                ∙ h.same_config
                ∙ sym (apply_call_config e.call e.trace_id r');
            same_slot =
                subst
                  (λ u.
                    lookup t (apply_call SpanData span_id e.call u r).registry
                    ≡ lookup t (apply_call SpanData span_id e.call u r').registry)
                  (sym same) (apply_call_slot t r r' h e.call);
          } in
        rw mine (SameSlot-run t es _ _ next)
    | inr theirs ↦
        let differs : e.trace_id ≢ t = ground arith in
        let next : SameSlot t (apply_call SpanData span_id e.call e.trace_id r) r' = record {
          same_config = apply_call_config e.call e.trace_id r ∙ h.same_config;
          same_slot = apply_call_keeps e.call e.trace_id r t differs ∙ h.same_slot;
        } in
        rw theirs (SameSlot-run t es _ r' next)
  ]

  -- What the registry holds for a trace after any interleaving of calls is what the calls about that
  -- trace alone would have left.
  pub run-only :
      (t : ℕ) (es : List (Event SpanData span_id)) (r : Registry)
      → lookup t (run SpanData span_id es r).registry
        ≡ lookup t (run SpanData span_id (only SpanData span_id t es) r).registry
  run-only t es r =
      (SameSlot-run t es r r (record { same_config = refl; same_slot = refl })).same_slot
