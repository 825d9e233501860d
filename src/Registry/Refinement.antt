-- ===== src/Registry/Refinement.antt =====
-- The sharded registry behaves as one registry, whatever the hash.
use dd_trace_rs.Prelude.{
  ℕ, ◌≡◌, ◌≢◌, refl, sym, ◌∙◌, subst, ap, false, [], ◌==◌, ==_iff, arith, Bool-cases, inl, inr,
}
use dd_trace_rs.Prelude.Dict.{lookup, nat_eq}
use dd_trace_rs.Registry.Segment.{TracePropagationData, Config, no_metrics}
use dd_trace_rs.Registry.{
  InnerTraceRegistry, register_local_root_trace_propagation_data, register_local_root_span,
  register_span, finish_span,
}
use dd_trace_rs.Registry.Events.{Call, local_root_data, local_root, span, finish, apply_call}
use dd_trace_rs.Registry.Isolation.{
  SameSlot, register_data_result, finish_span_result, apply_call_slot, apply_call_keeps,
  apply_call_config,
}
use dd_trace_rs.Registry.Shards.{
  TraceRegistry, new, shard_of, get_shard, set_shard, registry_register_data,
  registry_register_root, registry_register_span, registry_finish_span,
}

same_differs : (n : ℕ) → (n == n) ≡ false → ⊥
same_differs n e = ground arith

module _ (SpanData : Type 0) (span_id : SpanData → ℕ) (hash : ℕ → ℕ) where
  abbrev Sharded : Type 0
  Sharded = TraceRegistry SpanData span_id hash

  abbrev Single : Type 0
  Single = InnerTraceRegistry SpanData span_id

  -- Every trace is found in its shard as in the one registry, and the settings are the same.
  pub record Refines (t : Sharded) (r : Single) : Type 0 where
    pub config : (i : ℕ) → (t.inner i).config ≡ r.config
    pub slot :
        (id : ℕ) → lookup id (get_shard SpanData span_id hash id t).registry ≡ lookup id r.registry

  -- A call on the shard of its trace.
  abbrev on_shard : Call SpanData span_id → ℕ → Sharded → Sharded
  on_shard c id t =
      set_shard SpanData span_id hash id
        (apply_call SpanData span_id c id (get_shard SpanData span_id hash id t)) t

  SameSlot-shard :
      (id : ℕ) (t : Sharded) (r : Single)
      → Refines t r
      → SameSlot SpanData span_id id (get_shard SpanData span_id hash id t) r
  SameSlot-shard id t r h = record {
    same_config = h.config (shard_of SpanData span_id hash id);
    same_slot = h.slot id;
  }

  on_shard-Refines :
      (c : Call SpanData span_id) (id : ℕ) (t : Sharded) (r : Single)
      → Refines t r
      → Refines (on_shard c id t) (apply_call SpanData span_id c id r)
  on_shard-Refines c id t r h =
      let index = shard_of SpanData span_id hash in
      let call : Single → Single = apply_call SpanData span_id c id in
      let r' : Single = get_shard SpanData span_id hash id t in
      record {
        config = λ i. elim (Bool-cases (i == shard_of SpanData span_id hash id)) [
          | inl here ↦ rw here (
              apply_call_config SpanData span_id c id _
              ∙ h.config (shard_of SpanData span_id hash id)
              ∙ sym (apply_call_config SpanData span_id c id r))
          | inr there ↦ rw there (h.config i ∙ sym (apply_call_config SpanData span_id c id r))
        ];
        slot = λ other. elim (Bool-cases (index other == index id)) [
          | inl together ↦ rw together (elim (Bool-cases (id == other)) [
            | inl itself ↦
                subst (λ u. lookup u (call r').registry ≡ lookup u (call r).registry)
                  ((==_iff id other).0 itself)
                  (apply_call_slot SpanData span_id id r' r (SameSlot-shard id t r h) c)
            | inr apart ↦
                let ne : id ≢ other = ground arith in
                apply_call_keeps SpanData span_id c id r' other ne
                ∙ ap (λ i. lookup other (t.inner i).registry)
                    (sym ((==_iff (index other) (index id)).0 together))
                ∙ h.slot other
                ∙ sym (apply_call_keeps SpanData span_id c id r other ne)
          ])
          | inr elsewhere ↦
              let ne : id ≢ other = λ e.
                same_differs (index id)
                  (subst (λ u. (index u == index id) ≡ false) (sym e) elsewhere) in
              rw elsewhere (h.slot other ∙ sym (apply_call_keeps SpanData span_id c id r other ne))
        ];
      }

  -- The four calls on the sharded registry do what they do on one registry that holds all traces,
  -- results included.
  pub sharded-Refines :
      (t : Sharded) (r : Single) (id new_id : ℕ) (d : TracePropagationData) (s : SpanData)
      → Refines t r
      → Refines
          (registry_register_data SpanData span_id hash id d t).0
          (register_local_root_trace_propagation_data SpanData span_id id d r).0
        × ((registry_register_data SpanData span_id hash id d t).1
            ≡ (register_local_root_trace_propagation_data SpanData span_id id d r).1)
        × Refines
            (registry_register_root SpanData span_id hash id new_id t)
            (register_local_root_span SpanData span_id id new_id r)
        × Refines
            (registry_register_span SpanData span_id hash id new_id d t)
            (register_span SpanData span_id id new_id d r)
        × Refines
            (registry_finish_span SpanData span_id hash id s t).0
            (finish_span SpanData span_id id s r).0
        × ((registry_finish_span SpanData span_id hash id s t).1
            ≡ (finish_span SpanData span_id id s r).1)
  unfolding apply_call registry_register_data registry_register_root registry_register_span
      registry_finish_span
  sharded-Refines t r id new_id d s h =
      let same = SameSlot-shard id t r h in
      (
        on_shard-Refines (local_root_data d) id t r h,
        register_data_result SpanData span_id id (get_shard SpanData span_id hash id t) r same d,
        on_shard-Refines (local_root new_id) id t r h,
        on_shard-Refines (span new_id d) id t r h,
        on_shard-Refines (finish s) id t r h,
        finish_span_result SpanData span_id id (get_shard SpanData span_id hash id t) r same s,
      )

  -- A new sharded registry holds what a new registry holds: nothing.
  pub new-Refines :
      (config : Config)
      → Refines
          (new SpanData span_id hash config)
          (record { registry = []; metrics = no_metrics; config = config })
  unfolding new
  new-Refines config = record { config = λ i. refl; slot = λ id. refl }
