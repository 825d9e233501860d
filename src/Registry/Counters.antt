-- ===== src/Registry/Counters.antt =====
-- Taking the counters.
use dd_trace_rs.Prelude.{
  ℕ, zero, suc, ◌≡◌, ◌<◌, ◌≤◌, false, refl, sym, ap, ◌∙◌, ◌==◌, ==_iff, arith, Bool-cases, inl, inr,
}
use dd_trace_rs.Registry.Segment.{no_metrics}
use dd_trace_rs.Registry.{InnerTraceRegistry, get_metrics}
use dd_trace_rs.Registry.Shards.{
  TraceRegistry, shard_of, get_shard, take_metrics, registry_get_metrics,
}

module _ (SpanData : Type 0) (span_id : SpanData → ℕ) (hash : ℕ → ℕ) where
  abbrev Sharded : Type 0
  Sharded = TraceRegistry SpanData span_id hash

  -- The counters of one shard are taken, and nothing else.
  abbrev pub Taken :
      InnerTraceRegistry SpanData span_id → InnerTraceRegistry SpanData span_id → Type 0
  Taken after before = after ≡ (record before { metrics = no_metrics })

  take_metrics_other :
      (n i : ℕ) (t : Sharded)
      → n ≤ i
      → (take_metrics SpanData span_id hash n t).0.inner i ≡ t.inner i
  unfolding take_metrics
  take_metrics_other zero i t h = refl
  take_metrics_other (suc n) i t h =
      let differs : (i == n) ≡ false = ground arith in
      rw differs (take_metrics_other n i t (omega arith))

  take_metrics_lem :
      (n i : ℕ) (t : Sharded)
      → i < n
      → Taken ((take_metrics SpanData span_id hash n t).0.inner i) (t.inner i)
  unfolding take_metrics get_metrics
  take_metrics_lem zero i t h = absurd (omega arith)
  take_metrics_lem (suc n) i t h = elim (Bool-cases (i == n)) [
    | inl last ↦ rw last (
        ap (λ (r : InnerTraceRegistry SpanData span_id). record r { metrics = no_metrics })
          (take_metrics_other n n t (omega arith) ∙ ap t.inner (sym ((==_iff i n).0 last))))
    | inr earlier ↦ rw earlier (take_metrics_lem n i t (ground arith))
  ]

  -- Taking the metrics of the sharded registry sets the counters of every shard to 0, and leaves the
  -- traces and the settings as they are.
  pub registry_get_metrics-Taken :
      (t : Sharded) (trace_id : ℕ)
      → Taken
          (get_shard SpanData span_id hash trace_id
            (registry_get_metrics SpanData span_id hash t).0)
          (get_shard SpanData span_id hash trace_id t)
  unfolding registry_get_metrics
  registry_get_metrics-Taken t trace_id =
      take_metrics_lem 64 (shard_of SpanData span_id hash trace_id) t (omega arith)
