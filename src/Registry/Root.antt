-- ===== src/Registry/Root.antt =====
-- The local root is the first span of every chunk that holds it.
use dd_trace_rs.Prelude.{
  ℕ, ◌-◌, ◌≡◌, ◌≢◌, refl, ◌⊎◌, inl, inr, List, [], ◌∷◌, Option, none, some, ◌==◌, arith, Bool-cases,
  Option-cases, All, All-append,
}
use dd_trace_rs.Prelude.Dict.{lookup, nat_eq, lookup-insert_self, lookup-remove_self}
use dd_trace_rs.Registry.Segment.{Trace}
use dd_trace_rs.Registry.{InnerTraceRegistry, push_finished, close_one, finish_span, flush_due}
use dd_trace_rs.Registry.Spans.{finish_span_known, finish_span_unknown}

module _ (SpanData : Type 0) (span_id : SpanData → ℕ) where
  abbrev NotRoot : ℕ → SpanData → Type 0
  NotRoot root s = span_id s ≢ root

  -- The root is in front, or not there.
  abbrev RootFirst : ℕ → List SpanData → Type 0
  RootFirst root [] = Unit
  RootFirst root (s ∷ ss) = (span_id s ≡ root) ⊎ All (NotRoot root) (s ∷ ss)

  push_finished-RootFirst :
      (root : ℕ) (span : SpanData) (ss : List SpanData)
      → RootFirst root ss
      → RootFirst root (push_finished SpanData span_id root span ss)
  unfolding push_finished
  push_finished-RootFirst root span [] h = ground arith
  push_finished-RootFirst root span (s ∷ ss) h = elim (Bool-cases (span_id span == root)) [
    | inl is_root ↦ rw is_root (inl (ground arith))
    | inr other ↦ rw other (elim h [
      | inl front ↦ inl front
      | inr absent ↦
          inr (absent.0, All-append (NotRoot root) ss (span ∷ []) absent.1 (ground arith, tt))
    ])
  ]

  abbrev pub TraceRootFirst : Option (Trace SpanData) → Type 0
  TraceRootFirst none = Unit
  TraceRootFirst (some t) = RootFirst t.local_root_span_id t.finished_spans

  -- If the root is in front of what a trace holds back, then it is in front of the chunk that
  -- finishing a span hands out, and of what is held back then.
  pub finish_span-RootFirst :
      (trace_id : ℕ) (span : SpanData) (r : InnerTraceRegistry SpanData span_id)
      → TraceRootFirst (lookup trace_id r.registry)
      → TraceRootFirst (finish_span SpanData span_id trace_id span r).1
        × TraceRootFirst (lookup trace_id (finish_span SpanData span_id trace_id span r).0.registry)
  finish_span-RootFirst trace_id span r h = elim (Option-cases (lookup trace_id r.registry)) [
    | inl unknown ↦
        rw (finish_span_unknown SpanData span_id trace_id span r unknown, unknown) (inl refl, tt)
    | inr (t, known) ↦
        let before : RootFirst t.local_root_span_id t.finished_spans = rw known at h in
        let pushed = push_finished-RootFirst t.local_root_span_id span t.finished_spans before in
        rw (finish_span_known SpanData span_id trace_id span r t known)
          (elim (Bool-cases
            (flush_due SpanData span_id r.config (close_one SpanData span_id span t))) [
              | inl due ↦ rw (due, lookup-insert_self) (pushed, tt)
              | inr early ↦ elim (Bool-cases (t.open_span_count - 1 == 0)) [
                | inl last ↦ rw (early, last, lookup-remove_self) (pushed, tt)
                | inr more ↦ rw (early, more, lookup-insert_self) (tt, pushed)
              ]
            ])
  ]
