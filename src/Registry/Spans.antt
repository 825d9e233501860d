-- ===== src/Registry/Spans.antt =====
-- No span is lost, duplicated or moved to another trace.
use dd_trace_rs.Prelude.{
  ℕ, ◌≡◌, List, [], ◌∷◌, ◌++◌, append-nil, Option, none, some, inl, inr, ◌==◌, ◌-◌, Bool-cases,
  Option-cases,
}
use mathlib.Core.List.{Perm, perm_append_singleton}
use mathlib.Core.List.Perm
use dd_trace_rs.Prelude.Dict.{lookup, nat_eq, lookup-insert_self, lookup-remove_self}
use dd_trace_rs.Registry.Segment.{Trace}
use dd_trace_rs.Registry.{
  InnerTraceRegistry, count_finished, finish_occupied, finish_vacant, push_finished, close_one,
  finish_span, flush_due,
}

module _ (SpanData : Type 0) (span_id : SpanData → ℕ) where
  pub push_finished-Perm :
      (root : ℕ) (span : SpanData) (ss : List SpanData)
      → Perm (push_finished SpanData span_id root span ss) (span ∷ ss)
  unfolding push_finished
  push_finished-Perm root span [] = Perm.refl _
  push_finished-Perm root span (s ∷ ss) = elim (Bool-cases (span_id span == root)) [
    | inl is_root ↦ rw is_root (Perm.cons span (perm_append_singleton s ss))
    | inr other ↦
        rw other (Perm.trans (Perm.cons s (perm_append_singleton span ss)) (Perm.swap span s ss))
  ]

  -- The spans of a chunk that is handed out, or that a slot of the map holds.
  abbrev pub spans_of : Option (Trace SpanData) → List SpanData
  spans_of none = []
  spans_of (some trace) = trace.finished_spans

  abbrev Registry : Type 0
  Registry = InnerTraceRegistry SpanData span_id

  abbrev finish : ℕ → SpanData → Registry → Registry × Option (Trace SpanData)
  finish = finish_span SpanData span_id

  Perm-append-nil : (xs : List SpanData) → Perm (xs ++ []) xs
  Perm-append-nil xs = rw append-nil (Perm.refl xs)

  module _ (trace_id : ℕ) (span : SpanData) (r : Registry) where
    pub finish_span_unknown :
        lookup trace_id r.registry ≡ none
        → finish trace_id span r
          ≡ finish_vacant SpanData span_id (count_finished SpanData span_id r) span
    unfolding finish_span
    finish_span_unknown unknown = rw (unknown, finish_span)

    pub finish_span_known :
        (t : Trace SpanData)
        → lookup trace_id r.registry ≡ some t
        → finish trace_id span r
          ≡ finish_occupied SpanData span_id
              (count_finished SpanData span_id r)
              trace_id
              (close_one SpanData span_id span t)
    unfolding finish_span
    finish_span_known t known = rw (known, finish_span)

  -- Finishing a span loses nothing: what is handed out and what stays behind are, as a multiset, what
  -- the trace held before and the span.
  pub finish_span-Perm :
      (trace_id : ℕ) (span : SpanData) (r : Registry)
      → Perm
          (spans_of (finish trace_id span r).1
            ++ spans_of (lookup trace_id (finish trace_id span r).0.registry))
          (span ∷ spans_of (lookup trace_id r.registry))
  finish_span-Perm trace_id span r = elim (Option-cases (lookup trace_id r.registry)) [
    | inl unknown ↦
        rw (finish_span_unknown trace_id span r unknown, unknown) (Perm.refl (span ∷ []))
    | inr (t, known) ↦
        let pushed = push_finished-Perm t.local_root_span_id span t.finished_spans in
        rw (finish_span_known trace_id span r t known)
          (elim (Bool-cases
            (flush_due SpanData span_id r.config (close_one SpanData span_id span t))) [
              | inl due ↦
                  rw (due, lookup-insert_self, known) (Perm.trans (Perm-append-nil _) pushed)
              | inr early ↦ elim (Bool-cases (t.open_span_count - 1 == 0)) [
                | inl last ↦
                    rw (early, last, lookup-remove_self, known)
                      (Perm.trans (Perm-append-nil _) pushed)
                | inr more ↦ rw (early, more, lookup-insert_self, known) pushed
              ]
            ])
  ]
