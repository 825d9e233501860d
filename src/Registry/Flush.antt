-- ===== src/Registry/Flush.antt =====
-- When chunks are handed out, and when a trace leaves the registry.
use dd_trace_rs.Prelude.{
  ℕ, suc, ◌+◌, ◌-◌, ◌≤◌, ◌≡◌, refl, ◌∙◌, inl, inr, true, false, List, [], ◌∷◌, ◌++◌, none, some,
  ◌==◌, arith, le→leb, Bool-cases, length, length-append,
}
use mathlib.Core.List.{Perm, perm_middle}
use mathlib.Core.List.Perm
use dd_trace_rs.Prelude.Dict.{lookup, nat_eq, lookup-insert_self, lookup-remove_self}
use dd_trace_rs.Registry.Segment.{Trace}
use dd_trace_rs.Registry.{InnerTraceRegistry, push_finished, close_one, finish_span, flush_due}
use dd_trace_rs.Registry.Spans.{finish_span_known, push_finished-Perm}

module _ (SpanData : Type 0) (span_id : SpanData → ℕ) where
  abbrev Registry : Type 0
  Registry = InnerTraceRegistry SpanData span_id

  -- Finish the spans in turn, and collect the chunks that are handed out.
  pub finish_each : ℕ → List SpanData → Registry → Registry × List (Trace SpanData)
  finish_each trace_id [] r = (r, [])
  finish_each trace_id (s ∷ ss) r =
      let (r', chunk) = finish_span SpanData span_id trace_id s r in
      let (r'', chunks) = finish_each trace_id ss r' in
      (r'', elim chunk [ none ↦ chunks | some c ↦ c ∷ chunks ])

  -- One chunk, of the trace's root and data, with the spans up to their order.
  abbrev pub OneChunk : Trace SpanData → List SpanData → List (Trace SpanData) → Type 0
  OneChunk t spans [] = ⊥
  OneChunk t spans (c ∷ []) =
      (c.local_root_span_id ≡ t.local_root_span_id)
      × (c.propagation_data ≡ t.propagation_data)
      × Perm c.finished_spans spans
  OneChunk t spans (c ∷ d ∷ cs) = ⊥

  keep_open :
      (trace_id : ℕ) (s : SpanData) (r : Registry) (t : Trace SpanData) (n : ℕ)
      → r.config.trace_partial_flush_enabled ≡ false
      → lookup trace_id r.registry ≡ some t
      → t.open_span_count ≡ suc (suc n)
      → ((finish_span SpanData span_id trace_id s r).1 ≡ none)
        × (lookup trace_id (finish_span SpanData span_id trace_id s r).0.registry
            ≡ some (close_one SpanData span_id s t))
        × ((finish_span SpanData span_id trace_id s r).0.config ≡ r.config)
  keep_open trace_id s r t n off known count =
      let more : (t.open_span_count - 1 == 0) ≡ false = ground arith in
      rw (finish_span_known SpanData span_id trace_id s r t known, off, more, lookup-insert_self)
        (refl, refl, refl)

  close_last :
      (trace_id : ℕ) (s : SpanData) (r : Registry) (t : Trace SpanData)
      → r.config.trace_partial_flush_enabled ≡ false
      → lookup trace_id r.registry ≡ some t
      → t.open_span_count ≤ 1
      → ((finish_span SpanData span_id trace_id s r).1 ≡ some (close_one SpanData span_id s t))
        × (lookup trace_id (finish_span SpanData span_id trace_id s r).0.registry ≡ none)
  close_last trace_id s r t off known count =
      let last : (t.open_span_count - 1 == 0) ≡ true = ground arith in
      rw (finish_span_known SpanData span_id trace_id s r t known, off, last, lookup-remove_self)
        (refl, refl)

  module _ (trace_id : ℕ) (s : SpanData) (ss : List SpanData) (r : Registry) where
    abbrev onward : Registry
    onward = (finish_span SpanData span_id trace_id s r).0

    finish_each_quiet :
        (finish_span SpanData span_id trace_id s r).1 ≡ none
        → finish_each trace_id (s ∷ ss) r ≡ finish_each trace_id ss onward
    unfolding finish_each
    finish_each_quiet quiet = rw (quiet, finish_each)

    finish_each_chunk :
        (c : Trace SpanData)
        → (finish_span SpanData span_id trace_id s r).1 ≡ some c
        → finish_each trace_id (s ∷ ss) r
          ≡ ((finish_each trace_id ss onward).0, c ∷ (finish_each trace_id ss onward).1)
    unfolding finish_each
    finish_each_chunk c out = rw (out, finish_each)

  finish_each-nil : (trace_id : ℕ) (r : Registry) → finish_each trace_id [] r ≡ (r, [])
  unfolding finish_each
  finish_each-nil trace_id r = refl

  OneChunk-Perm :
      (t t' : Trace SpanData) (xs ys : List SpanData) (cs : List (Trace SpanData))
      → t.local_root_span_id ≡ t'.local_root_span_id
      → t.propagation_data ≡ t'.propagation_data
      → Perm xs ys
      → OneChunk t xs cs
      → OneChunk t' ys cs
  OneChunk-Perm t t' xs ys [] er ed p h = h
  OneChunk-Perm t t' xs ys (c ∷ []) er ed p (root, sent, spans) =
      (root ∙ er, sent ∙ ed, Perm.trans spans p)
  OneChunk-Perm t t' xs ys (c ∷ d ∷ cs) er ed p h = h

  regroup :
      (root : ℕ) (s : SpanData) (us fs : List SpanData)
      → Perm (us ++ push_finished SpanData span_id root s fs) (s ∷ us ++ fs)
  regroup root s us fs =
      Perm.trans (Perm.append (Perm.refl us) (push_finished-Perm SpanData span_id root s fs))
        (perm_middle us fs)

  -- Without partial flushing, a trace whose open spans are all finished is handed out once, whole,
  -- when the last one is finished, and leaves the registry.
  pub finish_each-OneChunk :
      (trace_id : ℕ) (s : SpanData) (ss : List SpanData) (r : Registry) (t : Trace SpanData)
      → r.config.trace_partial_flush_enabled ≡ false
      → lookup trace_id r.registry ≡ some t
      → t.open_span_count ≡ length (s ∷ ss)
      → OneChunk t (s ∷ ss ++ t.finished_spans) (finish_each trace_id (s ∷ ss) r).1
        × (lookup trace_id (finish_each trace_id (s ∷ ss) r).0.registry ≡ none)
  finish_each-OneChunk trace_id s [] r t off known count =
      let (out, gone) = close_last trace_id s r t off known (omega (arith, count)) in
      rw
        (finish_each_chunk trace_id s [] r _ out, finish_each-nil trace_id (onward trace_id s [] r))
        (
          (refl, refl, push_finished-Perm SpanData span_id t.local_root_span_id s t.finished_spans),
          gone,
        )
  finish_each-OneChunk trace_id s (u ∷ ss) r t off known count =
      let (quiet, slot, config) = keep_open trace_id s r t (length ss) off known count in
      let t' = close_one SpanData span_id s t in
      let (chunk, gone) =
        finish_each-OneChunk trace_id u ss (onward trace_id s [] r) t' (rw config off) slot
          (omega (arith, count)) in
      rw (finish_each_quiet trace_id s (u ∷ ss) r quiet) (
        OneChunk-Perm t' t _ _ _ refl refl
            (regroup t.local_root_span_id s (u ∷ ss) t.finished_spans) chunk,
        gone,
      )

  length-push_finished :
      (root : ℕ) (s : SpanData) (fs : List SpanData)
      → length (push_finished SpanData span_id root s fs) ≡ suc (length fs)
  unfolding push_finished
  length-push_finished root s [] = refl
  length-push_finished root s (f ∷ fs) = elim (Bool-cases (span_id s == root)) [
    | inl is_root ↦ rw (is_root, length-append fs (f ∷ [])) (omega arith)
    | inr other ↦ rw (other, length-append fs (s ∷ [])) (omega arith)
  ]

  -- A partial flush that comes with the last open span leaves an empty trace with no open span in
  -- the registry: it is not removed, and not counted as closed.
  pub last_span_stays :
      (trace_id : ℕ) (s : SpanData) (r : Registry) (t : Trace SpanData)
      → r.config.trace_partial_flush_enabled ≡ true
      → lookup trace_id r.registry ≡ some t
      → t.open_span_count ≤ 1
      → r.config.trace_partial_flush_min_spans ≤ length t.finished_spans + 1
      → (left : Trace SpanData) × (lookup trace_id
            (finish_span SpanData span_id trace_id s r).0.registry
          ≡ some left)
        × (left.open_span_count ≡ 0)
        × (left.finished_spans ≡ [])
        × ((finish_span SpanData span_id trace_id s r).0.metrics.trace_segments_closed
            ≡ r.metrics.trace_segments_closed)
  last_span_stays trace_id s r t on known count enough =
      let due : flush_due SpanData span_id r.config (close_one SpanData span_id s t) ≡ true =
        rw (on, length-push_finished t.local_root_span_id s t.finished_spans)
          (le→leb _ _ (omega arith)) in
      (
        record t { finished_spans = []; open_span_count = t.open_span_count - 1 },
        rw (finish_span_known SpanData span_id trace_id s r t known, due)
            (lookup-insert_self trace_id _ r.registry),
        omega (arith, count),
        refl,
        rw (finish_span_known SpanData span_id trace_id s r t known, due),
      )
