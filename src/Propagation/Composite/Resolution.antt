-- ===== src/Propagation/Composite/Resolution.antt =====
-- How several extracted contexts become one.
use dd_trace_rs.Prelude.{
  ℕ, ◌≡◌, refl, sym, ap, ◌∙◌, not, ◌&&◌, List, [], ◌∷◌, ◌++◌, append-nil, append_assoc, Option,
  some, ◌==◌, if◌then◌else◌, Bool-cases, Option-cases, inl, inr,
}
use dd_trace_rs.Prelude.Text.{Bytes}
use dd_trace_rs.Prelude.Dict.{lookup, bytes_eq}
use dd_trace_rs.Propagation.Context.{
  tracestate_key, TracePropagationStyle, SpanContext, SpanLink, terminated_context,
}
use dd_trace_rs.Propagation.Composite.{
  DatadogCompositePropagator, extract_style, extract_available_contexts, extract, Found, conflicts,
  merge, resolve_rest, resolve_contexts, copy_tracestate, take_span_id,
}

-- The links to the contexts of other traces, in order.
unfoldable pub links_to : ℕ → List Found → List SpanLink
links_to trace_id [] = []
links_to trace_id (found ∷ rest) =
    let others = links_to trace_id rest in
    if conflicts trace_id found.0 then terminated_context found.0 found.1 ∷ others else others

-- What the resolution does not change.
abbrev pub SameTrace : SpanContext → SpanContext → Type 0
SameTrace c primary =
    (c.trace_id ≡ primary.trace_id)
    × (c.sampling ≡ primary.sampling)
    × (c.origin ≡ primary.origin)
    × (c.is_remote ≡ primary.is_remote)

SameTrace-trans : (a b c : SpanContext) → SameTrace a b → SameTrace b c → SameTrace a c
SameTrace-trans a b c (e1, e2, e3, e4) (f1, f2, f3, f4) = (e1 ∙ f1, e2 ∙ f2, e3 ∙ f3, e4 ∙ f4)

copy_tracestate-SameTrace :
    (c primary : SpanContext) → SameTrace (copy_tracestate c primary) primary
unfolding copy_tracestate
copy_tracestate-SameTrace c primary = elim (Option-cases (lookup tracestate_key c.tags)) [
  | inl missing ↦ rw (missing, copy_tracestate) (refl, refl, refl, refl)
  | inr (t, found) ↦ rw (found, copy_tracestate) (refl, refl, refl, refl)
]

take_span_id-SameTrace :
    (contexts : List Found) (c primary : SpanContext)
    → SameTrace (take_span_id contexts c primary) primary
unfolding take_span_id
take_span_id-SameTrace contexts c primary =
    elim (Bool-cases (primary.trace_id == c.trace_id && not (primary.span_id == c.span_id))) [
      | inl taken ↦ rw taken (refl, refl, refl, refl)
      | inr kept ↦ rw kept (refl, refl, refl, refl)
    ]

merge-SameTrace :
    (contexts : List Found) (found : Found) (primary : SpanContext)
    → SameTrace (merge contexts found primary) primary
unfolding merge
merge-SameTrace contexts (c, TracePropagationStyle.datadog) primary = (refl, refl, refl, refl)
merge-SameTrace contexts (c, TracePropagationStyle.none) primary = (refl, refl, refl, refl)
merge-SameTrace contexts (c, TracePropagationStyle.trace_context) primary =
    SameTrace-trans (take_span_id contexts c (copy_tracestate c primary))
      (copy_tracestate c primary) primary
      (take_span_id-SameTrace contexts c (copy_tracestate c primary))
      (copy_tracestate-SameTrace c primary)

resolve_rest_lem :
    (contexts rest : List Found) (primary : SpanContext) (links : List SpanLink)
    → SameTrace (resolve_rest contexts rest primary links) primary
      × ((resolve_rest contexts rest primary links).links ≡ links ++ links_to primary.trace_id rest)
unfolding resolve_rest links_to
resolve_rest_lem contexts [] primary links = ((refl, refl, refl, refl), sym (rw append-nil refl))
resolve_rest_lem contexts (found ∷ rest) primary links =
    elim (Bool-cases (conflicts primary.trace_id found.0)) [
      | inl other ↦
          let (same, linked) =
            resolve_rest_lem contexts rest primary
              (links ++ terminated_context found.0 found.1 ∷ []) in
          rw other (same, linked ∙ append_assoc links (terminated_context found.0 found.1 ∷ []) _)
      | inr merged ↦
          let next = merge contexts found primary in
          let (same, linked) = resolve_rest_lem contexts rest next links in
          let kept = merge-SameTrace contexts found primary in
          rw merged (
            SameTrace-trans (resolve_rest contexts rest next links) next primary same kept,
            linked ∙ ap (λ t. links ++ links_to t rest) kept.0,
          )
    ]

-- The context that several extracted ones are resolved to is of the first one's trace, with its
-- sampling decision and origin, and has a link to each later valid context of another trace, in order.
pub resolve_contexts_first :
    (first : Found) (rest : List Found)
    → SameTrace (resolve_contexts first rest) first.0
      × ((resolve_contexts first rest).links ≡ links_to first.0.trace_id rest)
unfolding resolve_contexts
resolve_contexts_first first rest = resolve_rest_lem (first ∷ rest) rest first.0 []

-- If the first style of the propagator extracts a context, then the propagator extracts one of the
-- same trace, with the same sampling decision and origin, whatever the other headers hold.
pub extract_first_style :
    (get : Bytes → Option Bytes) (p : DatadogCompositePropagator) (style : TracePropagationStyle)
    (styles : List TracePropagationStyle) (c : SpanContext)
    → p.extractors ≡ style ∷ styles
    → extract_style get style p.config ≡ some c
    → (r : SpanContext) × (extract get p ≡ some r) × SameTrace r c
unfolding extract extract_available_contexts
extract_first_style get p style styles c order found =
    let others = extract_available_contexts get styles p.config in
    (
      resolve_contexts (c, style) others,
      rw (order, extract) (rw (found, extract_available_contexts, extract)),
      (resolve_contexts_first (c, style) others).0,
    )
