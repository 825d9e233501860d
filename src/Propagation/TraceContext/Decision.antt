-- ===== src/Propagation/TraceContext/Decision.antt =====
-- What an extracted context has of its two headers.
use dd_trace_rs.Prelude.{
  ℕ, ◌^◌, ◌≡◌, ◌≢◌, ◌≤◌, ◌<◌, refl, sym, ap, ◌∙◌, subst, ◌⊎◌, Bool, true, false, not, ◌&&◌, ◌||◌,
  Option, none, some, arith, Bool-cases, Option-cases, inl, inr, none-ne-some, some_inj, [],
}
use dd_trace_rs.Prelude.Int.{ℤ, pos, negsuc, ltb_ℤ}
use dd_trace_rs.Prelude.Text.{Bytes, trim}
use dd_trace_rs.Prelude.Dict.{insert, bytes_eq}
use dd_trace_rs.Numeral.{parse_unsigned, u64_max, u128_max}
use dd_trace_rs.Numeral.RoundTrip.{parse_unsigned-le}
use dd_trace_rs.Decision.Priority
use dd_trace_rs.Decision.{SamplingPriority}
use dd_trace_rs.Propagation.Tracestate.{Tracestate, from_str}
use dd_trace_rs.Propagation.Context.{
  SpanContext, Error, Result, ok, err, map_option, traceparent_key, tracestate_key,
}
use dd_trace_rs.Propagation.Datadog.{Tags}
use dd_trace_rs.Propagation.TraceContext.Traceparent.{
  Traceparent, Components, read_components, parse_traceparent_components, extract_trace_id,
  extract_span_id, extract_trace_flags, extract_version, and_then, require, extract_traceparent,
}
use dd_trace_rs.Propagation.TraceContext.Extract.{
  same_ℤ, agrees, use_traceparent, define_sampling_priority, with_tracestate, without_tracestate,
  context_of, valid_context, extract,
}

keep_same :
    (z : ℤ) (k : Bool)
    → ((same_ℤ z (pos 1) && k) || (same_ℤ z (pos 0) && not k)) ≡ true
    → k ≡ ltb_ℤ (pos 0) z
keep_same (pos n) true h = ground arith
keep_same (pos n) false h = ground arith
keep_same (negsuc n) k h = absurd (cc)

-- Whatever the tracestate says, the trace is kept exactly when the traceparent says so.
pub is_keep-define_sampling_priority :
    (p : SamplingPriority) (ts : Option SamplingPriority) (tags : Tags)
    → Priority.is_keep (define_sampling_priority p ts tags).0 ≡ Priority.is_keep p
unfolding define_sampling_priority use_traceparent
is_keep-define_sampling_priority p none tags = refl
is_keep-define_sampling_priority p (some q) tags = elim (Bool-cases (agrees p q)) [
  | inl together ↦ rw together (keep_same p.value (Priority.is_keep q) together)
  | inr apart ↦ rw apart
]

trace_id_sound : (s : Bytes) (n : ℕ) → extract_trace_id s ≡ ok n → (n ≢ 0) × (n ≤ u128_max)
unfolding extract_trace_id
trace_id_sound s n h = elim (Option-cases (parse_unsigned 16 u128_max s)) [
  | inl failed ↦ absurd (ground arith)
  | inr (m, read) ↦ ground (arith, parse_unsigned-le 16 u128_max s m)
]

span_id_sound : (s : Bytes) (n : ℕ) → extract_span_id s ≡ ok n → (n ≢ 0) × (n ≤ u64_max)
unfolding extract_span_id
span_id_sound s n h = elim (Option-cases (parse_unsigned 16 u64_max s)) [
  | inl failed ↦ absurd (ground arith)
  | inr (m, read) ↦ ground (arith, parse_unsigned-le 16 u64_max s m)
]

and_then_inv :
    {A B : Type 0} (r : Result A) (k : A → Result B) (b : B)
    → and_then r k ≡ ok b
    → (a : A) × (r ≡ ok a) × (k a ≡ ok b)
and_then_inv (ok a) k b h = (a, refl, h)
and_then_inv (err e) k b h = absurd (cc)

require_inv : {A : Type 0} (o : Option Bytes) (r : Result A) (a : A) → require o r ≡ ok a → r ≡ ok a
require_inv none r a h = h
require_inv (some m) r a h = absurd (cc)

ok_inj : {A : Type 0} {a b : A} → Result.ok a ≡ ok b → a ≡ b
ok_inj e = cc

err-ne-ok : {A : Type 0} {e : Error} {a : A} → err e ≡ ok a → ⊥
err-ne-ok h = cc

-- The ids of a traceparent that is accepted.
abbrev pub ValidIds : ℕ → ℕ → Type 0
ValidIds trace_id span_id =
    (trace_id ≢ 0) × (trace_id < 2 ^ 128) × (span_id ≢ 0) × (span_id < 2 ^ 64)

components_sound :
    (c : Components) (tp : Traceparent)
    → read_components c ≡ ok tp
    → ValidIds tp.trace_id tp.span_id
unfolding read_components
components_sound c tp h =
    let (t, read_t, after_t) = and_then_inv (extract_trace_id c.trace_id) _ tp h in
    let (s, read_s, after_s) = and_then_inv (extract_span_id c.span_id) _ tp after_t in
    let (f, read_f, after_f) = and_then_inv (extract_trace_flags c.flags) _ tp after_s in
    let same = ok_inj (require_inv (extract_version c.version c.tail f) _ tp after_f) in
    let (t_positive, t_fits) = trace_id_sound c.trace_id t read_t in
    let (s_positive, s_fits) = span_id_sound c.span_id s read_s in
    subst (λ (x : Traceparent). ValidIds x.trace_id x.span_id) same
      (t_positive, omega (arith, t_fits), s_positive, omega (arith, s_fits))

traceparent_sound :
    (s : Bytes) (tp : Traceparent) → extract_traceparent s ≡ ok tp → ValidIds tp.trace_id tp.span_id
unfolding extract_traceparent
traceparent_sound s tp h = elim (Option-cases (parse_traceparent_components s)) [
  | inl nothing ↦ absurd (err-ne-ok (rw (nothing, extract_traceparent) at h))
  | inr (c, parsed) ↦ components_sound c tp (rw (parsed, extract_traceparent) at h)
]

context_of-ids :
    (s : Bytes) (tp : Traceparent) (header : Option Bytes)
    → ((context_of s tp header).trace_id ≡ tp.trace_id)
      × ((context_of s tp header).span_id ≡ tp.span_id)
unfolding context_of with_tracestate without_tracestate
context_of-ids s tp none = (refl, refl)
context_of-ids s tp (some header) = elim (Option-cases (from_str header)) [
  | inl invalid ↦ rw (invalid, context_of) (refl, refl)
  | inr (ts, valid) ↦ rw (valid, context_of) (refl, refl)
]

-- The priority is there, and keeps the trace exactly when `keep` says so.
abbrev pub Keeps : Option SamplingPriority → Bool → Type 0
Keeps priority keep = map_option Priority.is_keep priority ≡ some keep

with_tracestate-keep :
    (tp : Traceparent) (header : Bytes) (ts : Tracestate) (tags : Tags)
    → Keeps
        (with_tracestate tp header ts tags).sampling.priority
        (Priority.is_keep tp.sampling_priority)
unfolding with_tracestate
with_tracestate-keep tp header ts tags =
    ap some (is_keep-define_sampling_priority tp.sampling_priority _ _)

context_of-keep :
    (s : Bytes) (tp : Traceparent) (header : Option Bytes)
    → Keeps (context_of s tp header).sampling.priority (Priority.is_keep tp.sampling_priority)
unfolding context_of without_tracestate
context_of-keep s tp none = refl
context_of-keep s tp (some header) = elim (Option-cases (from_str header)) [
  | inl invalid ↦ rw (invalid, context_of)
  | inr (ts, valid) ↦
      rw (valid, context_of) (with_tracestate-keep tp header ts (insert traceparent_key s []))
]

Result-cases : {A : Type 0} (r : Result A) → ((e : Error) × (r ≡ err e)) ⊎ ((a : A) × (r ≡ ok a))
Result-cases (ok a) = inr (a, refl)
Result-cases (err e) = inl (e, refl)

valid_context_inv :
    (get : Bytes → Option Bytes) (s : Bytes) (c : SpanContext)
    → valid_context get s ≡ some c
    → (tp : Traceparent) × (extract_traceparent s ≡ ok tp)
      × (c ≡ context_of s tp (get tracestate_key))
unfolding valid_context
valid_context_inv get s c h = elim (Result-cases (extract_traceparent s)) [
  | inl (e, refused) ↦ absurd (none-ne-some (rw (refused, valid_context) at h))
  | inr (tp, accepted) ↦ (tp, accepted, sym (some_inj (rw (accepted, valid_context) at h)))
]

-- A context that is extracted has the ids of the traceparent header, which fit 128 and 64 bits and
-- are not 0, and a priority that keeps the trace exactly when the header's flags do, whatever the
-- tracestate header says.
pub extract_sound :
    (get : Bytes → Option Bytes) (c : SpanContext)
    → extract get ≡ some c
    → (header : Bytes) × (tp : Traceparent) × (get traceparent_key ≡ some header)
      × (extract_traceparent (trim header) ≡ ok tp)
      × (c.trace_id ≡ tp.trace_id)
      × (c.span_id ≡ tp.span_id)
      × ValidIds c.trace_id c.span_id
      × Keeps c.sampling.priority (Priority.is_keep tp.sampling_priority)
unfolding extract
extract_sound get c h = elim (Option-cases (get traceparent_key)) [
  | inl nothing ↦ absurd (none-ne-some (rw (nothing, extract) at h))
  | inr (header, found) ↦
      let (tp, accepted, same) = valid_context_inv get (trim header) c (rw (found, extract) at h) in
      let (same_trace, same_span) = context_of-ids (trim header) tp (get tracestate_key) in
      let keep = context_of-keep (trim header) tp (get tracestate_key) in
      let valid = traceparent_sound (trim header) tp accepted in
      (
        header,
        tp,
        found,
        accepted,
        ap (λ (x : SpanContext). x.trace_id) same ∙ same_trace,
        ap (λ (x : SpanContext). x.span_id) same ∙ same_span,
        rw (same, same_trace, same_span) valid,
        rw same keep,
      )
]
