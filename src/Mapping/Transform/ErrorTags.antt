-- ===== src/Mapping/Transform/ErrorTags.antt =====
-- The error of the converted span and the tags that tell it.
use dd_trace_rs.Prelude.{
  ◌≡◌, ◌⊎◌, refl, sym, ap, subst, ◌∙◌, map, Bool, true, false, not, ◌||◌, is_some, is_empty,
  if◌then◌else◌, arith, Bool-cases, Option-cases, inl, inr,
}
use dd_trace_rs.Prelude.Int.{ℤ, pos}
use dd_trace_rs.Prelude.Text.{Bytes, codes}
use dd_trace_rs.Prelude.Dict.{Dict, lookup, bytes_eq, lookup-insert_self}
use dd_trace_rs.Sampler.Float.{Float}
use dd_trace_rs.Mapping.Keys.{Semconv}
use dd_trace_rs.Mapping.Value.{OpenTelemetry, Resource}
use dd_trace_rs.Mapping.Datadog.{DdSpan}
use dd_trace_rs.Mapping.Errors.{
  Status, is_error, set_error, status_to_error, lacks_error_key, fill_message, error_message,
}
use dd_trace_rs.Mapping.Transform.{
  SdkSpan, extracted, otel_span_to_dd_span_minimal, otel_span_to_dd_span, set_tags, status_tags,
  set_status, to_dd_link, to_dd_event,
}
use dd_trace_rs.Mapping.Transform.Identity.{status_tags-fixed, set_tags-fixed}

-- The tag is there.
abbrev pub Present : Bytes → Dict Bytes Bytes → Type 0
Present key meta = is_some (lookup key meta) ≡ true

-- All three tags of an error are there.
pub HasErrorTags : Dict Bytes Bytes → Type 0
HasErrorTags meta =
    Present (codes "error.message") meta
    × Present (codes "error.type") meta
    × Present (codes "error.stack") meta

all_there :
    (a b c : Bool) → (not a || not b || not c) ≡ false → (a ≡ true) × (b ≡ true) × (c ≡ true)
all_there a b c h = (ground arith, ground arith, ground arith)

module _ (float : Float) (conv : Semconv) where
  -- The last step sets the error from the status, or finds the three tags and leaves it.
  set_error_lem :
      (status : Status) (s : DdSpan float) (error : ℤ)
      → s.error ≡ error
      → let s' = set_error float conv status s in
        (s'.error ≡ (if is_error status then pos 1 else pos 0))
        ⊎ (HasErrorTags s'.meta × (s'.error ≡ error))
  unfolding HasErrorTags set_error status_to_error lacks_error_key
  set_error_lem status s error same = elim (Bool-cases (lacks_error_key float conv s.meta)) [
    | inl e ↦ inl (rw (set_error, e) (ground arith))
    | inr e ↦ inr (rw (set_error, e) (all_there _ _ _ e, same))
  ]

  fill_message-Present :
      (description : Bytes) (meta : Dict Bytes Bytes)
      → is_empty description ≡ false
      → Present (codes "error.message") (fill_message float conv description meta)
  unfolding fill_message error_message
  fill_message-Present description meta h =
      elim (Option-cases (lookup (codes "error.message") meta)) [
        | inl e ↦
            rw (fill_message, e, error_message, h)
              (ap is_some (lookup-insert_self (codes "error.message") description meta))
        | inr (text, e) ↦ rw (fill_message, e) (ap is_some e)
      ]

  set_error-Present :
      (description : Bytes) (s : DdSpan float)
      → is_empty description ≡ false
      → Present (codes "error.message") (set_error float conv (Status.error description) s).meta
  unfolding set_error status_to_error lacks_error_key
  set_error-Present description s h = elim (Bool-cases (lacks_error_key float conv s.meta)) [
    | inl e ↦ rw (set_error, e) (fill_message-Present description _ h)
    | inr e ↦ rw (set_error, e) ((all_there _ _ _ e).0)
  ]

  module _ (otel : OpenTelemetry float) (otel_span : SdkSpan float)
      (resource : Resource float) where
    -- The conversion ends with setting the error, which is till then what it was made at first.
    last_step :
        let span = extracted float conv otel otel_span resource in
        let minimal = otel_span_to_dd_span_minimal float conv otel otel_span span false in
        (s : DdSpan float) × (otel_span_to_dd_span float conv otel otel_span resource
          ≡ set_error float conv otel_span.status s)
        × (s.error ≡ minimal.error)
    unfolding otel_span_to_dd_span set_status
    last_step =
        let span = extracted float conv otel otel_span resource in
        let minimal = otel_span_to_dd_span_minimal float conv otel otel_span span false in
        let tagged = set_tags float conv otel otel_span resource span minimal in
        let complete : DdSpan float = record tagged {
          span_links = map (to_dd_link float conv otel) otel_span.links;
          span_events = map (to_dd_event float conv otel) otel_span.events;
        } in
        (
          status_tags float conv otel otel_span complete,
          refl,
          ap (λ x. x.1) (status_tags-fixed float conv otel otel_span complete)
              ∙ ap (λ x. x.1) (set_tags-fixed float conv otel otel_span resource span minimal),
        )

    -- The error of a converted span says whether its status is an error. Only if the span has the three
    -- tags error.message, error.type and error.stack it may say otherwise: it is then what the attribute
    -- for the error made it at first.
    pub otel_span_to_dd_span_error :
        let s = otel_span_to_dd_span float conv otel otel_span resource in
        let span = extracted float conv otel otel_span resource in
        let minimal = otel_span_to_dd_span_minimal float conv otel otel_span span false in
        (s.error ≡ (if is_error otel_span.status then pos 1 else pos 0))
        ⊎ (HasErrorTags s.meta × (s.error ≡ minimal.error))
    otel_span_to_dd_span_error =
        let span = extracted float conv otel otel_span resource in
        let minimal = otel_span_to_dd_span_minimal float conv otel otel_span span false in
        let (s, e, same) = last_step in
        subst
          (λ (x : DdSpan float).
            (x.error ≡ (if is_error otel_span.status then pos 1 else pos 0))
            ⊎ (HasErrorTags x.meta × (x.error ≡ minimal.error)))
          (sym e) (set_error_lem otel_span.status s minimal.error same)

    -- A converted span whose status is an error with a description has an error message, whatever its
    -- attributes and events are.
    pub otel_span_to_dd_span_message :
        (description : Bytes)
        → otel_span.status ≡ Status.error description
        → is_empty description ≡ false
        → Present
            (codes "error.message")
            (otel_span_to_dd_span float conv otel otel_span resource).meta
    otel_span_to_dd_span_message description e h =
        let (s, final, same) = last_step in
        subst (λ (x : DdSpan float). Present (codes "error.message") x.meta)
          (ap (λ status. set_error float conv status s) (sym e) ∙ sym final)
          (set_error-Present description s h)
