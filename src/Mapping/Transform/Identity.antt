-- ===== src/Mapping/Transform/Identity.antt =====
-- What the later steps of the conversion leave as the first one made it.
use dd_trace_rs.Prelude.{
  ℕ, ◌≡◌, refl, ap, ◌∙◌, unwrap_or, Bool, true, false, Option, none, some, List, [], ◌∷◌, is_empty,
  if◌then◌else◌, arith, Bool-cases, inl, inr,
}
use dd_trace_rs.Prelude.Int.{ℤ}
use dd_trace_rs.Prelude.Text.{Bytes, codes, beq, starts_with}
use dd_trace_rs.Prelude.Dict.{bytes_eq}
use dd_trace_rs.Sampler.Float.{Float}
use dd_trace_rs.Mapping.Keys
use dd_trace_rs.Mapping.Keys.{Semconv, AttributeKey}
use dd_trace_rs.Numeral.{print, pad}
use dd_trace_rs.Mapping.Value.{Value, OpenTelemetry, Resource, KeyValue, otel_value_string_repr}
use dd_trace_rs.Mapping.Span.{OtelSpan, get_attr_str}
use dd_trace_rs.Mapping.Names.{get_dd_key_for_otlp_attribute, get_otel_env}
use dd_trace_rs.Mapping.Names.Laws.{is_field, get_dd_key_for_otlp_attribute_sound}
use dd_trace_rs.Mapping.Datadog.{
  DdSpan, set_meta, set_metric, set_analytics, parse_bool, set_meta_otlp, set_metric_otlp,
  set_meta_otlp_with_semconv_mappings, set_metric_otlp_with_semconv_mappings,
}
use dd_trace_rs.Mapping.Errors.{Status, set_error, status_to_error, tag_span_if_contains_exception}
use dd_trace_rs.Mapping.Transform.{
  SdkSpan, set_semantics, set_resource, set_scope, set_attribute, set_attributes, fill,
  set_unless_empty, set_tags, set_status, status_tags, otel_span_to_dd_span,
  otel_span_to_dd_span_minimal, extracted, status_text, description_of,
  dd_semantics_key_to_meta_key,
}

module _ (float : Float) where
  -- The fields of a span but for its error, tags, links and events.
  pub record Identity : Type 0 where
    pub service : Bytes
    pub name : Bytes
    pub resource : Bytes
    pub type : Bytes
    pub trace_id : ℕ
    pub span_id : ℕ
    pub parent_id : ℕ
    pub start : ℤ
    pub duration : ℤ

  abbrev pub identity : DdSpan float → Identity
  identity s = record {
    service = s.service;
    name = s.name;
    resource = s.resource;
    type = s.type;
    trace_id = s.trace_id;
    span_id = s.span_id;
    parent_id = s.parent_id;
    start = s.start;
    duration = s.duration;
  }

  -- The same with the error, which only the last step sets.
  abbrev pub fixed : DdSpan float → Identity × ℤ
  fixed s = (identity s, s.error)

  set_meta-fixed : (k v : Bytes) (s : DdSpan float) → fixed (set_meta float k v s) ≡ fixed s
  unfolding set_meta
  set_meta-fixed k v s = refl

  set_metric_otlp-fixed :
      (k : Bytes) (v : float.F) (s : DdSpan float) → fixed (set_metric_otlp float s k v) ≡ fixed s
  unfolding set_metric_otlp set_metric
  set_metric_otlp-fixed k v s = elim (Bool-cases (beq k (codes "sampling.priority"))) [
    | inl e ↦ rw (set_metric_otlp, e)
    | inr e ↦ rw (set_metric_otlp, e)
  ]

  set_unless-fixed :
      (b : Bool) (k v : Bytes) (s : DdSpan float)
      → fixed (if b then s else set_meta float k v s) ≡ fixed s
  unfolding set_meta
  set_unless-fixed true k v s = refl
  set_unless-fixed false k v s = refl

  set_analytics-fixed :
      (parsed : Option Bool) (s : DdSpan float) → fixed (set_analytics float parsed s) ≡ fixed s
  unfolding set_analytics set_metric
  set_analytics-fixed none s = refl
  set_analytics-fixed (some b) s = refl

  module _ (conv : Semconv) (otel : OpenTelemetry float) where
    set_meta_otlp-fixed :
        (k v : Bytes) (s : DdSpan float)
        → is_field k ≡ false
        → fixed (set_meta_otlp float conv otel k v s) ≡ fixed s
    unfolding set_meta_otlp set_meta
    set_meta_otlp-fixed k v s h =
        ground (arith, set_analytics-fixed (parse_bool float (otel.to_lowercase v)) s)

    pub set_meta_otlp_with_semconv_mappings-fixed :
        (k : Bytes) (v : Value float) (s : DdSpan float)
        → fixed (set_meta_otlp_with_semconv_mappings float conv otel k v s) ≡ fixed s
    unfolding set_meta_otlp_with_semconv_mappings
    set_meta_otlp_with_semconv_mappings-fixed k v s =
        let mapped_key = get_dd_key_for_otlp_attribute conv k in
        let text = otel_value_string_repr float otel v in
        ground (
          arith,
          set_meta_otlp-fixed mapped_key text s (get_dd_key_for_otlp_attribute_sound conv k),
        )

    set_metric_otlp_with_semconv_mappings-fixed :
        (k : Bytes) (v : float.F) (s : DdSpan float)
        → fixed (set_metric_otlp_with_semconv_mappings float conv otel k v s) ≡ fixed s
    unfolding set_metric_otlp_with_semconv_mappings
    set_metric_otlp_with_semconv_mappings-fixed k v s =
        let mapped_key = get_dd_key_for_otlp_attribute conv k in
        ground (arith, set_metric_otlp-fixed mapped_key v s)

    set_semantics-fixed :
        (keys : List (AttributeKey × Bytes)) (span : OtelSpan float) (s : DdSpan float)
        → fixed (set_semantics float conv otel keys span s) ≡ fixed s
    unfolding set_semantics
    set_semantics-fixed [] span s = refl
    set_semantics-fixed ((key, meta_key) ∷ keys) span s =
        let value = get_attr_str float span key in
        set_semantics-fixed keys span
          (if is_empty value then s else set_meta float meta_key value s)
        ∙ set_unless-fixed (is_empty value) meta_key value s

    set_resource-fixed :
        (attributes : List (Bytes × Value float)) (s : DdSpan float)
        → fixed (set_resource float conv otel attributes s) ≡ fixed s
    unfolding set_resource
    set_resource-fixed [] s = refl
    set_resource-fixed ((key, value) ∷ rest) s =
        set_resource-fixed rest (set_meta_otlp_with_semconv_mappings float conv otel key value s)
        ∙ set_meta_otlp_with_semconv_mappings-fixed key value s

    set_scope-fixed :
        (attributes : List (KeyValue float)) (s : DdSpan float)
        → fixed (set_scope float conv otel attributes s) ≡ fixed s
    unfolding set_scope
    set_scope-fixed [] s = refl
    set_scope-fixed ((key, value) ∷ rest) s =
        set_scope-fixed rest (set_meta float key (otel.to_string value) s)
        ∙ set_meta-fixed key (otel.to_string value) s

    set_attribute-fixed :
        (key : Bytes) (value : Value float) (s : DdSpan float)
        → fixed (set_attribute float conv otel key value s) ≡ fixed s
    unfolding set_attribute
    set_attribute-fixed key (Value.i64 v) s =
        set_metric_otlp_with_semconv_mappings-fixed key (float.of_ℤ v) s
    set_attribute-fixed key (Value.f64 v) s = set_metric_otlp_with_semconv_mappings-fixed key v s
    set_attribute-fixed key (Value.bool b) s = set_meta_otlp_with_semconv_mappings-fixed key _ s
    set_attribute-fixed key (Value.string t) s = set_meta_otlp_with_semconv_mappings-fixed key _ s
    set_attribute-fixed key (Value.array a) s = set_meta_otlp_with_semconv_mappings-fixed key _ s
    set_attribute-fixed key Value.other s = set_meta_otlp_with_semconv_mappings-fixed key _ s

    set_attributes-fixed :
        (attributes : List (KeyValue float)) (s : DdSpan float)
        → fixed (set_attributes float conv otel attributes s) ≡ fixed s
    unfolding set_attributes
    set_attributes-fixed [] s = refl
    set_attributes-fixed ((key, value) ∷ rest) s =
        set_attributes-fixed rest (
          if starts_with (codes "datadog.") key
          then s
          else set_attribute float conv otel key value s)
        ∙ unless s _ (starts_with (codes "datadog.") key) (set_attribute-fixed key value s)
      where
        unless :
            (s s' : DdSpan float) (b : Bool)
            → fixed s' ≡ fixed s
            → fixed (if b then s else s') ≡ fixed s
        unless s s' true e = refl
        unless s s' false e = e

    fill-fixed :
        (key text : Bytes) (s : DdSpan float) → fixed (fill float conv otel key text s) ≡ fixed s
    unfolding fill
    fill-fixed key text s = set_unless-fixed _ key text s

    set_unless_empty-fixed :
        (key text : Bytes) (s : DdSpan float)
        → fixed (set_unless_empty float conv otel key text s) ≡ fixed s
    unfolding set_unless_empty
    set_unless_empty-fixed key text s = set_unless-fixed _ key text s

    set_error-identity :
        (status : Status) (s : DdSpan float) → identity (set_error float conv status s) ≡ identity s
    unfolding set_error status_to_error
    set_error-identity Status.unset s = ground arith
    set_error-identity Status.ok s = ground arith
    set_error-identity (Status.error d) s = ground arith

    tag-fixed : (s : DdSpan float) → fixed (tag_span_if_contains_exception float conv s) ≡ fixed s
    unfolding tag_span_if_contains_exception set_meta
    tag-fixed s = ground arith

    pub set_tags-fixed :
        (otel_span : SdkSpan float) (resource : Resource float) (span : OtelSpan float)
        (s : DdSpan float)
        → fixed (set_tags float conv otel otel_span resource span s) ≡ fixed s
    unfolding set_tags
    set_tags-fixed otel_span resource span s =
        let keys = dd_semantics_key_to_meta_key float conv otel in
        let s₁ = set_semantics float conv otel keys span s in
        let s₂ = set_resource float conv otel resource.iter s₁ in
        let scope = otel_span.instrumentation_scope.attributes in
        let s₃ = set_scope float conv otel scope s₂ in
        let id = pad 32 (print 16 otel_span.span_context.trace_id) in
        let s₄ = set_meta float (codes "otel.trace_id") id s₃ in
        let version : Bytes = elim (resource.get (Keys.service_version conv).key) [
          | some v ↦ otel.to_string v
          | none ↦ []
        ] in
        let s₅ = fill float conv otel (codes "version") version s₄ in
        let s₆ = set_attributes float conv otel otel_span.attributes s₅ in
        fill-fixed (codes "env") (get_otel_env conv otel span) s₆
        ∙ set_attributes-fixed otel_span.attributes s₅
        ∙ fill-fixed (codes "version") version s₄
        ∙ set_meta-fixed (codes "otel.trace_id") id s₃
        ∙ set_scope-fixed scope s₂
        ∙ set_resource-fixed resource.iter s₁
        ∙ set_semantics-fixed keys span s

    pub status_tags-fixed :
        (otel_span : SdkSpan float) (s : DdSpan float)
        → fixed (status_tags float conv otel otel_span s) ≡ fixed s
    unfolding status_tags
    status_tags-fixed otel_span s =
        let s₁ = tag_span_if_contains_exception float conv s in
        let state = otel_span.span_context.trace_state in
        let s₂ = set_unless_empty float conv otel (codes "w3c.tracestate") state s₁ in
        let scope = otel_span.instrumentation_scope in
        let s₃ = set_unless_empty float conv otel conv.otel_scope_name scope.name s₂ in
        let version = unwrap_or [] scope.version in
        let s₄ = set_unless_empty float conv otel conv.otel_scope_version version s₃ in
        let text = status_text float conv otel otel_span.status in
        let s₅ = set_meta float conv.otel_status_code text s₄ in
        set_unless_empty-fixed conv.otel_status_description
          (description_of float conv otel otel_span.status) s₅
        ∙ set_meta-fixed conv.otel_status_code text s₄
        ∙ set_unless_empty-fixed conv.otel_scope_version version s₃
        ∙ set_unless_empty-fixed conv.otel_scope_name scope.name s₂
        ∙ set_unless_empty-fixed (codes "w3c.tracestate") state s₁
        ∙ tag-fixed s

    set_status-identity :
        (otel_span : SdkSpan float) (s : DdSpan float)
        → identity (set_status float conv otel otel_span s) ≡ identity s
    unfolding set_status
    set_status-identity otel_span s =
        set_error-identity otel_span.status (status_tags float conv otel otel_span s)
        ∙ ap (λ x. x.0) (status_tags-fixed otel_span s)

    -- The tags, the links, the events and the status change no field of the span that the first step
    -- has set but its error: an attribute cannot rename the span or its service.
    pub otel_span_to_dd_span-identity :
        (otel_span : SdkSpan float) (resource : Resource float)
        → identity (otel_span_to_dd_span float conv otel otel_span resource)
          ≡ identity (
              otel_span_to_dd_span_minimal float conv otel otel_span
                (extracted float conv otel otel_span resource)
                false)
    unfolding otel_span_to_dd_span
    otel_span_to_dd_span-identity otel_span resource =
        let span = extracted float conv otel otel_span resource in
        let minimal = otel_span_to_dd_span_minimal float conv otel otel_span span false in
        set_status-identity otel_span _
        ∙ ap (λ x. x.0) (set_tags-fixed otel_span resource span minimal)
