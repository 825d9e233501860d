-- ===== src/Mapping/Names/Laws.antt =====
-- What the names of a span can be.
use dd_trace_rs.Prelude.{
  ◌≡◌, refl, Bool, true, false, ◌&&◌, ◌||◌, none, some, [], ◌∷◌, ◌++◌, is_empty, if◌then◌else◌,
  arith, Option-cases, Bool-cases, inl, inr, subst,
}
use dd_trace_rs.Prelude.Lists.{All}
use dd_trace_rs.Prelude.Text.{Bytes, codes, beq, strip_prefix}
use dd_trace_rs.Prelude.Dict.{Dict, lookup, bytes_eq}
use dd_trace_rs.Sampler.Float.{Float}
use dd_trace_rs.Mapping.Keys
use dd_trace_rs.Mapping.Keys.{Semconv}
use dd_trace_rs.Mapping.Value.{SpanKind, OpenTelemetry, Value}
use dd_trace_rs.Mapping.Span.{OtelSpan}
use dd_trace_rs.Mapping.Names.{
  http_name, database_name, messaging_name, rpc_name, faas_name, generic_name, kind_name,
  get_otel_operation_name_v2, resource_service, get_otel_service, http_mappings,
  is_datadog_convention_key, get_dd_key_for_otlp_attribute,
}

is_empty-append : (s t : Bytes) → is_empty (s ++ t) ≡ is_empty s && is_empty t
is_empty-append [] t = refl
is_empty-append (c ∷ s) t = refl

module _ {float : Float} (conv : Semconv) (otel : OpenTelemetry float) (span : OtelSpan float) where
  module _ (lower : (s : Bytes) → is_empty (otel.to_lowercase s) ≡ is_empty s) where
    http_name_present :
        (otherwise : Bytes)
        → is_empty otherwise ≡ false
        → is_empty (http_name conv otel span otherwise) ≡ false
    unfolding http_name
    http_name_present otherwise h = ground arith

    database_name_present :
        (otherwise : Bytes)
        → is_empty otherwise ≡ false
        → is_empty (database_name conv otel span otherwise) ≡ false
    unfolding database_name
    database_name_present otherwise h = grind (arith, is_empty-append)

    messaging_name_present :
        (otherwise : Bytes)
        → is_empty otherwise ≡ false
        → is_empty (messaging_name conv otel span otherwise) ≡ false
    unfolding messaging_name
    messaging_name_present otherwise h = grind (arith, is_empty-append, lower)

    rpc_name_present :
        (otherwise : Bytes)
        → is_empty otherwise ≡ false
        → is_empty (rpc_name conv otel span otherwise) ≡ false
    unfolding rpc_name
    rpc_name_present otherwise h = grind (arith, is_empty-append)

    faas_name_present :
        (otherwise : Bytes)
        → is_empty otherwise ≡ false
        → is_empty (faas_name conv otel span otherwise) ≡ false
    unfolding faas_name
    faas_name_present otherwise h = grind (arith, is_empty-append, lower)

    kind_name_present : (k : SpanKind) → is_empty (kind_name k) ≡ false
    kind_name_present k = ground arith

    generic_name_present : is_empty (generic_name conv otel span) ≡ false
    unfolding generic_name
    generic_name_present = grind (arith, is_empty-append, kind_name_present)

    -- Without an attribute that says otherwise, a span has an operation name.
    pub get_otel_operation_name_v2_present :
        span.get_attr_str_opt (Keys.operation_name conv) ≡ none
        → is_empty (get_otel_operation_name_v2 conv otel span) ≡ false
    unfolding get_otel_operation_name_v2
    get_otel_operation_name_v2_present h =
        rw (get_otel_operation_name_v2, h)
          (http_name_present _ (
            database_name_present _ (
              messaging_name_present _
                (rpc_name_present _ (faas_name_present _ generic_name_present)))))

  module _
      (shown : (v : Value float)
        → is_empty (otel.to_string v) ≡ true
        → is_empty (otel.as_str v) ≡ true) where
    resource_service_present : is_empty (resource_service conv otel span) ≡ false
    unfolding resource_service
    resource_service_present =
        elim (Option-cases (span.get_res_attribute_opt (Keys.service_name conv))) [
          | inl e ↦ rw (resource_service, e)
          | inr (v, e) ↦ rw (resource_service, e) (ground (arith, shown v))
        ]

    -- A span has a service, whatever its attributes and its resource.
    pub get_otel_service_present : is_empty (get_otel_service conv otel span) ≡ false
    unfolding get_otel_service
    get_otel_service_present =
        elim (Option-cases (span.get_attr_str_opt (Keys.service_name conv))) [
          | inl e ↦ rw (get_otel_service, e) resource_service_present
          | inr (service, e) ↦ rw (get_otel_service, e) (ground (arith, resource_service_present))
        ]

-- The keys that name a field of the Datadog span.
abbrev pub is_field : Bytes → Bool
is_field k =
    beq k (codes "operation.name")
    || beq k (codes "service.name")
    || beq k (codes "resource.name")
    || beq k (codes "span.type")

lookup-All :
    (P : Bytes → Type 0) (k v : Bytes) (m : Dict Bytes Bytes)
    → All (λ kv. P kv.1) m
    → lookup k m ≡ some v
    → P v
unfolding lookup
lookup-All P k v [] _ e = absurd (ground arith)
lookup-All P k v ((j, w) ∷ m) (h, hs) e = elim (Bool-cases (beq j k)) [
  | inl same ↦ let e' : w ≡ v = ground arith in subst P e' h
  | inr differ ↦ lookup-All P k v m hs (ground arith)
]

http_mappings_lem : (conv : Semconv) → All (λ kv. is_field kv.1 ≡ false) (http_mappings conv)
unfolding http_mappings beq
http_mappings_lem conv = ground arith

header_not_field : (suffix : Bytes) → is_field (codes "http.request.headers." ++ suffix) ≡ false
unfolding beq
header_not_field suffix = refl

convention_not_field :
    (k : Bytes) → is_field (if is_datadog_convention_key k then [] else k) ≡ false
unfolding is_datadog_convention_key beq
convention_not_field k = ground arith

-- No attribute is turned into a key that names a field of the span.
pub get_dd_key_for_otlp_attribute_sound :
    (conv : Semconv) (k : Bytes) → is_field (get_dd_key_for_otlp_attribute conv k) ≡ false
unfolding get_dd_key_for_otlp_attribute
get_dd_key_for_otlp_attribute_sound conv k = elim (Option-cases (lookup k (http_mappings conv))) [
  | inr (v, e) ↦
      rw (get_dd_key_for_otlp_attribute, e)
        (lookup-All (λ v. is_field v ≡ false) k v (http_mappings conv) (http_mappings_lem conv) e)
  | inl e ↦ elim (Option-cases (strip_prefix (codes "http.request.header.") k)) [
    | inr (suffix, e') ↦ rw (get_dd_key_for_otlp_attribute, e, e') (header_not_field suffix)
    | inl e' ↦ rw (get_dd_key_for_otlp_attribute, e, e') (convention_not_field k)
  ]
]
