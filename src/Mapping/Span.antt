-- ===== src/Mapping/Span.antt =====
-- `OtelSpan`: what the conversion reads of a span (datadog-opentelemetry-mappings/src/transform/otel_util.rs),
-- and its two implementations: `SpanExtractArgs` (transform/mod.rs) and `PreSampledSpan`
-- (dd-trace-sampling/src/otel_mappings.rs).
use dd_trace_rs.Prelude.{
  ℕ, Bool, Option, none, some, List, [], ◌∷◌, map, length, get_elem?, is_some, is_empty,
  if◌then◌else◌, ◌>>=◌, unwrap_or,
}
use dd_trace_rs.Prelude.Int.{ℤ}
use dd_trace_rs.Prelude.Text.{Bytes}
use dd_trace_rs.Sampler.Float.{Float}
use dd_trace_rs.Mapping.Keys.{Semconv, AttributeKey, AttributeIndices, get, from_attribute_slice}
use dd_trace_rs.Mapping.Value.{
  SpanKind, Value, OpenTelemetry, Resource, KeyValue, otel_value_string_repr, as_i64,
}

module _ (float : Float) where
  -- `get_attr_num` is given before the conversion to the type that is asked for.
  pub record OtelSpan : Type 0 where
    pub name : Bytes
    pub span_kind : SpanKind
    pub has_attr : AttributeKey → Bool
    pub get_attr_str_opt : AttributeKey → Option Bytes
    pub get_attr_i64 : AttributeKey → Option ℤ
    pub attr_len : ℕ
    pub get_res_attribute_opt : AttributeKey → Option (Value float)
    pub res_len : ℕ

  abbrev pub get_attr_str : OtelSpan → AttributeKey → Bytes
  get_attr_str span attr_key = unwrap_or [] (span.get_attr_str_opt attr_key)

  module _ (conv : Semconv) (otel : OpenTelemetry float) where
    -- The value of the attribute that the index gives.
    unfoldable pub attribute :
        AttributeIndices → List (KeyValue float) → AttributeKey → Option (Value float)
    attribute span_attrs attributes attr_key = do
      idx ← get span_attrs attr_key
      kv ← get_elem? attributes idx
      some kv.1

    names : List (KeyValue float) → List Bytes
    names attributes = map (λ kv. kv.0) attributes

    unfoldable pub extract_args :
        Bytes → SpanKind → List (KeyValue float) → Resource float → OtelSpan
    unfolding names
    extract_args name span_kind attributes resource =
        let span_attrs = from_attribute_slice conv (names attributes) in
        record {
          name = name;
          span_kind = span_kind;
          has_attr = λ k. is_some (get span_attrs k);
          get_attr_str_opt = λ k.
              attribute span_attrs attributes k >>= λ v. some (otel_value_string_repr float otel v);
          get_attr_i64 = λ k. attribute span_attrs attributes k >>= as_i64 float;
          attr_len = length attributes;
          get_res_attribute_opt = λ k. resource.get k.key;
          res_len = resource.len;
        }

    unfoldable pub pre_sampled :
        Bytes → SpanKind → List (KeyValue float) → Resource float → OtelSpan
    unfolding names
    pre_sampled name span_kind attributes resource =
        let span_attrs = from_attribute_slice conv (names attributes) in
        record {
          name = name;
          span_kind = span_kind;
          has_attr = λ k. is_some (get span_attrs k);
          get_attr_str_opt =
              λ k. attribute span_attrs attributes k >>= λ v. some (otel.to_string v);
          get_attr_i64 = λ k. attribute span_attrs attributes k >>= as_i64 float;
          attr_len = length attributes;
          get_res_attribute_opt = λ k. resource.get k.key;
          res_len = resource.len;
        }

  module _ (otel : OpenTelemetry float) (span : OtelSpan) where
    unfoldable pub get_span_attributes : List AttributeKey → Bytes
    get_span_attributes [] = []
    get_span_attributes (k ∷ ks) =
        let rest = get_span_attributes ks in
        elim (span.get_attr_str_opt k) [
          | some attr ↦ if is_empty attr then rest else attr
          | none ↦ rest
        ]

    unfoldable pub get_res_attributes : List AttributeKey → Bytes
    get_res_attributes [] = []
    get_res_attributes (k ∷ ks) =
        let rest = get_res_attributes ks in
        elim (span.get_res_attribute_opt k) [
          | none ↦ rest
          | some res_attr ↦
              if is_empty (otel.as_str res_attr) then rest else otel.to_string res_attr
        ]

    -- The resource's text, if it has one that is not empty.
    res_text : AttributeKey → Option Bytes
    res_text k = do
      res_attr ← span.get_res_attribute_opt k
      let text = otel.to_string res_attr in if is_empty text then none else some text

    unfoldable pub get_res_span_attributes : List AttributeKey → Bytes
    unfolding res_text
    get_res_span_attributes [] = []
    get_res_span_attributes (k ∷ ks) =
        let rest = get_res_span_attributes ks in
        elim (res_text k) [
          | some text ↦ text
          | none ↦ elim (span.get_attr_str_opt k) [ some attr ↦ attr | none ↦ rest ]
        ]
