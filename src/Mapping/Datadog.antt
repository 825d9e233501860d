-- ===== src/Mapping/Datadog.antt =====
-- The Datadog span and the writes to it: datadog-opentelemetry-mappings/src/transform/mod.rs. The
-- struct is that of the crate `datadog-trace-utils`: the fields are those that the code writes.
use dd_trace_rs.Prelude.{
  ℕ, Bool, true, false, not, ◌&&◌, ◌||◌, Option, none, some, List, [], ◌∷◌, ◌++◌, map, is_empty,
  is_some, if◌then◌else◌, unwrap_or,
}
use dd_trace_rs.Prelude.Int.{ℤ}
use dd_trace_rs.Prelude.Text.{Bytes, codes, beq}
use dd_trace_rs.Prelude.Dict.{Dict, lookup, insert, bytes_eq}
use dd_trace_rs.Numeral.{print_signed}
use dd_trace_rs.Sampler.Float.{Float}
use dd_trace_rs.Mapping.Keys.{Semconv}
use dd_trace_rs.Mapping.Value.{Value, Array, OpenTelemetry, otel_value_string_repr}
use dd_trace_rs.Mapping.Names.{get_dd_key_for_otlp_attribute}

module _ (float : Float) where
  open float use {F, nought, one, print}

  pub data DdScalarValue : Type 0 where
    string : Bytes → DdScalarValue
    integer : ℤ → DdScalarValue
    double : F → DdScalarValue
    boolean : Bool → DdScalarValue

  pub data DdAnyValue : Type 0 where
    single : DdScalarValue → DdAnyValue
    array : List DdScalarValue → DdAnyValue

  pub record DdSpanEvent : Type 0 where
    pub time_unix_nano : ℕ
    pub name : Bytes
    pub attributes : Dict Bytes DdAnyValue

  pub record DdSpanLink : Type 0 where
    pub trace_id : ℕ
    pub trace_id_high : ℕ
    pub span_id : ℕ
    pub attributes : Dict Bytes Bytes
    pub tracestate : Bytes
    pub flags : ℕ

  pub record DdSpan : Type 0 where
    pub service : Bytes
    pub name : Bytes
    pub resource : Bytes
    pub type : Bytes
    pub trace_id : ℕ
    pub span_id : ℕ
    pub parent_id : ℕ
    pub start : ℤ
    pub duration : ℤ
    pub error : ℤ
    pub meta : Dict Bytes Bytes
    pub metrics : Dict Bytes F
    pub span_links : List DdSpanLink
    pub span_events : List DdSpanEvent

  unfoldable pub set_meta : Bytes → Bytes → DdSpan → DdSpan
  set_meta k v s = record s { meta = insert k v s.meta }

  unfoldable pub set_metric : Bytes → F → DdSpan → DdSpan
  set_metric k v s = record s { metrics = insert k v s.metrics }

  -- `parse::<bool>`.
  unfoldable pub parse_bool : Bytes → Option Bool
  parse_bool s =
      if beq s (codes "true") then some true else if beq s (codes "false") then some false else none

  sampling_rate_event_extraction_key : Bytes
  sampling_rate_event_extraction_key = codes "_dd1.sr.eausr"

  unfoldable pub set_analytics : Option Bool → DdSpan → DdSpan
  unfolding sampling_rate_event_extraction_key
  set_analytics none s = s
  set_analytics (some parsed) s =
      set_metric sampling_rate_event_extraction_key (if parsed then one else nought) s

  -- Checks that the key is in the list of dd keys mapped from meta keys.
  unfoldable pub is_meta_key : Bytes → Bool
  is_meta_key key =
      beq key (codes "env")
      || beq key (codes "version")
      || beq key (codes "http.status_code")
      || beq key (codes "error.message")
      || beq key (codes "error.type")
      || beq key (codes "error.stack")

  unfoldable pub set_metric_otlp : DdSpan → Bytes → F → DdSpan
  unfolding set_metric
  set_metric_otlp s k v =
      if beq k (codes "sampling.priority")
      then set_metric (codes "_sampling_priority_v1") v s
      else set_metric k v s

  module _ (conv : Semconv) (otel : OpenTelemetry float) where
    unfoldable pub set_meta_otlp : Bytes → Bytes → DdSpan → DdSpan
    unfolding set_meta set_analytics parse_bool
    set_meta_otlp k v dd_span =
        if beq k (codes "operation.name")
        then record dd_span { name = v }
        else if beq k (codes "service.name")
        then record dd_span { service = v }
        else if beq k (codes "resource.name")
        then record dd_span { resource = v }
        else if beq k (codes "span.type")
        then record dd_span { type = v }
        else if beq k (codes "analytics.event")
        then set_analytics (parse_bool (otel.to_lowercase v)) dd_span
        else set_meta k v dd_span

    unfoldable pub set_meta_otlp_with_semconv_mappings : Bytes → Value float → DdSpan → DdSpan
    unfolding set_meta_otlp is_meta_key
    set_meta_otlp_with_semconv_mappings k value dd_span =
        let mapped_key = get_dd_key_for_otlp_attribute conv k in
        if is_empty mapped_key
        then dd_span
        else if is_meta_key mapped_key
            && not (is_empty (unwrap_or [] (lookup mapped_key dd_span.meta)))
        then dd_span
        else set_meta_otlp mapped_key (otel_value_string_repr float otel value) dd_span

    unfoldable pub set_metric_otlp_with_semconv_mappings : Bytes → F → DdSpan → DdSpan
    unfolding set_metric_otlp is_meta_key
    set_metric_otlp_with_semconv_mappings k value dd_span =
        let mapped_key = get_dd_key_for_otlp_attribute conv k in
        if is_empty mapped_key
        then dd_span
        else if is_meta_key mapped_key && is_some (lookup mapped_key dd_span.metrics)
        then dd_span
        else set_metric_otlp dd_span mapped_key value

    unfoldable pub otel_value_to_dd_scalar : Value float → DdAnyValue
    otel_value_to_dd_scalar (Value.i64 i) = single (integer i)
    otel_value_to_dd_scalar (Value.f64 f) = single (double f)
    otel_value_to_dd_scalar (Value.bool b) = single (boolean b)
    otel_value_to_dd_scalar (Value.array (Array.bool v)) = array (map boolean v)
    otel_value_to_dd_scalar (Value.array (Array.i64 v)) = array (map integer v)
    otel_value_to_dd_scalar (Value.array (Array.f64 v)) = array (map double v)
    otel_value_to_dd_scalar (Value.array (Array.string v)) = array (map string v)
    otel_value_to_dd_scalar value = single (string (otel_value_string_repr float otel value))

  write_scalar : DdScalarValue → Bytes
  write_scalar (string s) = s
  write_scalar (integer i) = print_signed i
  write_scalar (double d) = print d
  write_scalar (boolean b) = if b then codes "true" else codes "false"

  -- The elements with their separators.
  write_elements : List DdScalarValue → Bytes
  unfolding write_scalar
  write_elements [] = []
  write_elements (v ∷ []) = write_scalar v
  write_elements (v ∷ w ∷ vs) = write_scalar v ++ codes "," ++ write_elements (w ∷ vs)

  unfoldable pub dd_value_to_string : DdAnyValue → Bytes
  unfolding write_scalar write_elements
  dd_value_to_string (single v) = write_scalar v
  dd_value_to_string (array vs) = codes "[" ++ write_elements vs ++ codes "]"
