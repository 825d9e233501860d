-- ===== src/Mapping/Transform.antt =====
-- `otel_span_to_dd_span`: datadog-opentelemetry-mappings/src/transform/mod.rs, with `SdkSpan` of
-- sdk_span.rs. A `SystemTime` is its number of nanoseconds since the epoch.
pub mod Identity
pub mod Fields
pub mod ErrorTags
use dd_trace_rs.Prelude.{
  ℕ, zero, suc, ◌+◌, ◌-◌, ◌/◌, ◌%◌, ◌^◌, Bool, true, false, not, ◌&&◌, ◌||◌, Option, none, some,
  List, [], ◌∷◌, ◌++◌, map, is_empty, is_some, if◌then◌else◌, ltb, leb, ◌==◌, ◌>>=◌, unwrap_or,
}
use dd_trace_rs.Prelude.Int.{ℤ, pos, negsuc, sub_ℤ, pos_part}
use dd_trace_rs.Prelude.Text.{Bytes, codes, beq, starts_with}
use dd_trace_rs.Prelude.Dict.{Dict, lookup, insert, bytes_eq}
use dd_trace_rs.Numeral.{print, pad}
use dd_trace_rs.Sampler.Float.{Float}
use dd_trace_rs.Mapping.Keys
use dd_trace_rs.Mapping.Keys.{Semconv, AttributeKey}
use dd_trace_rs.Mapping.Value.{
  Value, SpanKind, is_client, is_producer, OpenTelemetry, Resource, KeyValue,
  otel_value_string_repr, to_u32, to_i32,
}
use dd_trace_rs.Mapping.Span.{OtelSpan, extract_args, get_attr_str}
use dd_trace_rs.Mapping.Names.{
  kind_name, get_otel_service, get_otel_operation_name_v2, get_otel_resource_v2, get_otel_span_type,
  get_otel_status_code, get_otel_env,
}
use dd_trace_rs.Mapping.Datadog.{
  DdSpan, DdSpanEvent, DdSpanLink, set_meta, set_metric, set_meta_otlp_with_semconv_mappings,
  set_metric_otlp_with_semconv_mappings, otel_value_to_dd_scalar,
}
use dd_trace_rs.Mapping.Errors.{Status, is_error, set_error, tag_span_if_contains_exception}

pub record SpanContext : Type 0 where
  pub trace_id : ℕ
  pub span_id : ℕ
  pub trace_flags : ℕ
  -- `trace_state().header()`
  pub trace_state : Bytes

-- (low, high)
unfoldable pub otel_trace_id_to_dd_id : ℕ → ℕ × ℕ
otel_trace_id_to_dd_id trace_id = (trace_id % 2 ^ 64, trace_id / 2 ^ 64)

-- The cast of a number to `i64`.
unfoldable pub as_i64 : ℕ → ℤ
as_i64 n = let m = n % 2 ^ 64 in if ltb m (2 ^ 63) then pos m else negsuc (2 ^ 64 - 1 - m)

unfoldable pub time_as_unix_nanos : ℤ → ℤ
unfolding as_i64
time_as_unix_nanos (pos n) = as_i64 n
time_as_unix_nanos (negsuc n) = pos 0

unfoldable pub fits_i64 : ℤ → Bool
fits_i64 (pos n) = ltb n (2 ^ 63)
fits_i64 (negsuc n) = ltb n (2 ^ 63)

-- `end.checked_sub(start).unwrap_or(0).max(0)`
unfoldable pub duration : ℤ → ℤ → ℤ
unfolding fits_i64
duration start end =
    let difference = sub_ℤ end start in
    if fits_i64 difference then pos (pos_part difference) else pos 0

module _ (float : Float) where
  open float use {one, of_ℤ}

  pub record Event : Type 0 where
    pub name : Bytes
    pub timestamp : ℤ
    pub attributes : List (KeyValue float)

  pub record Link : Type 0 where
    pub span_context : SpanContext
    pub attributes : List (KeyValue float)

  pub record InstrumentationScope : Type 0 where
    pub name : Bytes
    pub version : Option Bytes
    pub attributes : List (KeyValue float)

  pub record SdkSpan : Type 0 where
    pub span_context : SpanContext
    pub parent_span_id : ℕ
    pub span_kind : SpanKind
    pub name : Bytes
    pub start_time : ℤ
    pub end_time : ℤ
    pub attributes : List (KeyValue float)
    pub events : List Event
    pub links : List Link
    pub status : Status
    pub instrumentation_scope : InstrumentationScope

  module _ (conv : Semconv) (otel : OpenTelemetry float) where
    unfoldable pub extracted : SdkSpan → Resource float → OtelSpan float
    extracted span resource =
        extract_args float conv otel span.name span.span_kind span.attributes resource

    -- `text`, or what stands for it when it is empty.
    unfoldable pub or_else : Bytes → Bytes → Bytes
    or_else text default = if is_empty text then default else text

    error_of : SdkSpan → OtelSpan float → ℤ
    error_of otel_span span = elim (span.get_attr_i64 (Keys.datadog_error conv) >>= to_i32) [
      | some error ↦ error
      | none ↦ if is_error otel_span.status then pos 1 else pos 0
    ]

    span_kind_of : OtelSpan float → Bytes
    span_kind_of span =
        unwrap_or (kind_name span.span_kind) (span.get_attr_str_opt (Keys.datadog_span_kind conv))

    unfoldable pub status_code_of : OtelSpan float → ℕ
    status_code_of span =
        unwrap_or (get_otel_status_code conv otel span)
          (span.get_attr_i64 (Keys.datadog_http_status_code conv) >>= to_u32)

    is_one : Option ℤ → Bool
    is_one (some (pos n)) = n == 1
    is_one (some (negsuc n)) = false
    is_one none = false

    unfoldable pub is_measured : OtelSpan float → Bool
    unfolding is_one
    is_measured span =
        is_one (span.get_attr_i64 (Keys.dd_measured conv) >>= to_i32)
        || is_client span.span_kind
        || is_producer span.span_kind

    unfoldable pub set_code : ℕ → DdSpan float → DdSpan float
    set_code code s =
        if code == 0 then s else set_meta float (codes "http.status_code") (print 10 code) s

    -- The span that the fields are first set on.
    unfoldable pub fields_of : SdkSpan → OtelSpan float → DdSpan float
    unfolding or_else error_of span_kind_of
    fields_of otel_span span =
        let start = time_as_unix_nanos otel_span.start_time in
        let end = time_as_unix_nanos otel_span.end_time in
        record {
          service =
              or_else (get_attr_str float span (Keys.datadog_service conv))
                (get_otel_service conv otel span);
          name =
              or_else (get_attr_str float span (Keys.datadog_name conv))
                (get_otel_operation_name_v2 conv otel span);
          resource =
              or_else (get_attr_str float span (Keys.datadog_resource conv))
                (get_otel_resource_v2 conv otel span);
          type =
              or_else (get_attr_str float span (Keys.datadog_type conv))
                (get_otel_span_type conv otel span);
          trace_id = (otel_trace_id_to_dd_id otel_span.span_context.trace_id).0;
          span_id = otel_span.span_context.span_id;
          parent_id = otel_span.parent_span_id;
          start = start;
          duration = duration start end;
          error = error_of otel_span span;
          meta = insert (codes "span.kind") (span_kind_of span) [];
          metrics = [];
          span_links = [];
          span_events = [];
        }

    unfoldable pub set_flag : Bool → Bytes → DdSpan float → DdSpan float
    set_flag b k s = if b then set_metric float k one s else s

    unfoldable pub otel_span_to_dd_span_minimal : SdkSpan → OtelSpan float → Bool → DdSpan float
    unfolding status_code_of is_measured set_code set_flag
    otel_span_to_dd_span_minimal otel_span span is_top_level =
        let coded = set_code (status_code_of span) (fields_of otel_span span) in
        let top = set_flag is_top_level (codes "_top_level") coded in
        set_flag (is_measured span) (codes "_dd.measured") top

    -- The Datadog attributes and the keys that they are stored under.
    dd_semantics_key_to_meta_key : List (AttributeKey × Bytes)
    dd_semantics_key_to_meta_key =
        (Keys.datadog_env conv, codes "env")
        ∷ (Keys.datadog_version conv, codes "version")
        ∷ (Keys.datadog_http_status_code conv, codes "http.status_code")
        ∷ (Keys.datadog_error_msg conv, codes "error.message")
        ∷ (Keys.datadog_error_type conv, codes "error.type")
        ∷ (Keys.datadog_error_stack conv, codes "error.stack")
        ∷ []

    unfoldable pub set_semantics :
        List (AttributeKey × Bytes) → OtelSpan float → DdSpan float → DdSpan float
    set_semantics [] span s = s
    set_semantics ((key, meta_key) ∷ keys) span s =
        let value = get_attr_str float span key in
        set_semantics keys span (if is_empty value then s else set_meta float meta_key value s)

    unfoldable pub set_resource : List (Bytes × Value float) → DdSpan float → DdSpan float
    set_resource [] s = s
    set_resource ((key, value) ∷ rest) s =
        set_resource rest (set_meta_otlp_with_semconv_mappings float conv otel key value s)

    unfoldable pub set_scope : List (KeyValue float) → DdSpan float → DdSpan float
    set_scope [] s = s
    set_scope ((key, value) ∷ rest) s = set_scope rest (set_meta float key (otel.to_string value) s)

    -- An attribute is a metric if it is a number, and otherwise a tag.
    unfoldable pub set_attribute : Bytes → Value float → DdSpan float → DdSpan float
    set_attribute key (Value.i64 v) s =
        set_metric_otlp_with_semconv_mappings float conv otel key (of_ℤ v) s
    set_attribute key (Value.f64 v) s =
        set_metric_otlp_with_semconv_mappings float conv otel key v s
    set_attribute key value s = set_meta_otlp_with_semconv_mappings float conv otel key value s

    unfoldable pub set_attributes : List (KeyValue float) → DdSpan float → DdSpan float
    set_attributes [] s = s
    set_attributes ((key, value) ∷ rest) s =
        set_attributes rest
          (if starts_with (codes "datadog.") key then s else set_attribute key value s)

    -- Fill a vacant entry with a text that is not empty.
    unfoldable pub fill : Bytes → Bytes → DdSpan float → DdSpan float
    fill key text s =
        if is_some (lookup key s.meta) || is_empty text then s else set_meta float key text s

    unfoldable pub set_unless_empty : Bytes → Bytes → DdSpan float → DdSpan float
    set_unless_empty key text s = if is_empty text then s else set_meta float key text s

    -- `collect` into a map: a later value replaces an earlier one.
    collect : {V : Type 0} → List (Bytes × V) → Dict Bytes V → Dict Bytes V
    collect [] m = m
    collect ((k, v) ∷ rest) m = collect rest (insert k v m)

    unfoldable pub to_dd_link : Link → DdSpanLink float
    unfolding collect
    to_dd_link link =
        let (trace_id, trace_id_high) = otel_trace_id_to_dd_id link.span_context.trace_id in
        record {
          trace_id = trace_id;
          trace_id_high = trace_id_high;
          span_id = link.span_context.span_id;
          attributes =
              collect (map (λ kv. (kv.0, otel_value_string_repr float otel kv.1)) link.attributes)
                [];
          tracestate = link.span_context.trace_state;
          flags = link.span_context.trace_flags;
        }

    unfoldable pub to_dd_event : Event → DdSpanEvent float
    unfolding collect
    to_dd_event e = record {
      time_unix_nano = pos_part (time_as_unix_nanos e.timestamp);
      name = e.name;
      attributes =
          collect (map (λ kv. (kv.0, otel_value_to_dd_scalar float conv otel kv.1)) e.attributes)
            [];
    }

    status_text : Status → Bytes
    status_text Status.unset = codes "Unset"
    status_text Status.ok = codes "Ok"
    status_text (Status.error _) = codes "Error"

    description_of : Status → Bytes
    description_of Status.unset = []
    description_of Status.ok = []
    description_of (Status.error description) = description

    -- The tags from the attributes, the resource and the scope.
    unfoldable pub set_tags :
        SdkSpan → Resource float → OtelSpan float → DdSpan float → DdSpan float
    unfolding dd_semantics_key_to_meta_key
    set_tags otel_span otel_resource span s₀ =
        let s₁ = set_semantics dd_semantics_key_to_meta_key span s₀ in
        let s₂ = set_resource otel_resource.iter s₁ in
        let s₃ = set_scope otel_span.instrumentation_scope.attributes s₂ in
        let otel_trace_id = pad 32 (print 16 otel_span.span_context.trace_id) in
        let s₄ = set_meta float (codes "otel.trace_id") otel_trace_id s₃ in
        let version : Bytes = elim (otel_resource.get (Keys.service_version conv).key) [
          | some v ↦ otel.to_string v
          | none ↦ []
        ] in
        let s₅ = fill (codes "version") version s₄ in
        let s₆ = set_attributes otel_span.attributes s₅ in
        fill (codes "env") (get_otel_env conv otel span) s₆

    -- The tags from the trace state, the library and the status.
    unfoldable pub status_tags : SdkSpan → DdSpan float → DdSpan float
    unfolding status_text description_of
    status_tags otel_span s₀ =
        let s₁ = tag_span_if_contains_exception float conv s₀ in
        let s₂ = set_unless_empty (codes "w3c.tracestate") otel_span.span_context.trace_state s₁ in
        let s₃ = set_unless_empty conv.otel_scope_name otel_span.instrumentation_scope.name s₂ in
        let version = unwrap_or [] otel_span.instrumentation_scope.version in
        let s₄ = set_unless_empty conv.otel_scope_version version s₃ in
        let s₅ = set_meta float conv.otel_status_code (status_text otel_span.status) s₄ in
        set_unless_empty conv.otel_status_description (description_of otel_span.status) s₅

    -- These, and then the error.
    unfoldable pub set_status : SdkSpan → DdSpan float → DdSpan float
    set_status otel_span s = set_error float conv otel_span.status (status_tags otel_span s)

    unfoldable pub otel_span_to_dd_span : SdkSpan → Resource float → DdSpan float
    unfolding extracted
    otel_span_to_dd_span otel_span otel_resource =
        let span = extracted otel_span otel_resource in
        let minimal = otel_span_to_dd_span_minimal otel_span span false in
        let tagged = set_tags otel_span otel_resource span minimal in
        let complete = record tagged {
          span_links = map to_dd_link otel_span.links;
          span_events = map to_dd_event otel_span.events;
        } in
        set_status otel_span complete
