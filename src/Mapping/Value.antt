-- ===== src/Mapping/Value.antt =====
-- The values of attributes, which are those of the crate `opentelemetry`.
use dd_trace_rs.Prelude.{
  ℕ, ◌^◌, ◌-◌, Bool, true, false, Option, some, none, List, ltb, ◌&&◌, if◌then◌else◌,
}
use dd_trace_rs.Prelude.Int.{ℤ, pos, negsuc}
use dd_trace_rs.Prelude.Text.{Bytes, codes}
use dd_trace_rs.Numeral.{print_signed}
use dd_trace_rs.Sampler.Float.{Float}

pub data SpanKind : Type 0 where
  client : SpanKind
  server : SpanKind
  producer : SpanKind
  consumer : SpanKind
  internal : SpanKind

abbrev pub is_client : SpanKind → Bool
is_client client = true
is_client _ = false

abbrev pub is_server : SpanKind → Bool
is_server server = true
is_server _ = false

abbrev pub is_producer : SpanKind → Bool
is_producer producer = true
is_producer _ = false

abbrev pub is_internal : SpanKind → Bool
is_internal internal = true
is_internal _ = false

module _ (float : Float) where
  open float use {F, same, floor, lt, of_ℤ, to_i64, print, nought, one}

  -- `other` stands for what the enumerations may be extended by.
  pub data Array : Type 0 where
    bool : List Bool → Array
    i64 : List ℤ → Array
    f64 : List F → Array
    string : List Bytes → Array
    other : Array

  pub data Value : Type 0 where
    bool : Bool → Value
    i64 : ℤ → Value
    f64 : F → Value
    string : Bytes → Value
    array : Array → Value
    other : Value

  -- What is called of the crate and of Unicode's tables: `to_string` of values and of arrays,
  -- `Value::as_str`, `str::to_lowercase`.
  pub record OpenTelemetry : Type 0 where
    pub to_string : Value → Bytes
    pub array_to_string : Array → Bytes
    pub as_str : Value → Bytes
    pub to_lowercase : Bytes → Bytes

  -- A resource: a map from names to values.
  pub record Resource : Type 0 where
    pub get : Bytes → Option Value
    pub iter : List (Bytes × Value)
    pub len : ℕ

  abbrev pub KeyValue : Type 0
  KeyValue = Bytes × Value

  unfoldable pub otel_value_string_repr : OpenTelemetry → Value → Bytes
  otel_value_string_repr otel (bool true) = codes "true"
  otel_value_string_repr otel (bool false) = codes "false"
  otel_value_string_repr otel (i64 i) = print_signed i
  otel_value_string_repr otel (f64 x) =
      if same x nought then codes "0" else if same x one then codes "1" else print x
  otel_value_string_repr otel (string s) = s
  otel_value_string_repr otel (array a) = otel.array_to_string a
  otel_value_string_repr otel other = otel.to_string other

  -- The integer that a value stands for: `get_attr_num` before `try_from`.
  unfoldable pub as_i64 : Value → Option ℤ
  as_i64 (i64 i) = some i
  as_i64 (f64 x) =
      if same x (floor x) && lt x (of_ℤ (pos (2 ^ 63 - 1))) then some (to_i64 x) else none
  as_i64 _ = none

-- `try_from` of an `i64`.
unfoldable pub to_u32 : ℤ → Option ℕ
to_u32 (pos n) = if ltb n (2 ^ 32) then some n else none
to_u32 (negsuc n) = none

unfoldable pub to_i32 : ℤ → Option ℤ
to_i32 (pos n) = if ltb n (2 ^ 31) then some (pos n) else none
to_i32 (negsuc n) = if ltb n (2 ^ 31) then some (negsuc n) else none
