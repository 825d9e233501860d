-- ===== src/Examples/Mapping.antt =====
-- The conversion of a client's span with an error.
use dd_trace_rs.Prelude.{
  ◌+◌, ◌*◌, ◌≡◌, ◌⊎◌, refl, false, none, some, List, [], ◌∷◌, is_empty, arith,
}
use dd_trace_rs.Prelude.Int.{pos}
use dd_trace_rs.Prelude.Text.{Bytes, codes, beq}
use dd_trace_rs.Mapping.Keys
use dd_trace_rs.Mapping.Keys.{get, from_attribute_slice, find_key}
use dd_trace_rs.Mapping.Keys.Lookup.{last_from, from_attribute_slice-last}
use dd_trace_rs.Mapping.Value.{SpanKind, Value}
use dd_trace_rs.Mapping.Errors.{Status}
use dd_trace_rs.Mapping.Transform.{
  SdkSpan, otel_span_to_dd_span, otel_span_to_dd_span_minimal, extracted,
}
use dd_trace_rs.Mapping.Transform.Identity.{identity, otel_span_to_dd_span-identity}
use dd_trace_rs.Mapping.Transform.Fields.{otel_span_to_dd_span_service}
use dd_trace_rs.Mapping.Transform.ErrorTags.{
  Present, HasErrorTags, otel_span_to_dd_span_error, otel_span_to_dd_span_message,
}
use dd_trace_rs.Examples.Exact.{exact}
use dd_trace_rs.Examples.Names.{conventions, ascii, shown_texts, resource}

abbrev names : List Bytes
names = codes "http.method" ∷ codes "color" ∷ codes "http.method" ∷ []

method_key :
    find_key (codes "http.method") (Keys.attribute_keys conventions)
    ≡ some (Keys.http_method conventions)
unfolding find_key beq
method_key = refl

from_attribute_slice-last_example :
    get (from_attribute_slice conventions names) (Keys.http_method conventions)
    ≡ last_from (codes "http.method") 0 names none
from_attribute_slice-last_example =
    from_attribute_slice-last conventions names (Keys.http_method conventions) method_key
      (ground arith)

last_method : last_from (codes "http.method") 0 names none ≡ some 2
unfolding last_from beq
last_method = refl

abbrev request : SdkSpan exact
request = record {
  span_context = record {
    trace_id = 2 * 18446744073709551616 + 7;
    span_id = 5;
    trace_flags = 1;
    trace_state = [];
  };
  parent_span_id = 3;
  span_kind = SpanKind.client;
  name = codes "request";
  start_time = pos 100;
  end_time = pos 250;
  attributes =
      (codes "http.method", Value.string (codes "GET"))
      ∷ (codes "service.name", Value.string (codes "shop"))
      ∷ [];
  events = [];
  links = [];
  status = Status.error (codes "refused");
  instrumentation_scope = record { name = codes "tracer"; version = none; attributes = [] };
}

otel_span_to_dd_span-identity_example :
    identity exact (otel_span_to_dd_span exact conventions ascii request resource)
    ≡ identity exact (
        otel_span_to_dd_span_minimal exact conventions ascii request
          (extracted exact conventions ascii request resource)
          false)
otel_span_to_dd_span-identity_example =
    otel_span_to_dd_span-identity exact conventions ascii request resource

otel_span_to_dd_span_service_example :
    is_empty (otel_span_to_dd_span exact conventions ascii request resource).service ≡ false
otel_span_to_dd_span_service_example =
    otel_span_to_dd_span_service exact conventions ascii request resource shown_texts

otel_span_to_dd_span_error_example :
    let s = otel_span_to_dd_span exact conventions ascii request resource in
    let span = extracted exact conventions ascii request resource in
    let minimal = otel_span_to_dd_span_minimal exact conventions ascii request span false in
    (s.error ≡ pos 1) ⊎ (HasErrorTags s.meta × (s.error ≡ minimal.error))
otel_span_to_dd_span_error_example =
    otel_span_to_dd_span_error exact conventions ascii request resource

otel_span_to_dd_span_message_example :
    Present
      (codes "error.message")
      (otel_span_to_dd_span exact conventions ascii request resource).meta
otel_span_to_dd_span_message_example =
    otel_span_to_dd_span_message exact conventions ascii request resource (codes "refused") refl
      refl
