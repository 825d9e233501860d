-- ===== src/Examples/Names.antt =====
-- The names of the semantic conventions, and the calls of the OpenTelemetry crate, made concrete.
use dd_trace_rs.Prelude.{◌≡◌, true, none, [], map, is_empty, arith}
use dd_trace_rs.Prelude.Text.{Bytes, codes}
use dd_trace_rs.Prelude.Dict.{bytes_eq}
use dd_trace_rs.Mapping.Keys.{Semconv}
use dd_trace_rs.Mapping.Value.{Value, OpenTelemetry, Resource}
use dd_trace_rs.Propagation.Context.{to_lower}
use dd_trace_rs.Examples.Exact.{exact}

abbrev pub conventions : Semconv
conventions = record {
  service_name = codes "service.name";
  service_version = codes "service.version";
  client_address = codes "client.address";
  http_response_body_size = codes "http.response.body.size";
  http_response_status_code = codes "http.response.status_code";
  http_request_body_size = codes "http.request.body.size";
  http_request_method = codes "http.request.method";
  http_route = codes "http.route";
  network_protocol_version = codes "network.protocol.version";
  server_address = codes "server.address";
  url_full = codes "url.full";
  user_agent_original = codes "user_agent.original";
  exception_message = codes "exception.message";
  exception_type = codes "exception.type";
  exception_stacktrace = codes "exception.stacktrace";
  otel_scope_name = codes "otel.scope.name";
  otel_scope_version = codes "otel.scope.version";
  otel_status_code = codes "otel.status_code";
  otel_status_description = codes "otel.status_description";
}

-- Texts are shown, and other values as a question mark.
abbrev pub shown : Value exact → Bytes
shown (Value.string s) = s
shown _ = codes "?"

abbrev pub text_of : Value exact → Bytes
text_of (Value.string s) = s
text_of _ = []

abbrev pub ascii : OpenTelemetry exact
ascii = record {
  to_string = shown;
  array_to_string = λ _. codes "[]";
  as_str = text_of;
  to_lowercase = map to_lower;
}

pub shown_texts : (v : Value exact) → is_empty (shown v) ≡ true → is_empty (text_of v) ≡ true
shown_texts v h = ground arith

abbrev pub resource : Resource exact
resource = record { get = λ _. none; iter = []; len = 0 }
