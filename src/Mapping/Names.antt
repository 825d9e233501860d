-- ===== src/Mapping/Names.antt =====
-- The names that a span is given: datadog-opentelemetry-mappings/src/transform/otel_util.rs.
pub mod Laws
use dd_trace_rs.Prelude.{
  ℕ, Bool, true, false, not, ◌&&◌, ◌||◌, Option, none, some, List, [], ◌∷◌, ◌++◌, is_empty,
  if◌then◌else◌, ◌>>=◌, unwrap_or,
}
use dd_trace_rs.Prelude.Text.{Bytes, codes, beq, starts_with, strip_prefix}
use dd_trace_rs.Prelude.Dict.{Dict, lookup, bytes_eq}
use dd_trace_rs.Sampler.Float.{Float}
use dd_trace_rs.Mapping.Databases.{check_db_type}
use dd_trace_rs.Mapping.Keys
use dd_trace_rs.Mapping.Keys.{Semconv, AttributeKey}
use dd_trace_rs.Mapping.Value
use dd_trace_rs.Mapping.Value.{SpanKind, is_client, is_server, is_internal, OpenTelemetry, to_u32}
use dd_trace_rs.Mapping.Span.{
  OtelSpan, get_attr_str, get_span_attributes, get_res_span_attributes, get_res_attributes,
}

abbrev pub kind_name : SpanKind → Bytes
kind_name SpanKind.client = codes "client"
kind_name SpanKind.server = codes "server"
kind_name SpanKind.producer = codes "producer"
kind_name SpanKind.consumer = codes "consumer"
kind_name SpanKind.internal = codes "internal"

-- `"{first}{sep}{second}"`, the second only when there is one.
abbrev joined : Bytes → Bytes → Bytes
joined first second = if is_empty second then first else first ++ codes " " ++ second

module _ {float : Float} (conv : Semconv) (otel : OpenTelemetry float) (span : OtelSpan float) where
  open otel use {to_lowercase}

  attr : AttributeKey → Bytes
  attr k = get_attr_str float span k

  any_of : List AttributeKey → Bytes
  any_of ks = get_span_attributes float otel span ks

  res_or_attr : List AttributeKey → Bytes
  res_or_attr ks = get_res_span_attributes float otel span ks

  client : Bool
  client = is_client span.span_kind

  server : Bool
  server = is_server span.span_kind

  -- The cases in the order of the early returns; each gives what follows it as a last resort.
  http_name : Bytes → Bytes
  unfolding client server
  http_name otherwise =
      if span.has_attr (Keys.http_method conv) || span.has_attr (Keys.http_request_method conv)
      then if client
        then codes "http.client.request"
        else if server
        then codes "http.server.request"
        else otherwise
      else otherwise

  database_name : Bytes → Bytes
  unfolding client any_of
  database_name otherwise =
      let db_system = any_of ((Keys.db_system conv) ∷ (Keys.db_system_name conv) ∷ []) in
      if not (is_empty db_system) && client
      then to_lowercase db_system ++ codes ".query"
      else otherwise

  messaging_name : Bytes → Bytes
  unfolding attr any_of
  messaging_name otherwise =
      let messaging_system = attr (Keys.messaging_system conv) in
      let messaging_operation =
        any_of ((Keys.messaging_operation conv) ∷ (Keys.messaging_operation_type conv) ∷ []) in
      if not (is_empty messaging_system)
        && not (is_empty messaging_operation)
        && not (is_internal span.span_kind)
      then to_lowercase (messaging_system ++ codes "." ++ messaging_operation)
      else otherwise

  rpc_name : Bytes → Bytes
  unfolding client server attr
  rpc_name otherwise =
      let rpc_system = attr (Keys.rpc_system conv) in
      let rpc_service = attr (Keys.rpc_service conv) in
      let is_rpc = not (is_empty rpc_system) in
      if client && beq rpc_system (codes "aws-api")
      then if is_empty rpc_service
        then codes "aws.client.request"
        else codes "aws." ++ to_lowercase rpc_service ++ codes ".request"
      else if client && is_rpc
      then to_lowercase rpc_system ++ codes ".client.request"
      else if server && is_rpc
      then to_lowercase rpc_system ++ codes ".server.request"
      else otherwise

  faas_name : Bytes → Bytes
  unfolding client server attr
  faas_name otherwise =
      let faas_invoked_provider = attr (Keys.faas_invoked_provider conv) in
      let faas_invoked_name = attr (Keys.faas_invoked_name conv) in
      let faas_trigger = attr (Keys.faas_trigger conv) in
      if client && not (is_empty faas_invoked_provider) && not (is_empty faas_invoked_name)
      then to_lowercase (faas_invoked_provider ++ codes "." ++ faas_invoked_name ++ codes ".invoke")
      else if not (is_empty faas_trigger) && server
      then to_lowercase faas_trigger ++ codes ".invoke"
      else otherwise

  generic_name : Bytes
  unfolding client server attr
  generic_name =
      let protocol = attr (Keys.network_protocol_name conv) in
      if not (is_empty (attr (Keys.graphql_operation_type conv)))
      then codes "graphql.server.request"
      else if server
      then if is_empty protocol
        then codes "server.request"
        else to_lowercase protocol ++ codes ".server.request"
      else if client
      then if is_empty protocol
        then codes "client.request"
        else to_lowercase protocol ++ codes ".client.request"
      else kind_name span.span_kind

  unfoldable pub get_otel_operation_name_v2 : Bytes
  unfolding http_name database_name messaging_name rpc_name faas_name generic_name
  get_otel_operation_name_v2 = elim (span.get_attr_str_opt (Keys.operation_name conv)) [
    | some name ↦ name
    | none ↦ http_name (database_name (messaging_name (rpc_name (faas_name generic_name))))
  ]

  -- The part that follows an HTTP method.
  http_resource : Bytes → Bytes
  unfolding server res_or_attr
  http_resource method =
      let m = if beq method (codes "_OTHER") then codes "HTTP" else method in
      if server then joined m (res_or_attr ((Keys.http_route conv) ∷ [])) else m

  database_resource : Bytes
  unfolding res_or_attr
  database_resource =
      let db_statement = res_or_attr ((Keys.db_statement conv) ∷ []) in
      let db_query = res_or_attr ((Keys.db_query_text conv) ∷ []) in
      if is_empty (res_or_attr ((Keys.db_system_name conv) ∷ (Keys.db_system conv) ∷ []))
      then span.name
      else if not (is_empty db_statement)
      then db_statement
      else if not (is_empty db_query)
      then db_query
      else span.name

  unfoldable pub get_otel_resource_v2 : Bytes
  unfolding res_or_attr http_resource database_resource
  get_otel_resource_v2 =
      let resource = res_or_attr ((Keys.resource_name conv) ∷ []) in
      let method = res_or_attr ((Keys.http_request_method conv) ∷ (Keys.http_method conv) ∷ []) in
      let messaging_operation =
        res_or_attr ((Keys.messaging_operation_type conv) ∷ (Keys.messaging_operation conv) ∷ []) in
      let rpc_method = res_or_attr ((Keys.rpc_method conv) ∷ []) in
      let graphql_operation_type = res_or_attr ((Keys.graphql_operation_type conv) ∷ []) in
      if not (is_empty resource)
      then resource
      else if not (is_empty method)
      then http_resource method
      else if not (is_empty messaging_operation)
      then joined messaging_operation (
          res_or_attr
            ((Keys.messaging_destination conv) ∷ (Keys.messaging_destination_name conv) ∷ []))
      else if not (is_empty rpc_method)
      then joined rpc_method (res_or_attr ((Keys.rpc_service conv) ∷ []))
      else if not (is_empty graphql_operation_type)
      then joined graphql_operation_type (res_or_attr ((Keys.graphql_operation_name conv) ∷ []))
      else database_resource

  unfoldable pub get_otel_status_code : ℕ
  get_otel_status_code = elim (span.get_attr_i64 (Keys.http_response_status_code conv) >>= to_u32) [
    | some code ↦ code
    | none ↦ unwrap_or 0 (span.get_attr_i64 (Keys.http_status_code conv) >>= to_u32)
  ]

  unfoldable pub get_otel_span_type : Bytes
  unfolding res_or_attr
  get_otel_span_type =
      let typ = res_or_attr ((Keys.span_type conv) ∷ []) in
      let db = res_or_attr ((Keys.db_system_name conv) ∷ (Keys.db_system conv) ∷ []) in
      if not (is_empty typ) then typ else elim span.span_kind [
        | SpanKind.server ↦ codes "web"
        | SpanKind.client ↦ if is_empty db then codes "http" else check_db_type db
        | SpanKind.producer ↦ codes "custom"
        | SpanKind.consumer ↦ codes "custom"
        | SpanKind.internal ↦ codes "custom"
      ]

  unfoldable pub get_otel_env : Bytes
  unfolding res_or_attr
  get_otel_env =
      let datadog_env = res_or_attr ((Keys.datadog_env conv) ∷ []) in
      if not (is_empty datadog_env)
      then datadog_env
      else get_res_attributes float otel span
          ((Keys.deployment_environment_name conv) ∷ (Keys.deployment_environment conv) ∷ [])

  abbrev pub default_otlp_service_name : Bytes
  default_otlp_service_name = codes "otlpresourcenoservicename"

  resource_service : Bytes
  resource_service = elim (span.get_res_attribute_opt (Keys.service_name conv)) [
    | some service ↦
        if is_empty (otel.as_str service) then default_otlp_service_name else otel.to_string service
    | none ↦ default_otlp_service_name
  ]

  unfoldable pub get_otel_service : Bytes
  unfolding resource_service
  get_otel_service = elim (span.get_attr_str_opt (Keys.service_name conv)) [
    | some service ↦ if is_empty service then resource_service else service
    | none ↦ resource_service
  ]

-- The keys of HTTP attributes and their Datadog names; the first match counts.
unfoldable pub http_mappings : Semconv → Dict Bytes Bytes
http_mappings conv =
    (conv.client_address, codes "http.client_ip")
    ∷ (conv.http_response_body_size, codes "http.response.content_length")
    ∷ (conv.http_response_status_code, codes "http.status_code")
    ∷ (conv.http_request_body_size, codes "http.request.content_length")
    ∷ (codes "http.request.header.referrer", codes "http.referrer")
    ∷ (conv.http_request_method, codes "http.method")
    ∷ (conv.http_route, codes "http.route")
    ∷ (conv.network_protocol_version, codes "http.version")
    ∷ (conv.server_address, codes "http.server_name")
    ∷ (conv.url_full, codes "http.url")
    ∷ (conv.user_agent_original, codes "http.useragent")
    ∷ []

unfoldable pub is_datadog_convention_key : Bytes → Bool
is_datadog_convention_key k =
    beq k (codes "service.name")
    || beq k (codes "operation.name")
    || beq k (codes "resource.name")
    || beq k (codes "span.type")
    || starts_with (codes "datadog.") k

unfoldable pub get_dd_key_for_otlp_attribute : Semconv → Bytes → Bytes
get_dd_key_for_otlp_attribute conv k = elim (lookup k (http_mappings conv)) [
  | some mapped_key ↦ mapped_key
  | none ↦ elim (strip_prefix (codes "http.request.header.") k) [
    | some suffix ↦ codes "http.request.headers." ++ suffix
    | none ↦ if is_datadog_convention_key k then [] else k
  ]
]
