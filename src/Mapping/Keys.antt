-- ===== src/Mapping/Keys.antt =====
-- The attributes that the conversion looks for, and where they stand on a span:
-- datadog-opentelemetry-mappings/src/transform/attribute_keys.rs.
pub mod Lookup
use dd_trace_rs.Prelude.{
  ℕ, zero, suc, ◌+◌, ◌-◌, ◌%◌, ◌^◌, Bool, Option, none, some, List, [], ◌∷◌, replicate, get_elem?,
  if◌then◌else◌, ◌==◌, ◌>>=◌,
}
use dd_trace_rs.Prelude.Text.{Bytes, codes, beq}

-- The names that the crate `opentelemetry-semantic-conventions` declares.
pub record Semconv : Type 0 where
  pub service_name : Bytes
  pub service_version : Bytes
  pub client_address : Bytes
  pub http_response_body_size : Bytes
  pub http_response_status_code : Bytes
  pub http_request_body_size : Bytes
  pub http_request_method : Bytes
  pub http_route : Bytes
  pub network_protocol_version : Bytes
  pub server_address : Bytes
  pub url_full : Bytes
  pub user_agent_original : Bytes
  pub exception_message : Bytes
  pub exception_type : Bytes
  pub exception_stacktrace : Bytes
  pub otel_scope_name : Bytes
  pub otel_scope_version : Bytes
  pub otel_status_code : Bytes
  pub otel_status_description : Bytes

pub record AttributeKey : Type 0 where
  pub idx : ℕ
  pub key : Bytes

abbrev pub number_of_attributes : ℕ
number_of_attributes = 43

abbrev pub u32_max : ℕ
u32_max = 4294967295

module _ (conv : Semconv) where
  abbrev pub datadog_service : AttributeKey
  datadog_service = record { idx = 0; key = codes "datadog.service" }

  abbrev pub datadog_name : AttributeKey
  datadog_name = record { idx = 1; key = codes "datadog.name" }

  abbrev pub datadog_env : AttributeKey
  datadog_env = record { idx = 2; key = codes "datadog.env" }

  abbrev pub datadog_resource : AttributeKey
  datadog_resource = record { idx = 3; key = codes "datadog.resource" }

  abbrev pub datadog_type : AttributeKey
  datadog_type = record { idx = 4; key = codes "datadog.type" }

  abbrev pub datadog_version : AttributeKey
  datadog_version = record { idx = 5; key = codes "datadog.version" }

  abbrev pub datadog_http_status_code : AttributeKey
  datadog_http_status_code = record { idx = 6; key = codes "datadog.http_status_code" }

  abbrev pub datadog_span_kind : AttributeKey
  datadog_span_kind = record { idx = 7; key = codes "datadog.span.kind" }

  abbrev pub datadog_error : AttributeKey
  datadog_error = record { idx = 8; key = codes "datadog.error" }

  abbrev pub datadog_error_msg : AttributeKey
  datadog_error_msg = record { idx = 9; key = codes "datadog.error.msg" }

  abbrev pub datadog_error_type : AttributeKey
  datadog_error_type = record { idx = 10; key = codes "datadog.error.type" }

  abbrev pub datadog_error_stack : AttributeKey
  datadog_error_stack = record { idx = 11; key = codes "datadog.error.stack" }

  abbrev pub operation_name : AttributeKey
  operation_name = record { idx = 12; key = codes "operation.name" }

  abbrev pub http_request_method : AttributeKey
  http_request_method = record { idx = 13; key = codes "http.request.method" }

  abbrev pub http_method : AttributeKey
  http_method = record { idx = 14; key = codes "http.method" }

  abbrev pub db_system : AttributeKey
  db_system = record { idx = 15; key = codes "db.system" }

  abbrev pub db_system_name : AttributeKey
  db_system_name = record { idx = 16; key = codes "db.system.name" }

  abbrev pub messaging_system : AttributeKey
  messaging_system = record { idx = 17; key = codes "messaging.system" }

  abbrev pub messaging_operation : AttributeKey
  messaging_operation = record { idx = 18; key = codes "messaging.operation" }

  abbrev pub messaging_operation_type : AttributeKey
  messaging_operation_type = record { idx = 19; key = codes "messaging.operation.type" }

  abbrev pub rpc_system : AttributeKey
  rpc_system = record { idx = 20; key = codes "rpc.system" }

  abbrev pub rpc_service : AttributeKey
  rpc_service = record { idx = 21; key = codes "rpc.service" }

  abbrev pub faas_invoked_provider : AttributeKey
  faas_invoked_provider = record { idx = 22; key = codes "faas.invoked_provider" }

  abbrev pub faas_invoked_name : AttributeKey
  faas_invoked_name = record { idx = 23; key = codes "faas.invoked_name" }

  abbrev pub faas_trigger : AttributeKey
  faas_trigger = record { idx = 24; key = codes "faas.trigger" }

  abbrev pub graphql_operation_type : AttributeKey
  graphql_operation_type = record { idx = 25; key = codes "graphql.operation.type" }

  abbrev pub network_protocol_name : AttributeKey
  network_protocol_name = record { idx = 26; key = codes "network.protocol.name" }

  abbrev pub resource_name : AttributeKey
  resource_name = record { idx = 27; key = codes "resource.name" }

  abbrev pub http_route : AttributeKey
  http_route = record { idx = 28; key = codes "http.route" }

  abbrev pub messaging_destination : AttributeKey
  messaging_destination = record { idx = 29; key = codes "messaging.destination" }

  abbrev pub messaging_destination_name : AttributeKey
  messaging_destination_name = record { idx = 30; key = codes "messaging.destination.name" }

  abbrev pub rpc_method : AttributeKey
  rpc_method = record { idx = 31; key = codes "rpc.method" }

  abbrev pub graphql_operation_name : AttributeKey
  graphql_operation_name = record { idx = 32; key = codes "graphql.operation.name" }

  abbrev pub db_statement : AttributeKey
  db_statement = record { idx = 33; key = codes "db.statement" }

  abbrev pub db_query_text : AttributeKey
  db_query_text = record { idx = 34; key = codes "db.query.text" }

  abbrev pub span_type : AttributeKey
  span_type = record { idx = 35; key = codes "span.type" }

  abbrev pub http_response_status_code : AttributeKey
  http_response_status_code = record { idx = 36; key = codes "http.response.status_code" }

  abbrev pub http_status_code : AttributeKey
  http_status_code = record { idx = 37; key = codes "http.status_code" }

  abbrev pub service_name : AttributeKey
  service_name = record { idx = 38; key = conv.service_name }

  abbrev pub service_version : AttributeKey
  service_version = record { idx = 39; key = conv.service_version }

  abbrev pub deployment_environment_name : AttributeKey
  deployment_environment_name = record { idx = 40; key = codes "deployment.environment.name" }

  abbrev pub deployment_environment : AttributeKey
  deployment_environment = record { idx = 41; key = codes "deployment.environment" }

  abbrev pub dd_measured : AttributeKey
  dd_measured = record { idx = 42; key = codes "_dd.measured" }

  abbrev pub attribute_keys : List AttributeKey
  attribute_keys =
      datadog_service ∷ datadog_name ∷ datadog_env ∷ datadog_resource ∷ datadog_type
      ∷ datadog_version ∷ datadog_http_status_code ∷ datadog_span_kind ∷ datadog_error
      ∷ datadog_error_msg ∷ datadog_error_type ∷ datadog_error_stack ∷ operation_name
      ∷ http_request_method ∷ http_method ∷ db_system ∷ db_system_name ∷ messaging_system
      ∷ messaging_operation ∷ messaging_operation_type ∷ rpc_system ∷ rpc_service
      ∷ faas_invoked_provider ∷ faas_invoked_name ∷ faas_trigger ∷ graphql_operation_type
      ∷ network_protocol_name ∷ resource_name ∷ http_route ∷ messaging_destination
      ∷ messaging_destination_name ∷ rpc_method ∷ graphql_operation_name ∷ db_statement
      ∷ db_query_text ∷ span_type ∷ http_response_status_code ∷ http_status_code ∷ service_name
      ∷ service_version ∷ deployment_environment_name ∷ deployment_environment ∷ dd_measured ∷ []

-- `match_key!`: the first of the keys with this name.
unfoldable pub find_key : Bytes → List AttributeKey → Option AttributeKey
find_key val [] = none
find_key val (k ∷ ks) = if beq val k.key then some k else find_key val ks

-- The position of each attribute on the span; `u32::MAX` where there is none.
abbrev pub AttributeIndices : Type 0
AttributeIndices = List ℕ

abbrev pub default : AttributeIndices
default = replicate number_of_attributes u32_max

unfoldable pub set_at : {A : Type 0} → List A → ℕ → A → List A
set_at [] i x = []
set_at (y ∷ ys) zero x = x ∷ ys
set_at (y ∷ ys) (suc i) x = y ∷ set_at ys i x

unfoldable pub set : AttributeIndices → AttributeKey → ℕ → AttributeIndices
set s key val = set_at s key.idx (val % 2 ^ 32)

unfoldable pub get : AttributeIndices → AttributeKey → Option ℕ
get s key = elim (get_elem? s key.idx) [
  | some val ↦ if val == u32_max then none else some val
  | none ↦ none
]

abbrev pub set_found : AttributeIndices → ℕ → Option AttributeKey → AttributeIndices
set_found s i none = s
set_found s i (some key) = set s key i

-- The loop of `from_attribute_slice`, at position `i` of the names.
unfoldable pub index_from : List AttributeKey → ℕ → List Bytes → AttributeIndices → AttributeIndices
index_from ks i [] s = s
index_from ks i (name ∷ names) s = index_from ks (i + 1) names (set_found s i (find_key name ks))

unfoldable pub from_attribute_slice : Semconv → List Bytes → AttributeIndices
from_attribute_slice conv names = index_from (attribute_keys conv) 0 names default
