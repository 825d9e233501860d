-- ===== src/Exporter/Services.antt =====
-- `ExtraServicesTracker::add_extra_service` of dd-trace/src/configuration/configuration.rs, behind
-- `Config::add_extra_service`: the services that are seen at run time.
use dd_trace_rs.Prelude.{Bool, false, List, [], ◌∷◌, ◌++◌, Option, none, some, if◌then◌else◌, ◌||◌}
use dd_trace_rs.Prelude.Text.{Bytes, beq}

-- What `Config` holds for it: whether remote configuration is enabled, the main service, and the
-- tracker's set of services sent and its queue.
pub record ExtraServices : Type 0 where
  pub remote_config_enabled : Bool
  pub main_service : Bytes
  pub extra_services_sent : List Bytes
  pub extra_services_queue : Option (List Bytes)

abbrev is_in : Bytes → List Bytes → Bool
is_in x [] = false
is_in x (y ∷ ys) = beq x y || is_in x ys

abbrev push_back : Bytes → Option (List Bytes) → Option (List Bytes)
push_back service none = none
push_back service (some queue) = some (queue ++ service ∷ [])

-- `ExtraServicesTracker::add_extra_service`
track_service : Bytes → ExtraServices → ExtraServices
track_service service_name c =
    if beq service_name c.main_service
    then c
    else if is_in service_name c.extra_services_sent
    then c
    else record c {
      extra_services_queue = push_back service_name c.extra_services_queue;
      extra_services_sent = service_name ∷ c.extra_services_sent;
    }

-- `Config::add_extra_service`
unfoldable pub add_extra_service : Bytes → ExtraServices → ExtraServices
unfolding track_service
add_extra_service service_name c =
    if c.remote_config_enabled then track_service service_name c else c
