-- ===== src/Proxy/Worker/Health.antt =====
-- What the worker answers to `/clusters` (`clusters` in proxy/worker/src/admin.rs) from the catalog
-- and the states of its probes.
pub mod Reported
use neutron_local_services_p.Base.{
  ℕ, String, Bool, Option, none, some, List, [], ◌∷◌, ◌++◌, ◌==◌, string_eq, if◌then◌else◌,
}
use neutron_local_services_p.Proxy.{Target, Entry}
use neutron_local_services_p.Proxy.Worker.{HostStatus, ClusterStatus}

-- `hc::BackendId`: the backend of a service on one network.
pub record BackendId : Type 0 where
  pub net_id : String
  pub service_id : String
  pub addr : String
  pub port : ℕ

pub data Status : Type 0 where
  up down unknown : Status

unfoldable pub eds_of : Option Status → String
eds_of none = "UNKNOWN"
eds_of (some up) = "HEALTHY"
eds_of (some down) = "UNHEALTHY"
eds_of (some unknown) = "UNKNOWN"

-- `shown_addr` is what Rust makes of an address that it has read.
module _ (shown_addr : String → String) (status : BackendId → Option Status) where
  unfoldable pub backend_id_from : Entry → Target → BackendId
  backend_id_from entry b = record {
    net_id = entry.net_id;
    service_id = entry.service_id;
    addr = shown_addr b.addr;
    port = b.port;
  }

  unfoldable pub host_status : BackendId → HostStatus
  unfolding eds_of
  host_status id = record {
    address = some id.addr;
    port_value = some id.port;
    eds_health_status = some (eds_of (status id));
  }

  unfoldable pub entry_hosts : Entry → List Target → List HostStatus
  unfolding backend_id_from host_status
  entry_hosts entry [] = []
  entry_hosts entry (b ∷ backends) =
      host_status (backend_id_from entry b) ∷ entry_hosts entry backends

  -- The hosts of a service, in the order of the catalog.
  unfoldable pub service_hosts : String → List Entry → List HostStatus
  unfolding entry_hosts
  service_hosts service_id [] = []
  service_hosts service_id (entry ∷ entries) =
      let rest = service_hosts service_id entries in
      if entry.service_id == service_id then entry_hosts entry entry.backends ++ rest else rest

  -- One cluster for each service; `services` has them in the order in which the hash map gives them.
  unfoldable pub clusters : List Entry → List String → List ClusterStatus
  unfolding service_hosts
  clusters entries [] = []
  clusters entries (service_id ∷ services) =
      record { name = some service_id; host_statuses = service_hosts service_id entries }
      ∷ clusters entries services
