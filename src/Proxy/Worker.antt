-- ===== src/Proxy/Worker.antt =====
-- What the plugin and the worker tell each other: which namespaces the worker has been given, since
-- which of its starts, and the health that it reports.
pub mod Registration
pub mod Health
use neutron_local_services_p.Base.{
  ℕ, String, ◌<>◌, Bool, true, false, not, ◌||◌, Option, none, some, List, [], ◌∷◌, ◌==◌, string_eq,
  option_eq, if◌then◌else◌, contains, filter,
}
use neutron_local_services_p.Base.Text.{substring_of, decimal, prefix_of, drop_prefix}
use neutron_local_services_p.Constants.{netns_prefix}
use neutron_local_services_p.Records.{AttachedService}
use neutron_local_services_p.Proxy.{Nonce, Entry, entries_for}
use neutron_local_services_p.Proxy.Catalog.{State, publish}

-- `_REGISTERED` and `_REGISTERED_BOOT_ID`.
pub record Registered : Type 0 where
  pub networks : List String
  pub boot_id : Option String

-- What a control request gives: an exception because no worker listens, another exception, or an
-- answer with its `result` and its `msg`.
pub data Response : Type 0 where
  not_listening failed : Response
  answer : Option String → String → Response

-- `cur` is the boot id that the worker has written, if it has.
unfoldable pub check_worker_restart : Option String → Registered → Registered
check_worker_restart none r = r
check_worker_restart (some cur) r =
    if r.boot_id == some cur then r else record { networks = []; boot_id = some cur }

unfoldable pub add_network : String → Registered → Registered
add_network network_id r = record r {
  networks = if contains r.networks network_id then r.networks else network_id ∷ r.networks;
}

-- After the request: whether the method returns, and the cache. An answer that the network is known
-- already counts as a success.
unfoldable pub registered : String → Response → Registered → Bool × Registered
unfolding add_network
registered network_id not_listening r = (false, r)
registered network_id failed r = (false, r)
registered network_id (answer result msg) r =
    if (result == some "ok") || substring_of "already registered" msg
    then (true, add_network network_id r)
    else (false, r)

-- `response` is that to `add_netns`, which is only sent for a network that is not in the cache.
unfoldable pub ensure_registered :
    Option String → String → Response → Registered → Bool × Registered
unfolding registered check_worker_restart
ensure_registered cur network_id response r =
    let r' = check_worker_restart cur r in
    if contains r'.networks network_id then (true, r') else registered network_id response r'

-- `response` is that to `remove_netns`.
unfoldable pub ensure_deregistered : String → Response → Registered → Bool × Registered
ensure_deregistered network_id not_listening r = (true, r)
ensure_deregistered network_id failed r = (false, r)
ensure_deregistered network_id (answer result msg) r =
    (true, record r { networks = filter (λ n. not (n == network_id)) r.networks })

-- `/clusters` of the worker's admin socket, as far as it is read.
pub record HostStatus : Type 0 where
  pub address : Option String
  pub port_value : Option ℕ
  pub eds_health_status : Option String

pub record ClusterStatus : Type 0 where
  pub name : Option String
  pub host_statuses : List HostStatus

-- `str(addr)` and `'%s' % port`
abbrev shown : Option String → String
shown none = "None"
shown (some s) = s

abbrev shown_port : Option ℕ → String
shown_port none = "None"
shown_port (some n) = decimal n

unfoldable pub is_backend : String → HostStatus → Bool
is_backend backend_id host =
    (backend_id == shown host.address)
    || (backend_id == (shown host.address <> (":" <> shown_port host.port_value)))

unfoldable pub health_of : HostStatus → String
health_of host =
    if host.eds_health_status == some "HEALTHY"
    then "up"
    else if host.eds_health_status == some "UNHEALTHY"
    then "down"
    else "unknown"

-- The first host that matches, over all clusters of the service.
unfoldable pub host_health : String → List HostStatus → Option String
unfolding is_backend health_of
host_health backend_id [] = none
host_health backend_id (host ∷ hosts) =
    let rest = host_health backend_id hosts in
    if is_backend backend_id host then some (health_of host) else rest

unfoldable pub cluster_health : String → String → List ClusterStatus → String
unfolding host_health
cluster_health service_id backend_id [] = "unknown"
cluster_health service_id backend_id (cluster ∷ clusters) =
    let rest = cluster_health service_id backend_id clusters in
    if cluster.name == some service_id
    then elim (host_health backend_id cluster.host_statuses) [ none ↦ rest | some health ↦ health ]
    else rest

-- `scraped` is what `_scrape_clusters_json` gives, unless it raises.
unfoldable pub get_backend_health : Option (List ClusterStatus) → String → String → String
unfolding cluster_health
get_backend_health none service_id backend_id = "unknown"
get_backend_health (some clusters) service_id backend_id =
    cluster_health service_id backend_id clusters

abbrev is_nonempty : List Entry → Bool
is_nonempty [] = false
is_nonempty (e ∷ entries) = true

-- `apply_config`: the catalog and the cache after it. What the registration raises is logged; `cur`
-- is the worker's boot id and `response` its answer, if it is asked.
unfoldable pub apply_config :
    Nonce
    → Option String
    → Response
    → String
    → List AttachedService
    → State × Registered
    → State × Registered
unfolding prefix_of drop_prefix publish entries_for ensure_registered
apply_config nonce cur response netns_name services (catalog, r) =
    let network_id = drop_prefix netns_prefix netns_name in
    let entries = entries_for network_id nonce services in
    let r' = if is_nonempty entries then (ensure_registered cur network_id response r).1 else r in
    if prefix_of netns_prefix netns_name
    then (publish network_id entries catalog, r')
    else (catalog, r)

-- `teardown`: the nonce file goes too.
unfoldable pub teardown : Response → String → State × Registered → State × Registered
unfolding prefix_of drop_prefix publish ensure_deregistered
teardown response netns_name (catalog, r) =
    let network_id = drop_prefix netns_prefix netns_name in
    if prefix_of netns_prefix netns_name
    then (publish network_id [] catalog, (ensure_deregistered network_id response r).1)
    else (catalog, r)
