-- ===== src/Tests/Health.antt =====
-- The health of one backend that two networks reach.
use neutron_local_services_p.Base.{
  find?, ◌≡◌, refl, true, Option, some, List, [], ◌∷◌, ◌++◌, ◌==◌, string_eq, nat_eq, filter, find?,
  if◌then◌else◌,
}
use neutron_local_services_p.Base.Text.{decimal}
use neutron_local_services_p.Records.{AttachedService}
use neutron_local_services_p.Proxy.{Nonce, Entry, entries_for}
use neutron_local_services_p.Proxy.Worker.{get_backend_health}
use neutron_local_services_p.Proxy.Worker.Health.{BackendId, Status, up, down, clusters}
use neutron_local_services_p.Proxy.Worker.Health.Reported.{get_backend_health-first}
use neutron_local_services_p.Tests.{service, backend}

abbrev web : AttachedService
web = record {
  service = service "s1" "opt-in" "169.254.169.5";
  backends = backend "e1" "s1" true ∷ [];
}

abbrev nonce : Nonce
nonce = record { path = "nonces/net"; contents = "abc" }

abbrev catalog : List Entry
catalog = entries_for "net-1" nonce (web ∷ []) ++ entries_for "net-2" nonce (web ∷ [])

abbrev probed : BackendId → Option Status
probed id = if id.net_id == "net-1" then some down else some up

-- The answer is that of net-1, for whichever network it is asked.
get_backend_health-first_example :
    get_backend_health (some (clusters (λ a. a) probed catalog ("s1" ∷ []))) "s1" "192.0.2.1:8080"
    ≡ "down"
unfolding string_eq nat_eq find? filter decimal entries_for clusters get_backend_health
get_backend_health-first_example =
    get_backend_health-first (λ a. a) probed catalog ("s1" ∷ []) "s1" "192.0.2.1:8080" (refl, tt)
      refl
