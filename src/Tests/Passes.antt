-- ===== src/Tests/Passes.antt =====
-- Passes of the agent over one network, with a log as the world.
use neutron_local_services_p.Base.{true, String, ◌≡◌, refl, List, [], ◌∷◌, ◌++◌, string_eq}
use neutron_local_services_p.Records.{AttachedService}
use neutron_local_services_p.Registry.{got, fetch_error}
use neutron_local_services_p.Extension.{Effects, reconcile_network}
use neutron_local_services_p.Extension.LastKnownGood.{
  Event, pass, after, fallback, last_good, failed_fetch_falls_back,
}
use neutron_local_services_p.Tests.{service, backend}

abbrev log : Effects
log = record {
  World = List String;
  reconcile_vips = λ n vips w. w ++ vips;
  apply_config = λ name ns services w. w ++ name ∷ ns ∷ [];
  reconcile_acl = λ n services w. w ++ n ∷ [];
}

abbrev web : AttachedService
web = record {
  service = service "s1" "opt-in" "169.254.169.5";
  backends = backend "e1" "s1" true ∷ [];
}

abbrev plugins : List String
plugins = "nat" ∷ "proxy" ∷ []

-- One good fetch, and then one that fails.
abbrev past : List Event
past = pass 2 "net-1" fetch_error ∷ pass 1 "net-1" (got (web ∷ [])) ∷ []

failed_fetch_falls_back_example :
    reconcile_network log plugins 3 "net-1" fetch_error (after log plugins [] past)
    ≡ fallback log plugins [] past "net-1" (last_good past "net-1")
failed_fetch_falls_back_example = failed_fetch_falls_back log plugins [] past 3 "net-1" refl
