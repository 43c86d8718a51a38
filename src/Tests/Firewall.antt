-- ===== src/Tests/Firewall.antt =====
-- The destination ACL on a kernel that keeps the rules of one chain.
use neutron_local_services_p.Base.{
  option_eq, String, refl, Bool, true, false, List, [], ◌∷◌, ◌++◌, ◌==◌, string_eq, nat_eq,
  if◌then◌else◌, arith,
}
use neutron_local_services_p.Records.{AttachedService}
use neutron_local_services_p.Underlay.Names.{per_net_chain_name}
use neutron_local_services_p.Underlay.Endpoints.{Endpoint, backend_endpoints}
use neutron_local_services_p.Underlay.Firewall.{
  Kernel, added, sorted_set, reconcile_destination_acl, ensure_chain,
}
use neutron_local_services_p.Underlay.Firewall.Acl.{
  IsIptables, IsRefilled, reconcile_destination_acl-IsRefilled,
}
use neutron_local_services_p.Tests.{service, backend}

abbrev run_rules : List String → List (List String) → Bool × List (List String)
run_rules (a ∷ b ∷ c ∷ mode ∷ chain ∷ args) s =
    if mode == "-A" then (true, s ++ args ∷ []) else if mode == "-F" then (true, []) else (true, s)
run_rules _ s = (true, s)

abbrev pub one_chain : Kernel
one_chain = record {
  State = List (List String);
  run = λ netns cmd s. run_rules cmd s;
  namespace_exists = λ name s. true;
  device_exists = λ name netns s. true;
  add_veth = λ a b ns s. (true, s);
  del_veth = λ a s. (true, s);
  set_up = λ name netns s. (true, s);
  addresses = λ name netns s. [];
  add_address = λ name netns cidr s. (added, s);
}

abbrev rules_of : String → List (List String) → List (List String)
rules_of chain s = s

one_chain-IsIptables : IsIptables one_chain rules_of
unfolding string_eq
one_chain-IsIptables = record {
  appended = λ chain args s h. refl;
  not_appended = λ chain args s h. absurd (ground arith);
  flushed = λ chain s h. refl;
}

abbrev web : AttachedService
web = record {
  service = service "s1" "opt-in" "169.254.169.5";
  backends = backend "e1" "s1" true ∷ backend "e2" "s1" false ∷ [];
}

abbrev web_endpoint : Endpoint
web_endpoint = ("tcp", ("192.0.2.1", 8080))

reconcile_destination_acl_example :
    IsRefilled one_chain rules_of one_chain-IsIptables
      (per_net_chain_name "net-1")
      (sorted_set (web_endpoint ∷ []))
      (reconcile_destination_acl one_chain "net-1" (web ∷ []) (("-j" ∷ "DROP" ∷ []) ∷ []))
unfolding string_eq backend_endpoints nat_eq option_eq ensure_chain
reconcile_destination_acl_example =
    reconcile_destination_acl-IsRefilled one_chain rules_of one_chain-IsIptables "net-1" (web ∷ [])
      (web_endpoint ∷ []) (("-j" ∷ "DROP" ∷ []) ∷ []) refl refl refl
