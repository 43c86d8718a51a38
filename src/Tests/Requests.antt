-- ===== src/Tests/Requests.antt =====
-- The server plugin at a network with one subnet and a localport.
use neutron_local_services_p.Db.Vip.{
  validate_vip, validate_address, is_junk, ip_in_any_cidr, has_vip, validate_service_payload,
}
use neutron_local_services_p.Db.Rows.{replace, remove, by_key}
use neutron_local_services_p.Base.Text.{substring_of, prefix_of}
use neutron_local_services_p.Base.Sorting.{sort, insert}
use neutron_local_services_p.Base.Orders.{text_le, pair_order}
use neutron_local_services_p.HostRoutes.Effective.{
  implicit_loop, explicit_loop, excluded_ids, enabled_ids, attach_implicit, attach_explicit,
  enabled_services_for_network,
}
use neutron_local_services_p.Base.{
  String-discrete, ℕ_discrete, dedup, filter, find?, String, ◌≡◌, refl, ap, Bool-cases, inl, inr, ℕ,
  zero, suc, ◌==◌, false, true, false, not, none, some, List, [], ◌∷◌, string_eq, nat_eq, option_eq,
  any, ◌⊎◌,
}
use neutron_local_services_p.Base.Sets.{by_insertion}
use neutron_local_services_p.Records.{Port, Subnet, Binding}
use neutron_local_services_p.Errors.{Result, ok, err, lsp_verify, core_plugin_error}
use neutron_local_services_p.CorePlugin.{CorePlugin, PortFilter}
use neutron_local_services_p.Db.Tables.{
  port_in_range, same_project_name, service_passes, get_binding, binding_passes,
  get_local_service_bindings, get_local_services, same_service_network, get_service, Tables, admin,
  bool_eq,
}
use neutron_local_services_p.Db.Services.{
  check_service, apply_patch, ServicePatch, touches_vip, get_local_service,
}
use neutron_local_services_p.Db.Bindings.{
  new_binding, delete_local_service_binding, check_binding, BindingBody,
}
use neutron_local_services_p.Localport.{
  prefer, port_body, pick_subnet, maybe_remove_localport, is_our_port, device_id_for,
  create_localport, find_port,
}
use neutron_local_services_p.HostRoutes.{
  pairs_eq, surviving, service_routes, service_route, routes_via, routes_of, norm,
  localport_ipv4_in_subnet, is_published, ipv4_among, complete_pairs, covers, subnet_network,
  compute_service_routes, merge, routes_equal,
}
use neutron_local_services_p.Localport.Verify.{Lookup, verify_rounds, row, missing, verify_lsp_type}
use neutron_local_services_p.Plugin.{
  refuse_vips_overlap_network, refuse_subnets, refuse_inside, refuse_any, parse_vips, parse_vip,
  refuse_vip_subnet_overlap, service_vips,
}
use neutron_local_services_p.Plugin.Refusal.{returns, holds_vip, refuse_vip_subnet_overlap-returns}
use neutron_local_services_p.Plugin.Reconcile.{
  withdraw, verified, refresh_subnets, refresh_subnet_routes, refresh_subnet, reconcile_network,
  provide, MechDriver, ensure_localport, reconcile_services,
}
use neutron_local_services_p.Plugin.Reconcile.Rollback.{ensure_localport-judged}
use neutron_local_services_p.Plugin.Reconcile.Settled.{all_taken}
use neutron_local_services_p.Plugin.Reconcile.Taken.{TakesUpdates, with_routes}
use neutron_local_services_p.Plugin.Reconcile.Steady.{reconcile_services_steady}
use neutron_local_services_p.Plugin.Requests.{
  refuse_new_vips, refuse_networks, refuse_candidates, roll_back, created,
  create_local_service_binding, update_local_service, enabled_bindings,
}
use neutron_local_services_p.Plugin.Requests.Outcomes.{
  create_binding_outcomes, IsCreated, IsRefused, create_binding_failed, create_binding_off_link,
}
use neutron_local_services_p.Plugin.Requests.VipChange.{network_holds, update_service_off_link}
use neutron_local_services_p.Tests.{
  sample_netaddr, sample_ovn, sample_core, sample_ports, sample_options, sample, service, binding,
  subnet, route,
}

abbrev lan_subnet : Subnet
lan_subnet = subnet (some (route "169.254.169.5/32" "10.0.0.2" ∷ []))

-- Every network has the subnet of `subnet`, with the route to the VIP of service s1.
abbrev lan : CorePlugin
lan = record sample_core { get_subnets = λ ports id. ok (lan_subnet ∷ []) }

abbrev no_driver : MechDriver (List Port)
no_driver = record { available = false; retries = 3; lookup = λ ports id i. missing }

abbrev body : String → BindingBody
body network_id = record {
  project_id = some "p";
  service_id = "s2";
  network_id = network_id;
  enabled = none;
}

abbrev local_port : Port
local_port = record {
  id = "port-1";
  network_id = some "net-1";
  device_owner = some "ovn-lb-hm:distributed";
  device_id = some "ovn-lb-hm-localsvc-net-1";
  fixed_ips = record { subnet_id = some "sub-1"; ip_address = some "10.0.0.2" } ∷ [];
}

refuse_vip_subnet_overlap-returns_example :
    returns (refuse_vip_subnet_overlap sample_netaddr lan sample_ports sample "s3" "net-1")
    ≡ not (any (holds_vip sample_netaddr (service "s3" "opt-out" "10.0.0.5")) (lan_subnet ∷ []))
unfolding get_local_service service_vips string_eq get_service find?
refuse_vip_subnet_overlap-returns_example =
    refuse_vip_subnet_overlap-returns sample_netaddr lan sample_ports sample "s3" "net-1"
      (service "s3" "opt-out" "10.0.0.5") (1005 ∷ []) (lan_subnet ∷ []) refl refl refl

-- The core plugin cannot create a localport on net-2.
create_binding_failed_example :
    (create_local_service_binding sample_netaddr sample_ovn lan no_driver by_insertion admin "b9"
      (body "net-2")
      sample
      sample_ports).1.0
    ≡ sample
unfolding create_local_service_binding string_eq refuse_vip_subnet_overlap get_local_service
    get_service find? subnet_network covers nat_eq
    neutron_local_services_p.Db.Bindings.create_local_service_binding any same_service_network
    enabled_services_for_network get_local_services filter option_eq bool_eq
    get_local_service_bindings dedup neutron_local_services_p.Localport.ensure_localport pick_subnet
create_binding_failed_example =
    create_binding_failed sample_netaddr sample_ovn lan no_driver by_insertion admin "b9"
      (body "net-2") sample sample_ports core_plugin_error refl refl

abbrev made : Binding
made = binding "b9" "s2" true

create_binding_off_link_example :
    any (holds_vip sample_netaddr (service "s2" "opt-out" "169.254.169.6")) (lan_subnet ∷ [])
    ≡ false
unfolding create_local_service_binding get_local_service string_eq refuse_vip_subnet_overlap
    get_service find? subnet_network covers nat_eq
    neutron_local_services_p.Db.Bindings.create_local_service_binding any same_service_network
    enabled_services_for_network get_local_services filter option_eq bool_eq
    get_local_service_bindings dedup neutron_local_services_p.Localport.ensure_localport ℕ_discrete
    String-discrete pair_order text_le insert sort prefix_of substring_of check_binding
    delete_local_service_binding new_binding by_key remove binding_passes get_binding service_passes
    attach_explicit attach_implicit enabled_ids excluded_ids explicit_loop implicit_loop
    complete_pairs compute_service_routes ipv4_among is_published localport_ipv4_in_subnet merge
    norm routes_equal routes_of routes_via service_route service_routes surviving verify_lsp_type
    verify_rounds create_localport device_id_for find_port is_our_port maybe_remove_localport
    pick_subnet port_body prefer ensure_localport
    neutron_local_services_p.Plugin.Reconcile.maybe_remove_localport provide reconcile_network
    reconcile_services refresh_subnet refresh_subnet_routes refresh_subnets verified withdraw
    created roll_back parse_vip parse_vips refuse_any refuse_inside refuse_subnets
    refuse_vips_overlap_network service_vips
create_binding_off_link_example =
    create_binding_off_link sample_netaddr sample_ovn lan no_driver by_insertion admin "b9"
      (body "net-1") sample sample_ports made (service "s2" "opt-out" "169.254.169.6")
      (lan_subnet ∷ []) refl refl refl refl

create_binding_outcomes_example :
    IsRefused sample_netaddr sample_ovn lan no_driver by_insertion admin "b9"
      (body "net-1")
      sample
      sample_ports
    ⊎ IsCreated sample_netaddr sample_ovn lan no_driver by_insertion admin "b9"
        (body "net-1")
        sample
        sample_ports
unfolding string_eq
create_binding_outcomes_example =
    create_binding_outcomes sample_netaddr sample_ovn lan no_driver by_insertion admin "b9"
      (body "net-1") sample sample_ports refl

-- A core plugin that keeps the subnets of net-1, which has a localport.
abbrev keeping : CorePlugin
keeping = record {
  State = List Subnet;
  get_network = λ s id. ok (record { id = id; project_id = some "p"; tenant_id = none });
  get_networks = λ s. ok [];
  get_ports = λ s f. sample_ports;
  get_subnets = λ s id. ok s;
  create_port = λ s body. (err core_plugin_error, s);
  delete_port = λ s id. (ok tt, s);
  update_subnet = λ s id routes. (ok tt, with_routes id routes s);
}

abbrev idle_driver : MechDriver (List Subnet)
idle_driver = record { available = false; retries = 3; lookup = λ s id i. missing }

abbrev when_listed : Result (List Subnet) → (List Subnet → List Subnet) → Result (List Subnet)
when_listed (err e) f = err e
when_listed (ok subnets) f = ok (f subnets)

keeping-TakesUpdates : TakesUpdates keeping idle_driver "net-1"
keeping-TakesUpdates = record {
  read_back = λ s id routes subnets h. ap (λ r. when_listed r (with_routes id routes)) h;
  keeps_ports = λ s id routes. refl;
  keeps_network = λ s id routes. refl;
  keeps_rows = λ s id routes. refl;
}

-- The first subnet gets its route in the first pass, the second one is of another family.
abbrev unrefreshed : List Subnet
unrefreshed = subnet none ∷ record (subnet none) { id = some "sub-6"; ip_version = some 6 } ∷ []

abbrev after_pass : List Subnet
after_pass =
    (reconcile_services sample_netaddr sample_ovn keeping idle_driver
      (service "s1" "opt-in" "169.254.169.5" ∷ []) "net-1" unrefreshed).1

reconcile_services_steady_example :
    (keeping.get_subnets after_pass "net-1"
      ≡ ok (
          all_taken sample_netaddr sample_ovn keeping "net-1"
            (service "s1" "opt-in" "169.254.169.5" ∷ [])
            unrefreshed
            unrefreshed))
    × (reconcile_services sample_netaddr sample_ovn keeping idle_driver
          (service "s1" "opt-in" "169.254.169.5" ∷ [])
          "net-1"
          after_pass
        ≡ (ok tt, after_pass))
unfolding find_port string_eq verify_lsp_type option_eq nat_eq find? filter substring_of
reconcile_services_steady_example =
    reconcile_services_steady sample_netaddr sample_ovn keeping idle_driver "net-1"
      (service "s1" "opt-in" "169.254.169.5") [] keeping-TakesUpdates unrefreshed
      (record { id = "net-1"; project_id = some "p"; tenant_id = none }) local_port none unrefreshed
      refl refl refl refl refl refl

-- A core plugin that creates and deletes ports, with no port at the start.
abbrev creating : CorePlugin
creating = record {
  State = List Port;
  get_network = λ ports id. ok (record { id = id; project_id = some "p"; tenant_id = none });
  get_networks = λ ports. ok [];
  get_ports = λ ports f. ports;
  get_subnets = λ ports id. ok (lan_subnet ∷ []);
  create_port = λ ports body. (ok local_port, local_port ∷ ports);
  delete_port = λ ports id. (ok tt, filter (λ p. not (p.id == id)) ports);
  update_subnet = λ ports id routes. (ok tt, ports);
}

creating-gone :
    (id : String) (ports : List Port)
    → any (λ p. p.id == id) (filter (λ p. not (p.id == id)) ports) ≡ false
unfolding any filter
creating-gone id [] = refl
creating-gone id (port ∷ ports) = elim (Bool-cases (port.id == id)) [
  | inl e ↦ rw e (creating-gone id ports)
  | inr e ↦ rw (e, e) (creating-gone id ports)
]

-- OVN shows no row in the first round and a plain port from the second on.
abbrev plain_round : ℕ → Lookup
plain_round zero = missing
plain_round (suc i) = row none

abbrev plain_driver : MechDriver (List Port)
plain_driver = record { available = true; retries = 3; lookup = λ ports id i. plain_round i }

abbrev every_port : PortFilter
every_port = record { network_id = "net-1"; device_owner = ""; device_id = "" }

ensure_localport-judged_example :
    let result = ensure_localport sample_netaddr sample_ovn creating plain_driver "net-1" [] in
    (result.0 ≡ err (lsp_verify ""))
    × (any (λ p. p.id == "port-1") (creating.get_ports result.1 every_port) ≡ false)
unfolding neutron_local_services_p.Localport.ensure_localport find_port create_localport pick_subnet
    prefer filter find? string_eq option_eq nat_eq port_body any
ensure_localport-judged_example =
    ensure_localport-judged sample_netaddr sample_ovn creating plain_driver
      (record { gone = λ s id f. creating-gone id s }) "net-1" [] (local_port ∷ [])
      (record { id = "net-1"; project_id = some "p"; tenant_id = none }) local_port every_port refl
      refl

-- Service s1 is moved to the VIP of s2.
abbrev moved : ServicePatch
moved = record {
  name = none;
  description = none;
  local_ipv4 = some (some "169.254.169.6");
  local_ipv6 = none;
  attachment_policy = none;
  distribution_policy = none;
  health_check_type = none;
  health_check_config = none;
  enabled = none;
}

abbrev moved_tables : Tables
moved_tables = record sample {
  services =
      service "s1" "opt-in" "169.254.169.6"
      ∷ service "s2" "opt-out" "169.254.169.6"
      ∷ service "s3" "opt-out" "10.0.0.5"
      ∷ [];
}

update_service_off_link_example :
    any
      (network_holds sample_netaddr lan sample_ports (service "s1" "opt-in" "169.254.169.6"))
      (enabled_bindings sample_netaddr lan sample_ports sample admin "s1")
    ≡ false
unfolding update_local_service touches_vip string_eq bool_eq option_eq get_local_service get_service
    find? parse_vips get_local_service_bindings filter refuse_vips_overlap_network subnet_network
    covers nat_eq neutron_local_services_p.Db.Services.update_local_service validate_service_payload
    any remove same_project_name port_in_range replace ℕ_discrete String-discrete by_key apply_patch
    check_service binding_passes has_vip ip_in_any_cidr is_junk validate_address validate_vip
    refuse_candidates refuse_networks refuse_new_vips parse_vip refuse_inside refuse_subnets
update_service_off_link_example =
    update_service_off_link sample_netaddr lan sample_ports sample_options admin "s1" moved sample
      moved_tables (service "s1" "opt-in" "169.254.169.6") refl refl
