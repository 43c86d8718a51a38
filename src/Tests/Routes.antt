-- ===== src/Tests/Routes.antt =====
-- Host routes at a concrete subnet.
use neutron_local_services_p.Base.Text.{substring_of}
use neutron_local_services_p.Localport.{find_port}
use neutron_local_services_p.Base.{
  filter, find?, ℕ, ◌≡◌, refl, true, false, none, some, List, [], ◌∷◌, string_eq, nat_eq, option_eq,
  any, All,
}
use neutron_local_services_p.Base.Sets.{by_insertion}
use neutron_local_services_p.Records.{Port, Route, Subnet, route_eq}
use neutron_local_services_p.Db.Tables.{admin}
use neutron_local_services_p.HostRoutes.{
  pair_eq, compute_service_routes, subnet_network, localport_ipv4_in_subnet,
}
use neutron_local_services_p.HostRoutes.Handler.{inject, on_before_update, routes_in}
use neutron_local_services_p.HostRoutes.Handler.Overlap.{
  is_on_subnet, LeadsToOne, compute_service_routes_lead,
}
use neutron_local_services_p.HostRoutes.Handler.Injection.{
  Carries, computed_routes, on_before_update-Carries,
}
use neutron_local_services_p.Tests.{
  sample_netaddr, sample_ovn, sample_core, sample_ports, sample, subnet, route,
}

abbrev tenant : List Route
tenant = route "203.0.113.0/24" "10.0.0.9" ∷ route "169.254.169.9/32" "10.0.0.2" ∷ []

abbrev computed : List Route
computed = route "169.254.169.5/32" "10.0.0.2" ∷ []

abbrev low_net : ℕ × ℕ
low_net = (1000, 1255)

abbrev sample_port : Port
sample_port = record {
  id = "port-1";
  network_id = some "net-1";
  device_owner = some "ovn-lb-hm:distributed";
  device_id = some "ovn-lb-hm-localsvc-net-1";
  fixed_ips = record { subnet_id = some "sub-1"; ip_address = some "10.0.0.2" } ∷ [];
}

compute_service_routes_lead_example :
    (any (is_on_subnet (some "sub-1") "10.0.0.2") sample_port.fixed_ips ≡ true)
    × All
        (LeadsToOne sample_netaddr low_net "10.0.0.2" sample.services)
        (compute_service_routes sample_netaddr sample_ovn sample_core sample_ports "net-1"
          (subnet none)
          sample.services).0
unfolding find_port find? filter option_eq string_eq substring_of nat_eq localport_ipv4_in_subnet
    subnet_network
compute_service_routes_lead_example =
    compute_service_routes_lead sample_netaddr sample_ovn sample_core sample_ports "net-1"
      (subnet none) sample.services sample_port "10.0.0.2" low_net refl refl refl

-- A tenant that clears the routes of its subnet.
abbrev clearing : Subnet
clearing = record {
  id = none;
  network_id = none;
  cidr = none;
  ip_version = none;
  enable_dhcp = false;
  host_routes = some [];
}

result : Subnet
unfolding inject
result =
    inject sample_netaddr sample_ovn sample_core by_insertion sample_ports sample admin
      (subnet none) clearing

on_before_update-Carries_example :
    Carries
      (computed_routes sample_netaddr sample_ovn sample_core by_insertion sample_ports sample admin
        "net-1"
        (subnet none)
        clearing)
      (routes_in result.host_routes)
unfolding result on_before_update
on_before_update-Carries_example =
    on_before_update-Carries sample_netaddr sample_ovn sample_core by_insertion sample_ports sample
      admin true (subnet none) clearing result "net-1" refl refl refl
