-- ===== src/Tests.antt =====
-- Concrete data for the tests: a small `netaddr`, a core plugin over a list of ports, and rows.
pub mod Database
pub mod Schema
pub mod Routes
pub mod Agent
pub mod Namespace
pub mod Orphans
pub mod Commands
pub mod Passes
pub mod Provisioning
pub mod Requests
pub mod Events
pub mod Proxies
pub mod Registration
pub mod Health
pub mod Firewall
pub mod Keepalived
pub mod Locks
use neutron_local_services_p.Base.{
  ℕ, String, Bool, true, false, ◌&&◌, Option, none, some, List, [], ◌∷◌, ◌==◌, string_eq, nat_eq,
  option_eq, if◌then◌else◌, filter, leb,
}
use neutron_local_services_p.Records.{Service, Backend, Binding, Port, Subnet, Route}
use neutron_local_services_p.Netaddr.{Netaddr}
use neutron_local_services_p.Errors.{ok, err, core_plugin_error}
use neutron_local_services_p.CorePlugin.{CorePlugin, OvnConstants}
use neutron_local_services_p.Db.Tables.{Tables}
use neutron_local_services_p.Db.Vip.{VipOptions}

abbrev parse_sample : String → Option ℕ
parse_sample s =
    if s == "10.0.0.5"
    then some 1005
    else if s == "169.254.169.5"
    then some 2005
    else if s == "169.254.169.6"
    then some 2006
    else none

abbrev parse_range : String → Option (ℕ × ℕ)
parse_range s =
    if s == "10.0.0.0/24"
    then some (1000, 1255)
    else if s == "169.254.169.0/24"
    then some (2000, 2255)
    else none

abbrev pub sample_netaddr : Netaddr
sample_netaddr = record {
  Address = ℕ;
  Network = ℕ × ℕ;
  parse_address = parse_sample;
  parse_network = parse_range;
  address_version = λ _. 4;
  network_version = λ _. 4;
  within = λ ip net. leb net.0 ip && leb ip net.1;
  value = λ ip. ip;
  print_address = λ _. "";
  is_loopback = λ _. false;
  is_multicast = λ _. false;
  is_reserved = λ _. false;
  is_netmask = λ _. false;
  is_hostmask = λ _. false;
}

abbrev pub sample_ovn : OvnConstants
sample_ovn = record {
  lb_hm_port_distributed = "ovn-lb-hm:distributed";
  lsp_type_localport = "localport";
}

abbrev pub sample_core : CorePlugin
sample_core = record {
  State = List Port;
  get_network = λ ports id. ok (record { id = id; project_id = some "p"; tenant_id = none });
  get_networks = λ ports. ok [];
  get_ports = λ ports f. filter (λ p. p.device_id == some f.device_id) ports;
  get_subnets = λ ports id. ok [];
  create_port = λ ports body. (err core_plugin_error, ports);
  delete_port = λ ports id. (ok tt, filter (λ p. p.id == id) ports);
  update_subnet = λ ports id routes. (ok tt, ports);
}

abbrev pub sample_ports : List Port
sample_ports =
    record {
      id = "port-1";
      network_id = some "net-1";
      device_owner = some "ovn-lb-hm:distributed";
      device_id = some "ovn-lb-hm-localsvc-net-1";
      fixed_ips = record { subnet_id = some "sub-1"; ip_address = some "10.0.0.2" } ∷ [];
    }
    ∷ []

abbrev pub sample_options : VipOptions
sample_options = record { allowed_vip_cidrs = "169.254.169.0/24" ∷ []; vip_denylist = [] }

abbrev pub service : String → String → String → Service
service id policy vip = record {
  id = id;
  project_id = some "p";
  name = id;
  description = none;
  local_ipv4 = some vip;
  local_ipv6 = none;
  protocol = some "tcp";
  port = some 80;
  attachment_policy = some policy;
  distribution_policy = some "round-robin";
  exposure_plugin = some "nat";
  health_check_type = some "none";
  health_check_config = none;
  enabled = some true;
}

abbrev pub backend : String → String → Bool → Backend
backend id service_id enabled = record {
  id = id;
  service_id = service_id;
  name = id;
  availability_zone = none;
  weight = none;
  address = some "192.0.2.1";
  port = some 8080;
  health_check_address = none;
  health_check_port = none;
  enabled = some enabled;
}

abbrev pub binding : String → String → Bool → Binding
binding id service_id enabled = record {
  id = id;
  project_id = some "p";
  service_id = service_id;
  network_id = "net-1";
  enabled = some enabled;
}

-- Service s1 is bound to net-1; s2 and s3 are opt-out, and net-1 has opted out of s3.
abbrev pub sample : Tables
sample = record {
  services =
      service "s1" "opt-in" "169.254.169.5"
      ∷ service "s2" "opt-out" "169.254.169.6"
      ∷ service "s3" "opt-out" "10.0.0.5"
      ∷ [];
  backends = backend "e1" "s1" true ∷ backend "e2" "s1" false ∷ backend "e3" "s2" true ∷ [];
  bindings = binding "b1" "s1" true ∷ binding "b2" "s3" false ∷ [];
}

abbrev pub subnet : Option (List Route) → Subnet
subnet routes = record {
  id = some "sub-1";
  network_id = some "net-1";
  cidr = some "10.0.0.0/24";
  ip_version = some 4;
  enable_dhcp = true;
  host_routes = routes;
}

abbrev pub route : String → String → Route
route destination nexthop = record { destination = some destination; nexthop = some nexthop }
