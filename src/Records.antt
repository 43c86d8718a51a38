-- ===== src/Records.antt =====
-- The dicts that the plugin, the API and the agent pass around: the rows of db/models.py as
-- `_make_service_dict` and its companions of db/local_services_db.py lay them out, and Neutron's
-- ports and subnets as far as the code reads them. A key that may be missing or null is an `Option`.
use neutron_local_services_p.Base.{ℕ, String, Bool, Option, List, Eq, option_eq, string_eq}
use neutron_local_services_p.Base.{String-discrete}

pub record Service : Type 0 where
  pub id : String
  pub project_id : Option String
  pub name : String
  pub description : Option String
  pub local_ipv4 : Option String
  pub local_ipv6 : Option String
  pub protocol : Option String
  pub port : Option ℕ
  pub attachment_policy : Option String
  pub distribution_policy : Option String
  pub exposure_plugin : Option String
  pub health_check_type : Option String
  pub health_check_config : Option String
  pub enabled : Option Bool

pub record Backend : Type 0 where
  pub id : String
  pub service_id : String
  pub name : String
  pub availability_zone : Option String
  pub weight : Option ℕ
  pub address : Option String
  pub port : Option ℕ
  pub health_check_address : Option String
  pub health_check_port : Option ℕ
  pub enabled : Option Bool

pub record Binding : Type 0 where
  pub id : String
  pub project_id : Option String
  pub service_id : String
  pub network_id : String
  pub enabled : Option Bool

-- A service with the `backends` key that the agent's registry client adds.
pub record AttachedService : Type 0 where
  pub service : Service
  pub open service use *
  pub backends : List Backend

-- One entry of a subnet's `host_routes`.
pub record Route : Type 0 where
  pub destination : Option String
  pub nexthop : Option String

Route-discrete : Discrete Route
Route-discrete = hlevel String-discrete

instance pub route_eq : Eq Route
route_eq = record { dec = Route-discrete }

pub record FixedIp : Type 0 where
  pub subnet_id : Option String
  pub ip_address : Option String

pub record Port : Type 0 where
  pub id : String
  pub network_id : Option String
  pub device_owner : Option String
  pub device_id : Option String
  pub fixed_ips : List FixedIp

-- `host_routes` is `none` where the key is missing; a null there reads as the empty list.
pub record Subnet : Type 0 where
  pub id : Option String
  pub network_id : Option String
  pub cidr : Option String
  pub ip_version : Option ℕ
  pub enable_dhcp : Bool
  pub host_routes : Option (List Route)
