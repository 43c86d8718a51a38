-- ===== src/CorePlugin.antt =====
-- Neutron's core plugin and the constants of its OVN driver, which are not part of this
-- repository: the operations that the code calls, over an unknown state. A call that raises gives
-- the exception and leaves whatever state it leaves.
use neutron_local_services_p.Base.{String, Bool, Option, List}
use neutron_local_services_p.Records.{Port, Subnet, Route}
use neutron_local_services_p.Errors.{Result}

-- `filters={'network_id': [..], 'device_owner': [..], 'device_id': [..]}`
pub record PortFilter : Type 0 where
  pub network_id : String
  pub device_owner : String
  pub device_id : String

pub record PortBody : Type 0 where
  pub network_id : String
  pub project_id : String
  pub device_owner : String
  pub device_id : String
  pub subnet_id : Option String
  pub admin_state_up : Bool
  pub name : String
  pub port_security_enabled : Bool

pub record Network : Type 0 where
  pub id : String
  pub project_id : Option String
  pub tenant_id : Option String

pub record CorePlugin : Type 1 where
  pub State : Type 0
  pub get_network : State → String → Result Network
  pub get_networks : State → Result (List (Option String))
  pub get_ports : State → PortFilter → List Port
  pub get_subnets : State → String → Result (List Subnet)
  pub create_port : State → PortBody → Result Port × State
  pub delete_port : State → String → Result (Unit {0}) × State
  -- `update_subnet(context, id, {'subnet': {'host_routes': ..}})`
  pub update_subnet : State → Option String → List Route → Result (Unit {0}) × State

-- `neutron.common.ovn.constants`
pub record OvnConstants : Type 0 where
  pub lb_hm_port_distributed : String
  pub lsp_type_localport : String
