-- ===== src/Localport.antt =====
-- ovn/localport.py: the one port per network that OVN turns into a localport.
pub mod Verify
use neutron_local_services_p.Base.{
  ℕ, zero, suc, String, ◌<>◌, Bool, true, false, ◌&&◌, Option, none, some, List, [], ◌∷◌, ◌==◌,
  nat_eq, string_eq, option_eq, if◌then◌else◌, filter, find?, truthy, or_else,
}
use neutron_local_services_p.Base.Text.{substring_of}
use neutron_local_services_p.Constants.{device_id_prefix, device_id_marker}
use neutron_local_services_p.Records.{Port, Subnet}
use neutron_local_services_p.Errors.{Result, ok, err, invalid_input, lsp_verify}
use neutron_local_services_p.CorePlugin.{CorePlugin, OvnConstants, PortBody, Network}

unfoldable pub device_id_for : String → String
device_id_for network_id = device_id_prefix <> network_id

-- `port.get('device_id') or ''`
abbrev text_of : Option String → String
text_of none = ""
text_of (some s) = s

module _ (O : OvnConstants) where
  unfoldable pub is_our_port : Port → Bool
  is_our_port port =
      port.device_owner == some O.lb_hm_port_distributed
      && substring_of device_id_marker (text_of port.device_id)

  module _ (C : CorePlugin) where
    unfoldable pub find_port : String → C.State → Option Port
    unfolding is_our_port device_id_for
    find_port network_id s = find? is_our_port (
        C.get_ports s (record {
          network_id = network_id;
          device_owner = O.lb_hm_port_distributed;
          device_id = device_id_for network_id;
        }))

-- The first of the subnets that serve DHCP, or the first of all.
unfoldable pub prefer : List Subnet → List Subnet → Option Subnet
prefer ipv4 (s ∷ dhcp) = some s
prefer [] [] = none
prefer (s ∷ ipv4) [] = some s

unfoldable pub pick_subnet : List Subnet → Option Subnet
unfolding prefer
pick_subnet subnets =
    let ipv4 = filter (λ s. s.ip_version == some 4) subnets in
    prefer ipv4 (filter (λ s. s.enable_dhcp) ipv4)

unfoldable pub port_body : String → Network → Subnet → OvnConstants → PortBody
port_body network_id network subnet O = record {
  network_id = network_id;
  project_id = text_of (or_else (truthy network.project_id) (truthy network.tenant_id));
  device_owner = O.lb_hm_port_distributed;
  device_id = device_id_for network_id;
  subnet_id = subnet.id;
  admin_state_up = true;
  name = "local-services-localport-" <> network_id;
  port_security_enabled = false;
}

module _ (O : OvnConstants) (C : CorePlugin) where
  -- Without a port of ours: one in the subnet that was picked, or the error if there is none.
  unfoldable pub create_localport : Network → Result (List Subnet) → C.State → Result Port × C.State
  create_localport network (err e) s = (err e, s)
  create_localport network (ok subnets) s = elim (pick_subnet subnets) [
    | none ↦ (
      err (
          invalid_input (
            "cannot create local-services localport on network " <> network.id
            <> ": network has no IPv4 subnet")),
      s,
    )
    | some subnet ↦ C.create_port s (port_body network.id network subnet O)
  ]

  unfoldable pub ensure_localport : Network → C.State → Result Port × C.State
  unfolding create_localport find_port
  ensure_localport network s = elim (find_port O C network.id s) [
    | some port ↦ (ok port, s)
    | none ↦ create_localport network (C.get_subnets s network.id) s
  ]

  abbrev deleted : Result (Unit {0}) × C.State → Result Bool × C.State
  deleted (ok _, s) = (ok true, s)
  deleted (err e, s) = (err e, s)

  unfoldable pub maybe_remove_localport : String → Bool → C.State → Result Bool × C.State
  unfolding find_port
  maybe_remove_localport network_id has_remaining_bindings s =
      if has_remaining_bindings then (ok false, s) else elim (find_port O C network_id s) [
        | none ↦ (ok false, s)
        | some port ↦ deleted (C.delete_port s port.id)
      ]
