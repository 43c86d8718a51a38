-- ===== src/Netns/Provision.antt =====
-- `provision` and `_parse_port_binding`: the veth pair of a network, plugged into the bridge.
pub mod Composed
use neutron_local_services_p.Base.{
  ℕ, zero, suc, String, Bool, true, false, not, Option, none, some, List, [], ◌∷◌, ◌==◌, string_eq,
  nat_eq, if◌then◌else◌, filter, text_is_true, is_empty,
}
use Prim.Native.Char.{Char, code}
use neutron_local_services_p.Base.Text.{split_after, substring_of}
use neutron_local_services_p.Base.Sets.{SetOrder}
use neutron_local_services_p.Constants.{device_id_marker}
use neutron_local_services_p.Netns.{IpLib, parse_int, netns_name, veth_names, provision_addresses}

-- What the code reads of a `Port_Binding` row: the values in its `external_ids`, the port, and the
-- MAC that `get_mac_and_ips_from_port_binding` gives, `none` where that raises.
pub record PortBinding : Type 0 where
  pub device_id : String
  pub mac : Option String
  pub cidrs : Option String
  pub mtu : Option String
  pub logical_port : String

abbrev prepend : Char → List String → List String
prepend c [] = String.◌∷◌ c "" ∷ []
prepend c (word ∷ words) = String.◌∷◌ c word ∷ words

-- `text.split(' ')`
unfoldable pub split_spaces : String → List String
unfolding nat_eq
split_spaces String.[] = "" ∷ []
split_spaces (String.◌∷◌ c s) =
    let rest = split_spaces s in if code c == 32 then "" ∷ rest else prepend c rest

-- `value or default`
abbrev pub or_default : String → Option String → String
or_default default none = default
or_default default (some String.[]) = default
or_default default (some (String.◌∷◌ c s)) = String.◌∷◌ c s

unfoldable pub ipv4_cidrs_of : String → List String
unfolding split_spaces substring_of
ipv4_cidrs_of blob =
    filter (λ c. if text_is_true c then not (substring_of ":" c) else false) (split_spaces blob)

unfoldable pub mtu_of : Option String → ℕ
unfolding parse_int
mtu_of raw = elim (parse_int (or_default "0" raw)) [ none ↦ 0 | some mtu ↦ mtu ]

pub record Parsed : Type 0 where
  pub mac : Option String
  pub ipv4_cidrs : List String
  pub logical_port : String
  pub mtu : ℕ

unfoldable pub parse_port_binding : PortBinding → Parsed
unfolding ipv4_cidrs_of mtu_of
parse_port_binding row = elim row.mac [
  | none ↦ record { mac = none; ipv4_cidrs = []; logical_port = row.logical_port; mtu = 0 }
  | some mac ↦ record {
    mac = some mac;
    ipv4_cidrs = ipv4_cidrs_of (or_default "" row.cidrs);
    logical_port = row.logical_port;
    mtu = mtu_of row.mtu;
  }
]

-- What the code uses of `ip_lib` and of the OVS database to set up a pair, for calls that do not
-- raise. A device is named with its namespace, `none` for the root.
pub record Links (L : IpLib) : Type 0 where
  pub root_exists : String → L.State → Bool
  pub delete_root : String → L.State → L.State
  pub add_veth : String → String → String → L.State → L.State
  pub set_address : String → Option String → String → L.State → L.State
  pub set_mtu : String → Option String → ℕ → L.State → L.State
  pub set_up : String → Option String → L.State → L.State
  pub add_port : String → String → L.State → L.State
  pub set_iface_id : String → String → L.State → L.State

module _ (L : IpLib) (P : Links L) where
  -- The pair, unless the end in the namespace is there.
  unfoldable pub ensure_veth : String → L.State → L.State
  unfolding netns_name veth_names
  ensure_veth network_id s =
      let ns = netns_name network_id in
      let (root_veth, ns_veth) = veth_names network_id in
      if L.device_exists ns_veth ns s
      then s
      else P.add_veth root_veth ns_veth ns
          (if P.root_exists root_veth s then P.delete_root root_veth s else s)

  abbrev pub set_mtus : String → String → String → ℕ → L.State → L.State
  set_mtus root_veth ns_veth ns zero s = s
  set_mtus root_veth ns_veth ns (suc n) s =
      P.set_mtu ns_veth (some ns) (suc n) (P.set_mtu root_veth none (suc n) s)

  -- The MAC, the MTU, and both ends up.
  unfoldable pub set_links : String → String → ℕ → L.State → L.State
  unfolding netns_name veth_names
  set_links network_id mac mtu s =
      let ns = netns_name network_id in
      let (root_veth, ns_veth) = veth_names network_id in
      P.set_up ns_veth (some ns) (
        P.set_up root_veth none
          (set_mtus root_veth ns_veth ns mtu (P.set_address ns_veth (some ns) mac s)))

  unfoldable pub plug : String → String → String → L.State → L.State
  unfolding veth_names
  plug bridge network_id logical_port s =
      let root_veth = (veth_names network_id).0 in
      P.set_iface_id root_veth logical_port (P.add_port bridge root_veth s)

  module _ (order : SetOrder String) (bridge : String) where
    -- With a MAC and at least one address.
    unfoldable pub bring_up : String → String → Parsed → L.State → Option String × L.State
    unfolding ensure_veth set_links plug netns_name
    bring_up network_id mac parsed s = (
      some (netns_name network_id),
      plug bridge network_id parsed.logical_port (
          provision_addresses L order network_id parsed.ipv4_cidrs
            (set_links network_id mac parsed.mtu (ensure_veth network_id s))),
    )

    -- With the MAC that the row was parsed to.
    unfoldable pub provision_parsed :
        String → Option String → Parsed → L.State → Option String × L.State
    unfolding bring_up
    provision_parsed network_id none parsed s = (none, s)
    provision_parsed network_id (some mac) parsed s =
        if not (text_is_true mac)
        then (none, s)
        else if is_empty parsed.ipv4_cidrs
        then (none, s)
        else bring_up network_id mac parsed s

    -- With the network that the device id names, if it has the marker.
    unfoldable pub provision_named : Option String → PortBinding → L.State → Option String × L.State
    unfolding parse_port_binding provision_parsed
    provision_named none row s = (none, s)
    provision_named (some network_id) row s =
        let parsed = parse_port_binding row in provision_parsed network_id parsed.mac parsed s

    unfoldable pub provision : PortBinding → L.State → Option String × L.State
    unfolding split_after provision_named
    provision row s = provision_named (split_after device_id_marker row.device_id) row s
