-- ===== src/Netns/Lifecycle.antt =====
-- `teardown`, and `sync` at the start of the agent.
pub mod Orphans
use neutron_local_services_p.Base.{
  String, Bool, true, false, not, ◌&&◌, Option, none, some, List, [], ◌∷◌, ◌==◌, string_eq,
  option_eq, if◌then◌else◌, contains,
}
use neutron_local_services_p.Base.Text.{substring_of, prefix_of, drop_prefix, split_after}
use neutron_local_services_p.Constants.{device_id_marker, netns_prefix}
use neutron_local_services_p.Netns.{netns_name, veth_names}

-- A `Port_Binding` row: its type, and the device id in its `external_ids`, empty where it is missing.
pub record Row : Type 0 where
  pub type : Option String
  pub device_id : String

-- The host: Neutron's `ip_lib` and the OVS database, and `provision`, which says whether it gives a
-- namespace. A `provision` that raises gives none, and leaves what it leaves.
pub record Host : Type 1 where
  pub State : Type 0
  pub namespace_exists : String → State → Bool
  pub namespaces : State → List String
  pub root_device_exists : String → State → Bool
  pub del_port : String → State → State
  pub del_veth : String → State → State
  pub garbage_collect_namespace : String → State → State
  pub provision : Row → State → Bool × State

abbrev pub with_id : Option String → List String → List String
with_id none desired = desired
with_id (some network_id) desired = network_id ∷ desired

module _ (H : Host) where
  unfoldable pub del_root_veth : String → H.State → H.State
  del_root_veth root_veth s = if H.root_device_exists root_veth s then H.del_veth root_veth s else s

  unfoldable pub teardown : String → H.State → Bool × H.State
  unfolding netns_name veth_names del_root_veth
  teardown network_id s =
      let ns = netns_name network_id in
      let root_veth = (veth_names network_id).0 in
      let unplugged = del_root_veth root_veth (H.del_port root_veth s) in
      if not (H.namespace_exists ns s)
      then (false, unplugged)
      else (true, H.garbage_collect_namespace ns unplugged)

  abbrev pub noted : String → Bool × H.State → List String → List String × H.State
  noted device_id (false, s) desired = (desired, s)
  noted device_id (true, s) desired = (with_id (split_after device_id_marker device_id) desired, s)

  -- The loop over the rows; `localport` is OVN's name of the type.
  unfoldable pub provision_rows : String → List Row → List String × H.State → List String × H.State
  unfolding substring_of split_after
  provision_rows localport [] (desired, s) = (desired, s)
  provision_rows localport (row ∷ rows) (desired, s) =
      if row.type == some localport && substring_of device_id_marker row.device_id
      then provision_rows localport rows (noted row.device_id (H.provision row s) desired)
      else provision_rows localport rows (desired, s)

  unfoldable pub remove_orphans : List String → List String → H.State → H.State
  unfolding prefix_of drop_prefix teardown
  remove_orphans desired [] s = s
  remove_orphans desired (ns ∷ namespaces) s =
      let network_id = drop_prefix netns_prefix ns in
      let torn = (teardown network_id s).1 in
      remove_orphans desired namespaces
        (if prefix_of netns_prefix ns && not (contains desired network_id) then torn else s)

  unfoldable pub sync : String → List Row → H.State → H.State
  unfolding provision_rows remove_orphans
  sync localport rows s =
      let (desired, s') = provision_rows localport rows ([], s) in
      remove_orphans desired (H.namespaces s') s'
