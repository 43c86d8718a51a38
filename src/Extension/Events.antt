-- ===== src/Extension/Events.antt =====
-- The events of the localports' port bindings, the timer, and the start of the agent. The parts that
-- they call are an interface; whatever such a part raises is logged, so it just leaves some world.
pub mod Forgetting
use neutron_local_services_p.Base.{
  ℕ, String, ◌<>◌, Bool, true, false, not, ◌&&◌, Option, none, some, List, [], ◌∷◌, ◌==◌, string_eq,
  option_eq, if◌then◌else◌,
}
use neutron_local_services_p.Base.Text.{substring_of, prefix_of, drop_prefix, split_after}
use neutron_local_services_p.Base.Sets.{SetOrder}
use neutron_local_services_p.Constants.{device_id_marker, device_id_prefix, netns_prefix}
use neutron_local_services_p.Records.{AttachedService}
use neutron_local_services_p.Registry.{Fetched}
use neutron_local_services_p.Netns.Lifecycle.{Row}
use neutron_local_services_p.Extension.{Effects, Cache, reconcile_network, forget_network}

-- The parts, over the world of a pass. `provision_netns` says whether it returns, `fetch` is
-- `desired_state_for_network`, and `namespaces` is `none` where the listing raises.
pub record Parts (E : Effects) : Type 0 where
  pub provision_netns : Row → E.World → Bool × E.World
  pub provision_underlay : String → E.World → E.World
  pub teardown_plugin : String → String → E.World → E.World
  pub teardown_underlay : String → E.World → E.World
  pub teardown_netns : String → E.World → E.World
  pub install_chassis_chain : E.World → E.World
  pub sync : E.World → E.World
  pub namespaces : E.World → Option (List String)
  pub fetch : String → E.World → Fetched (List AttachedService)
  pub clock : E.World → ℕ

abbrev text_of : Option String → String
text_of none = ""
text_of (some s) = s

unfoldable pub network_id_from_device_id : String → String
unfolding substring_of split_after
network_id_from_device_id device_id =
    if substring_of device_id_prefix device_id
    then text_of (split_after device_id_marker device_id)
    else ""

-- `localport` is OVN's name of the type.
unfoldable pub is_our_localport : String → Row → Bool
unfolding substring_of
is_our_localport localport row =
    row.type == some localport && substring_of device_id_marker row.device_id

-- The namespaces with the prefix, without it.
unfoldable pub managed_ids : List String → List String
unfolding prefix_of drop_prefix
managed_ids [] = []
managed_ids (ns ∷ namespaces) =
    let rest = managed_ids namespaces in
    if prefix_of netns_prefix ns then drop_prefix netns_prefix ns ∷ rest else rest

module _ {E : Effects} (P : Parts E) (plugins : List String) where
  abbrev pub reconcile : String → Cache × E.World → Cache × E.World
  reconcile network_id (cache, w) =
      reconcile_network E plugins (P.clock w) network_id (P.fetch network_id w) (cache, w)

  -- `run` of the Create and of the Updated event, which differ in their log lines.
  unfoldable pub port_binding_event : Row → Cache × E.World → Cache × E.World
  unfolding network_id_from_device_id
  port_binding_event row (cache, w) =
      let network_id = network_id_from_device_id row.device_id in
      let (provisioned, w') = P.provision_netns row w in
      if provisioned
      then reconcile network_id (cache, P.provision_underlay network_id w')
      else (cache, w')

  unfoldable pub teardown_plugins : String → List String → E.World → E.World
  teardown_plugins ns_name [] w = w
  teardown_plugins ns_name (name ∷ names) w =
      teardown_plugins ns_name names (P.teardown_plugin name ns_name w)

  unfoldable pub port_binding_deleted : Row → Cache × E.World → Cache × E.World
  unfolding network_id_from_device_id teardown_plugins
  port_binding_deleted row (cache, w) =
      let network_id = network_id_from_device_id row.device_id in
      (
        forget_network network_id cache,
        P.teardown_netns network_id (
            P.teardown_underlay network_id
              (teardown_plugins (netns_prefix <> network_id) plugins w)),
      )

  module _ (order : SetOrder String) where
    -- A set, which is walked in some order.
    unfoldable pub list_managed_networks : E.World → List String
    unfolding managed_ids
    list_managed_networks w = elim (P.namespaces w) [
      | none ↦ order.visit []
      | some namespaces ↦ order.visit (managed_ids namespaces)
    ]

    unfoldable pub reconcile_all : List String → Cache × E.World → Cache × E.World
    reconcile_all [] s = s
    reconcile_all (network_id ∷ ids) s = reconcile_all ids (reconcile network_id s)

    unfoldable pub periodic_reconcile : Cache × E.World → Cache × E.World
    unfolding list_managed_networks reconcile_all
    periodic_reconcile s = reconcile_all (list_managed_networks s.1) s

    unfoldable pub provision_all : List String → E.World → E.World
    provision_all [] w = w
    provision_all (network_id ∷ ids) w = provision_all ids (P.provision_underlay network_id w)

    -- `start`, up to the timer.
    unfoldable pub start : Cache × E.World → Cache × E.World
    unfolding periodic_reconcile provision_all list_managed_networks
    start (cache, w) =
        let synced = P.sync (P.install_chassis_chain w) in
        periodic_reconcile (cache, provision_all (list_managed_networks synced) synced)
