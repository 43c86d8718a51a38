-- ===== src/Netns/Lifecycle/Orphans.antt =====
-- Which namespaces are left by `sync`.
use neutron_local_services_p.Base.{
  String, ◌≡◌, Bool, true, false, not, ◌&&◌, ◌||◌, ◌==◌, string_eq, option_eq, contains, some,
}
use neutron_local_services_p.Base.Text.{substring_of, split_after}
use neutron_local_services_p.Netns.{netns_name, veth_names}
use neutron_local_services_p.Netns.Lifecycle.{Host, Row, del_root_veth}

module _ (H : Host) where
  -- What `ip_lib` and the OVS database document. `foreign` says whether a device besides the end of the
  -- network's own pair is in a namespace; `garbage_collect_namespace` deletes only one without devices.
  pub record IsLawful : Type 0 where
    pub foreign : String → H.State → Bool
    pub exists-del_port :
        (name ns : String) (s : H.State)
        → H.namespace_exists ns (H.del_port name s) ≡ H.namespace_exists ns s
    pub foreign-del_port :
        (name ns : String) (s : H.State) → foreign ns (H.del_port name s) ≡ foreign ns s
    pub exists-del_veth :
        (network_id ns : String) (s : H.State)
        → H.namespace_exists ns (H.del_veth (veth_names network_id).0 s) ≡ H.namespace_exists ns s
    pub foreign-del_veth :
        (network_id ns : String) (s : H.State)
        → foreign ns (H.del_veth (veth_names network_id).0 s) ≡ foreign ns s
    pub deleted :
        (name : String) (s : H.State) → H.root_device_exists name (H.del_veth name s) ≡ false
    pub collected :
        (network_id ns : String) (s : H.State)
        → H.root_device_exists (veth_names network_id).0 s ≡ false
        → H.namespace_exists ns (H.garbage_collect_namespace (netns_name network_id) s)
          ≡ (H.namespace_exists ns s && (not (ns == netns_name network_id) || foreign ns s))
    pub foreign-collect :
        (name ns : String) (s : H.State)
        → foreign ns (H.garbage_collect_namespace name s) ≡ foreign ns s
    pub listed :
        (ns : String) (s : H.State) → contains (H.namespaces s) ns ≡ H.namespace_exists ns s
    -- A device is in a namespace that is there.
    pub foreign-exists :
        (ns : String) (s : H.State) → foreign ns s ≡ true → H.namespace_exists ns s ≡ true
    -- `provision` removes no namespace, adds no device besides the end of the pair, and where it
    -- returns a namespace that is the one of the network whose id follows the marker.
    pub exists-provision :
        (row : Row) (ns : String) (s : H.State)
        → H.namespace_exists ns s ≡ true
        → H.namespace_exists ns (H.provision row s).1 ≡ true
    pub foreign-provision :
        (row : Row) (ns : String) (s : H.State) → foreign ns (H.provision row s).1 ≡ foreign ns s
    pub provisioned :
        (row : Row) (network_id : String) (s : H.State)
        → (H.provision row s).0 ≡ true
        → split_after "localsvc-" row.device_id ≡ some network_id
        → H.namespace_exists (netns_name network_id) (H.provision row s).1 ≡ true
    -- Whether it does so depends on the row alone.
    pub succeeds : Row → Bool
    pub provision_succeeds : (row : Row) (s : H.State) → (H.provision row s).0 ≡ succeeds row

  module _ (lawful : IsLawful) where
    abbrev unplugged : String → H.State → H.State
    unplugged network_id s =
        del_root_veth H (veth_names network_id).0 (H.del_port (veth_names network_id).0 s)

    -- The row is one of a localport of ours, for the network, and is provisioned.
    abbrev pub provides : String → String → Row → Bool
    provides localport n row =
        (row.type == some localport && substring_of "localsvc-" row.device_id)
        && (lawful.succeeds row && split_after "localsvc-" row.device_id == some n)

    abbrev is_ours : String → Row → Bool
    is_ours localport row = row.type == some localport && substring_of "localsvc-" row.device_id
