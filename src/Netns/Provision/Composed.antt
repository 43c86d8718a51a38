-- ===== src/Netns/Provision/Composed.antt =====
-- `provision` followed by `reconcile_vips`, as an event of a new localport runs them.
use neutron_local_services_p.Base.{
  ℕ, zero, suc, String, ◌≡◌, refl, ◌∙◌, ap, true, false, Option, none, some, List, [], ◌∷◌,
  string_eq, if◌then◌else◌, contains, is_empty, text_is_true, Bool-cases, inl, inr,
}
use neutron_local_services_p.Base.Sets.{SetOrder}
use neutron_local_services_p.Base.Text.{split_after}
use neutron_local_services_p.Constants.{device_id_marker}
use neutron_local_services_p.Netns.{
  IpLib, is_on_subnet_cidr, is_vip_cidr, netns_name, veth_names, provision_addresses,
  reconcile_vips, update_addresses, delete_any, add_any,
}
use neutron_local_services_p.Netns.Reconcile.{
  IsLawful, contains-reconcile_vips, contains-provision, ns, dev, IsUp,
}
use neutron_local_services_p.Netns.Provision.{
  PortBinding, parse_port_binding, Links, ensure_veth, set_mtus, set_links, plug, bring_up,
  provision, provision_named, provision_parsed,
}

module _ (L : IpLib) (P : Links L) (order : SetOrder String) (network_id : String) where
  abbrev namespace : String
  namespace = ns L order network_id

  abbrev device : String
  device = dev L order network_id

  abbrev Up : L.State → Type 0
  Up s = IsUp L order network_id s

  -- A change that leaves the device of the network where it is, with its addresses.
  pub record KeepsDevice (f : L.State → L.State) : Type 0 where
    pub up : (s : L.State) → Up s → Up (f s)
    pub addresses :
        (s : L.State) → L.addresses namespace device (f s) ≡ L.addresses namespace device s

  -- What `ip_lib` and the OVS database document of the changes, for the device of the network.
  pub record IsPlumbing : Type 0 where
    pub lawful : IsLawful L namespace device
    pub up-delete :
        (xs : List String) (s : L.State) → Up s → Up (L.delete_multiple namespace device xs s)
    pub up-add : (xs : List String) (s : L.State) → Up s → Up (L.add_multiple namespace device xs s)
    pub in_namespace :
        (s : L.State)
        → L.device_exists device namespace s ≡ true
        → L.namespace_exists namespace s ≡ true
    pub created : (root : String) (s : L.State) → Up (P.add_veth root device namespace s)
    pub set_address :
        (at : Option String) (name mac : String) → KeepsDevice (P.set_address name at mac)
    pub set_mtu :
        (at : Option String) (name : String) (mtu : ℕ) → KeepsDevice (P.set_mtu name at mtu)
    pub set_up : (at : Option String) (name : String) → KeepsDevice (P.set_up name at)
    pub add_port : (bridge name : String) → KeepsDevice (P.add_port bridge name)
    pub set_iface_id : (name port : String) → KeepsDevice (P.set_iface_id name port)

  also : {f g : L.State → L.State} → KeepsDevice f → KeepsDevice g → KeepsDevice (λ s. g (f s))
  also {f} {g} kf kg = record {
    up = λ s u. kg.up (f s) (kf.up s u);
    addresses = λ s. kg.addresses (f s) ∙ kf.addresses s;
  }

  module _ (plumbing : IsPlumbing) where
    ensure_veth-IsUp : (s : L.State) → Up (ensure_veth L P network_id s)
    unfolding ensure_veth
    ensure_veth-IsUp s = elim (Bool-cases (L.device_exists device namespace s)) [
      | inl e ↦ rw e (plumbing.in_namespace s e, e)
      | inr e ↦ rw e (plumbing.created (veth_names network_id).0 _)
    ]

    set_mtus-KeepsDevice :
        (mtu : ℕ) → KeepsDevice (set_mtus L P (veth_names network_id).0 device namespace mtu)
    set_mtus-KeepsDevice zero = record { up = λ s u. u; addresses = λ s. refl }
    set_mtus-KeepsDevice (suc n) =
        also (plumbing.set_mtu none (veth_names network_id).0 (suc n))
          (plumbing.set_mtu (some namespace) device (suc n))

    set_links-KeepsDevice :
        (mac : String) (mtu : ℕ) → KeepsDevice (set_links L P network_id mac mtu)
    unfolding set_links
    set_links-KeepsDevice mac mtu =
        also
          (also (also (plumbing.set_address (some namespace) device mac) (set_mtus-KeepsDevice mtu))
            (plumbing.set_up none (veth_names network_id).0))
          (plumbing.set_up (some namespace) device)

    plug-KeepsDevice : (bridge port : String) → KeepsDevice (plug L P bridge network_id port)
    unfolding plug
    plug-KeepsDevice bridge port =
        also (plumbing.add_port bridge (veth_names network_id).0)
          (plumbing.set_iface_id (veth_names network_id).0 port)

    delete_any-IsUp :
        (xs : List String) (s : L.State) → Up s → Up (delete_any L order namespace device xs s)
    delete_any-IsUp [] s u = u
    delete_any-IsUp (x ∷ xs) s u = plumbing.up-delete (x ∷ xs) s u

    add_any-IsUp :
        (xs : List String) (s : L.State) → Up s → Up (add_any L order namespace device xs s)
    add_any-IsUp [] s u = u
    add_any-IsUp (x ∷ xs) s u = plumbing.up-add (x ∷ xs) s u

    provision_addresses-IsUp :
        (cidrs : List String) (s : L.State)
        → Up s
        → Up (provision_addresses L order network_id cidrs s)
    unfolding provision_addresses update_addresses
    provision_addresses-IsUp cidrs s u = add_any-IsUp _ _ (delete_any-IsUp _ s u)

    module _ (bridge : String) (row : PortBinding) (mac : String) where
      provision_usable :
          (s : L.State)
          → split_after device_id_marker row.device_id ≡ some network_id
          → (parse_port_binding row).mac ≡ some mac
          → text_is_true mac ≡ true
          → is_empty (parse_port_binding row).ipv4_cidrs ≡ false
          → provision L P order bridge row s
            ≡ bring_up L P order bridge network_id mac (parse_port_binding row) s
      unfolding provision provision_named provision_parsed
      provision_usable s i m t e =
          ap (λ named. provision_named L P order bridge named row s) i
          ∙ ap
              (λ parsed.
                provision_parsed L P order bridge network_id parsed (parse_port_binding row) s)
              m
          ∙ rw (t, e) refl

      -- If a row names the network and has a MAC and at least one IPv4 address, then `provision` gives
      -- the network's namespace, and after `reconcile_vips` has run as well the device in it has the
      -- desired VIPs and, of the addresses in a subnet, those of the row. Every other address is as it
      -- is once the pair is there.
      pub provision-then-reconcile_vips :
          (vips : List String) (s : L.State) (c : String)
          → split_after device_id_marker row.device_id ≡ some network_id
          → (parse_port_binding row).mac ≡ some mac
          → text_is_true mac ≡ true
          → is_empty (parse_port_binding row).ipv4_cidrs ≡ false
          → ((provision L P order bridge row s).0 ≡ some (netns_name network_id))
            × (contains
                  (L.addresses namespace device
                    (reconcile_vips L order network_id vips (provision L P order bridge row s).1).1)
                  c
                ≡ (if is_vip_cidr c
                    then contains vips c
                    else if is_on_subnet_cidr c
                    then contains (parse_port_binding row).ipv4_cidrs c
                    else contains (L.addresses namespace device (ensure_veth L P network_id s)) c))
      unfolding bring_up
      provision-then-reconcile_vips vips s c i m t e =
          let cidrs = (parse_port_binding row).ipv4_cidrs in
          let linked = set_links-KeepsDevice mac (parse_port_binding row).mtu in
          let plugged = plug-KeepsDevice bridge (parse_port_binding row).logical_port in
          let there = ensure_veth L P network_id s in
          let before = set_links L P network_id mac (parse_port_binding row).mtu there in
          let up = linked.up there (ensure_veth-IsUp s) in
          let set = provision_addresses L order network_id cidrs before in
          rw (provision_usable s i m t e) (
            refl,
            contains-reconcile_vips L order network_id vips _ c plumbing.lawful
                  (plugged.up set (provision_addresses-IsUp cidrs before up))
                ∙ rw
                    (
                      plugged.addresses set,
                      contains-provision L order network_id cidrs before c plumbing.lawful,
                      linked.addresses there,
                    )
                    refl,
          )
