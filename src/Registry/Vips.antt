-- ===== src/Registry/Vips.antt =====
-- From the server's tables to the addresses on the device in a network's namespace.
use neutron_local_services_p.Base.{
  String, ◌<>◌, ◌≡◌, refl, Bool, false, none, some, List, [], ◌∷◌, ◌==◌, string_eq, if◌then◌else◌,
  contains, any, truthy, arith,
}
use neutron_local_services_p.Base.Sets.{SetOrder}
use neutron_local_services_p.Records.{Service}
use neutron_local_services_p.Db.Tables.{Tables, admin}
use neutron_local_services_p.Db.Consistency.{IsConsistent}
use neutron_local_services_p.HostRoutes.Effective.{enabled_services_for_network}
use neutron_local_services_p.Netns.{IpLib, is_vip_cidr, reconcile_vips}
use neutron_local_services_p.Netns.Reconcile.{IsLawful, IsUp, ns, dev, contains-reconcile_vips}
use neutron_local_services_p.Registry.{got, vips_of, desired_vips_for_network}
use neutron_local_services_p.Registry.Agreement.{served, all_with_backends}
use neutron_local_services_p.Registry.Refinement.{AllNamed, desired-eq-enabled_services}

-- The service has an IPv4 VIP, and `cidr` is its /32.
abbrev pub has_cidr : String → Service → Bool
has_cidr cidr svc = elim (truthy svc.local_ipv4) [ none ↦ false | some vip ↦ cidr == vip <> "/32" ]

contains-vips_of :
    (t : Tables) (cidr : String) (services : List Service)
    → contains (vips_of (all_with_backends t services)) cidr ≡ any (has_cidr cidr) services
unfolding vips_of any
contains-vips_of t cidr [] = refl
contains-vips_of t cidr (svc ∷ services) = ground (arith, contains-vips_of t cidr services)

module _ (L : IpLib) (order : SetOrder String) (t : Tables) (network_id : String) where
  abbrev pub desired : List String
  desired = vips_of (all_with_backends t (enabled_services_for_network order t admin network_id))

  -- Over consistent tables in which every service has an id, where the namespace and the device are
  -- there: the fetch succeeds, and after the VIPs that it gives are reconciled, a /32 is on the
  -- device exactly if it is the IPv4 VIP of a service that is attached to the network. Other
  -- addresses are as they were.
  pub device_has_attached_vips :
      (s : L.State) (cidr : String)
      → IsConsistent t
      → AllNamed t
      → IsLawful L (ns L order network_id) (dev L order network_id)
      → IsUp L order network_id s
      → (desired_vips_for_network (served t) order network_id ≡ got desired)
        × (contains
              (L.addresses
                (ns L order network_id)
                (dev L order network_id)
                (reconcile_vips L order network_id desired s).1)
              cidr
            ≡ (if is_vip_cidr cidr
                then any (has_cidr cidr) (enabled_services_for_network order t admin network_id)
                else contains
                    (L.addresses (ns L order network_id) (dev L order network_id) s)
                    cidr))
  unfolding desired_vips_for_network
  device_has_attached_vips s cidr consistent named lawful up = (
    rw (desired-eq-enabled_services order t network_id consistent named) refl,
    rw
        (
          contains-reconcile_vips L order network_id desired s cidr lawful up,
          contains-vips_of t cidr (enabled_services_for_network order t admin network_id),
        )
        refl,
  )
