-- ===== src/Plugin.antt =====
-- plugin/plugin.py, the class `LocalServicesPlugin`: what its methods refuse because a VIP would lie
-- inside a subnet of the network. Reconcile is what it does to Neutron's ports and routes, Requests
-- the methods that the API calls.
pub mod Refusal
pub mod Reconcile
pub mod Requests
use neutron_local_services_p.Base.{
  String, Bool, true, false, Option, none, some, List, [], ◌∷◌, ◌++◌, if◌then◌else◌, any, truthy,
}
use neutron_local_services_p.Base.Text.{substring_of}
use neutron_local_services_p.Records.{Service, Subnet}
use neutron_local_services_p.Netaddr.{Netaddr}
use neutron_local_services_p.Errors.{
  Result, ok, err, bad_address, vip_overlaps_subnet, service_unavailable, ◌>>=◌, ◌>>◌,
}
use neutron_local_services_p.CorePlugin.{CorePlugin}
use neutron_local_services_p.Db.Tables.{Tables}
use neutron_local_services_p.Db.Services.{get_local_service}
use neutron_local_services_p.HostRoutes.{covers, subnet_network}

-- `service_providers` of the configuration, which may not be registered at all, or null.
unfoldable pub octavia_provider_loaded : Option (Option (List String)) → Bool
octavia_provider_loaded none = false
octavia_provider_loaded (some none) = false
octavia_provider_loaded (some (some providers)) =
    any (substring_of "ovn_octavia_provider") providers

module _ (N : Netaddr) where
  -- What one VIP adds to a list of addresses; `netaddr.IPAddress` raises where it does not parse.
  unfoldable pub parse_vip : Option String → Result (List N.Address)
  parse_vip v = elim (truthy v) [
    | none ↦ ok []
    | some addr ↦ elim (N.parse_address addr) [ none ↦ err bad_address | some ip ↦ ok (ip ∷ []) ]
  ]

  unfoldable pub parse_vips : Option String → Option String → Result (List N.Address)
  unfolding parse_vip
  parse_vips local_ipv4 local_ipv6 = do
    v4 ← parse_vip local_ipv4
    v6 ← parse_vip local_ipv6
    ok (v4 ++ v6)

  unfoldable pub service_vips : Service → Result (List N.Address)
  unfolding parse_vips
  service_vips svc = parse_vips svc.local_ipv4 svc.local_ipv6

  -- The loop over the VIPs, for one subnet.
  unfoldable pub refuse_inside : String → N.Network → List N.Address → Result (Unit {0})
  refuse_inside cidr net [] = ok tt
  refuse_inside cidr net (vip ∷ vips) =
      if covers N net vip
      then err (vip_overlaps_subnet (N.print_address vip) cidr)
      else refuse_inside cidr net vips

  -- `cidr=cidr` of the error.
  abbrev pub cidr_of : Subnet → String
  cidr_of subnet = elim subnet.cidr [ none ↦ "" | some cidr ↦ cidr ]

  unfoldable pub refuse_subnets : List N.Address → List Subnet → Result (Unit {0})
  unfolding refuse_inside
  refuse_subnets vips [] = ok tt
  refuse_subnets vips (subnet ∷ subnets) = elim (subnet_network N subnet) [
    | none ↦ refuse_subnets vips subnets
    | some net ↦ refuse_inside (cidr_of subnet) net vips >> refuse_subnets vips subnets
  ]

  module _ (C : CorePlugin) (s : C.State) where
    unfoldable pub refuse_vips_overlap_network : List N.Address → String → Result (Unit {0})
    unfolding refuse_subnets
    refuse_vips_overlap_network vips network_id = elim (C.get_subnets s network_id) [
      | err _ ↦ err service_unavailable
      | ok subnets ↦ refuse_subnets vips subnets
    ]

    -- `if not vips: return`
    unfoldable pub refuse_any : List N.Address → String → Result (Unit {0})
    unfolding refuse_vips_overlap_network
    refuse_any [] network_id = ok tt
    refuse_any (vip ∷ vips) network_id = refuse_vips_overlap_network (vip ∷ vips) network_id

    -- A service that cannot be fetched is left to the method that the caller goes on to.
    unfoldable pub refuse_vip_subnet_overlap : Tables → String → String → Result (Unit {0})
    unfolding refuse_any service_vips
    refuse_vip_subnet_overlap t service_id network_id = elim (get_local_service service_id t) [
      | err _ ↦ ok tt
      | ok svc ↦ service_vips svc >>= λ vips. refuse_any vips network_id
    ]
