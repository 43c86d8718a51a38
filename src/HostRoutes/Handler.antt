-- ===== src/HostRoutes/Handler.antt =====
-- `HostRoutesHandler`: what the plugin does before Neutron creates or updates a subnet. A handler
-- mutates the subnet's dict or raises; the argument `fetched` says whether the query for the
-- network's enabled bindings returns, which the overlap check survives either way.
pub mod Overlap
pub mod Injection
use neutron_local_services_p.Base.{
  String, Bool, true, false, not, ◌&&◌, Option, none, some, List, [], ◌∷◌, ◌==◌, string_eq,
  if◌then◌else◌, contains, truthy, or_else,
}
use neutron_local_services_p.Base.Sets.{SetOrder}
use neutron_local_services_p.Records.{Service, Binding, Route, Subnet}
use neutron_local_services_p.Netaddr.{Netaddr}
use neutron_local_services_p.Errors.{Result, ok, err, subnet_overlaps_vip, ◌>>=◌, ◌>>◌}
use neutron_local_services_p.CorePlugin.{CorePlugin, OvnConstants}
use neutron_local_services_p.Db.Tables.{Tables, Context, get_local_service_bindings}
use neutron_local_services_p.HostRoutes.{covers, compute_service_routes, merge, routes_equal}
use neutron_local_services_p.HostRoutes.Effective.{enabled_services_for_network}

-- `{b.get('service_id') for b in bindings}`
abbrev pub bound_ids : List Binding → List String
bound_ids [] = []
bound_ids (b ∷ bindings) = b.service_id ∷ bound_ids bindings

-- The network's enabled bindings, or none at all where the query raises.
unfoldable pub explicit_bindings : Bool → Tables → Context → String → List Binding
explicit_bindings false t c network_id = []
explicit_bindings true t c network_id = get_local_service_bindings t c (record {
  network_id = some (network_id ∷ []);
  service_id = none;
  enabled = some (some true ∷ []);
})

-- `target.get(key) or []`
abbrev pub routes_in : Option (List Route) → List Route
routes_in none = []
routes_in (some routes) = routes

abbrev pub is_present {ℓ} : {A : Type ℓ} → Option A → Bool
is_present none = false
is_present (some _) = true

-- The subnet-shaped dict of `_inject`.
abbrev pub lookup_subnet : String → Subnet → Subnet → Subnet
lookup_subnet network_id lookup target = record {
  id = or_else (truthy lookup.id) target.id;
  network_id = some network_id;
  cidr = or_else (truthy target.cidr) lookup.cidr;
  ip_version = none;
  enable_dhcp = false;
  host_routes = none;
}

-- The end of `_inject`, for the routes that were computed.
unfoldable pub write_routes : List Route × Option String → Subnet → Subnet
write_routes ([], nexthop) target = target
write_routes (r ∷ routes, nexthop) target =
    let existing = routes_in target.host_routes in
    let merged = merge existing (r ∷ routes) nexthop in
    if not (routes_equal merged existing)
    then record target { host_routes = some merged }
    else target

module _ (N : Netaddr) where
  -- The body of the inner loop, for one of the two VIPs of a service.
  unfoldable pub refuse_vip : N.Network → List String → Service → Option String → Result (Unit {0})
  refuse_vip net explicit svc v = elim (truthy v) [
    | none ↦ ok tt
    | some addr ↦ elim (N.parse_address addr) [
      | none ↦ ok tt
      | some vip ↦
          if not (covers N net vip)
          then ok tt
          else if contains explicit svc.id
          then err (subnet_overlaps_vip (N.print_address vip) svc.id)
          else ok tt
    ]
  ]

  unfoldable pub refuse_services : N.Network → List String → List Service → Result (Unit {0})
  unfolding refuse_vip
  refuse_services net explicit [] = ok tt
  refuse_services net explicit (svc ∷ services) = do
    refuse_vip net explicit svc svc.local_ipv4
    refuse_vip net explicit svc svc.local_ipv6
    refuse_services net explicit services

  -- The CIDR that the subnet will have, if it parses.
  unfoldable pub target_network : Subnet → Subnet → Option N.Network
  target_network lookup target = elim (or_else (truthy target.cidr) (truthy lookup.cidr)) [
    | none ↦ none
    | some cidr ↦ N.parse_network cidr
  ]

  module _ (O : OvnConstants) (C : CorePlugin) (order : SetOrder String) (s : C.State) (t : Tables)
      (c : Context) where
    unfoldable pub refuse_overlap_with_attached_vips : Bool → Subnet → Subnet → Result (Unit {0})
    unfolding refuse_services target_network explicit_bindings
    refuse_overlap_with_attached_vips fetched lookup target = elim (truthy lookup.network_id) [
      | none ↦ ok tt
      | some network_id ↦ elim (target_network lookup target) [
        | none ↦ ok tt
        | some net ↦
            refuse_services net (bound_ids (explicit_bindings fetched t c network_id))
              (enabled_services_for_network order t c network_id)
      ]
    ]

    unfoldable pub routes_for : String → Subnet → Subnet → List Service → List Route × Option String
    routes_for network_id lookup target [] = ([], none)
    routes_for network_id lookup target (svc ∷ services) =
        compute_service_routes N O C s network_id (lookup_subnet network_id lookup target)
          (svc ∷ services)

    unfoldable pub inject : Subnet → Subnet → Subnet
    unfolding write_routes routes_for
    inject lookup target = elim (truthy lookup.network_id) [
      | none ↦ target
      | some network_id ↦
          write_routes
            (routes_for network_id lookup target
              (enabled_services_for_network order t c network_id))
            target
    ]

    unfoldable pub on_before_create : Bool → Subnet → Result Subnet
    unfolding refuse_overlap_with_attached_vips inject
    on_before_create fetched subnet = do
      refuse_overlap_with_attached_vips fetched subnet subnet
      ok (inject subnet subnet)

    unfoldable pub on_before_update : Bool → Subnet → Subnet → Result Subnet
    unfolding refuse_overlap_with_attached_vips inject
    on_before_update fetched orig patch = do
      if is_present patch.cidr then refuse_overlap_with_attached_vips fetched orig patch else ok tt
      if not (is_present patch.host_routes) then ok patch else ok (inject orig patch)
