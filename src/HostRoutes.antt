-- ===== src/HostRoutes.antt =====
-- host_routes.py: the routes by which a subnet's guests reach the service VIPs, computed, merged
-- into the subnet's own routes, and injected when a subnet is created or updated.
pub mod Effective
pub mod Handler
pub mod Merge
use neutron_local_services_p.Base.{
  ℕ, String, ◌<>◌, Bool, true, false, not, ◌&&◌, ◌||◌, Option, none, some, List, [], ◌∷◌, ◌++◌,
  ◌==◌, Eq, nat_eq, string_eq, option_eq, String-discrete, if◌then◌else◌, contains, truthy,
  default_true,
}
use neutron_local_services_p.Base.Sorting.{sort}
use neutron_local_services_p.Base.Orders.{text_order, pair_order}
use neutron_local_services_p.Records.{Service, Route, FixedIp, Port, Subnet}
use neutron_local_services_p.Netaddr.{Netaddr}
use neutron_local_services_p.CorePlugin.{CorePlugin, OvnConstants}
use neutron_local_services_p.Localport.{find_port}

unfoldable pub ipv4_among : Option String → List FixedIp → Option String
ipv4_among sid [] = none
ipv4_among sid (fip ∷ fips) =
    let rest = ipv4_among sid fips in if fip.subnet_id == sid then fip.ip_address else rest

unfoldable pub localport_ipv4_in_subnet : Port → Subnet → Option String
unfolding ipv4_among
localport_ipv4_in_subnet port subnet = ipv4_among subnet.id port.fixed_ips

unfoldable pub service_route : String → String → Route
service_route vip nexthop = record { destination = some (vip <> "/32"); nexthop = some nexthop }

module _ (N : Netaddr) where
  -- The subnet's CIDR, if it has one that parses.
  unfoldable pub subnet_network : Subnet → Option N.Network
  subnet_network subnet = elim (truthy subnet.cidr) [
    | none ↦ none
    | some cidr ↦ N.parse_network cidr
  ]

  -- `ip.version == net.version and ip in net`
  unfoldable pub covers : N.Network → N.Address → Bool
  covers net ip = N.address_version ip == N.network_version net && N.within ip net

  -- Whether the loop body goes on to append the route of a VIP.
  unfoldable pub is_published : Option N.Network → String → Bool
  unfolding covers
  is_published none vip = true
  is_published (some net) vip = elim (N.parse_address vip) [
    | none ↦ false
    | some ip ↦ not (covers net ip)
  ]

  -- What the loop appends for one service: a route or nothing.
  unfoldable pub routes_of : Option N.Network → String → Service → List Route
  unfolding is_published service_route
  routes_of net nexthop svc = elim (truthy svc.local_ipv4) [
    | none ↦ []
    | some vip ↦
        if not (default_true svc.enabled)
        then []
        else if is_published net vip
        then service_route vip nexthop ∷ []
        else []
  ]

  unfoldable pub service_routes : Option N.Network → String → List Service → List Route
  unfolding routes_of
  service_routes net nexthop [] = []
  service_routes net nexthop (svc ∷ services) =
      routes_of net nexthop svc ++ service_routes net nexthop services

  -- The part after `find_port`, for the port that it found.
  unfoldable pub routes_via : Option Port → Subnet → List Service → List Route × Option String
  unfolding localport_ipv4_in_subnet service_routes subnet_network
  routes_via none subnet services = ([], none)
  routes_via (some port) subnet services = elim (localport_ipv4_in_subnet port subnet) [
    | none ↦ ([], none)
    | some nexthop ↦ (service_routes (subnet_network subnet) nexthop services, some nexthop)
  ]

  module _ (O : OvnConstants) (C : CorePlugin) where
    unfoldable pub compute_service_routes :
        C.State → String → Subnet → List Service → List Route × Option String
    unfolding routes_via
    compute_service_routes s network_id subnet services =
        routes_via (find_port O C network_id s) subnet services

-- `{r['destination'] for r in routes}`
abbrev pub destinations : List Route → List (Option String)
destinations [] = []
destinations (r ∷ routes) = r.destination ∷ destinations routes

-- The loop of `merge`: the existing routes that survive.
unfoldable pub surviving : List (Option String) → Option String → List Route → List Route
surviving desired nexthop [] = []
surviving desired nexthop (r ∷ existing) =
    let rest = surviving desired nexthop existing in
    if r.nexthop == nexthop && not (contains desired r.destination)
    then rest
    else if contains desired r.destination
    then rest
    else r ∷ rest

unfoldable pub merge : List Route → List Route → Option String → List Route
unfolding surviving
merge existing routes nexthop = surviving (destinations routes) nexthop existing ++ routes

-- `norm` of `routes_equal`, before it sorts: the complete routes as pairs.
unfoldable pub complete_pairs : List Route → List (String × String)
complete_pairs [] = []
complete_pairs (r ∷ routes) =
    let rest = complete_pairs routes in
    elim (truthy r.destination) [
      | none ↦ rest
      | some d ↦ elim (truthy r.nexthop) [ none ↦ rest | some n ↦ (d, n) ∷ rest ]
    ]

unfoldable pub pair_dec : Discrete (String × String)
pair_dec = hlevel String-discrete

instance unfoldable pub pair_eq : Eq (String × String)
unfolding pair_dec
pair_eq = record { dec = pair_dec }

unfoldable pub pairs_dec : Discrete (List (String × String))
pairs_dec = hlevel String-discrete

instance unfoldable pub pairs_eq : Eq (List (String × String))
unfolding pairs_dec
pairs_eq = record { dec = pairs_dec }

unfoldable pub norm : List Route → List (String × String)
unfolding complete_pairs
norm routes = sort (pair_order text_order text_order) (complete_pairs routes)

unfoldable pub routes_equal : List Route → List Route → Bool
unfolding norm
routes_equal a b = norm a == norm b
