-- ===== src/HostRoutes/Handler/Overlap.antt =====
-- VIPs against the subnet's own addresses: what is refused, and what is never published.
use neutron_local_services_p.Base.{
  String, ◌<>◌, sym, subst, ◌==◌, option_eq, nat_eq, ◌≡◌, refl, ◌⊎◌, inl, inr, Bool-cases,
  Option-cases, Bool, true, false, ◌&&◌, ◌||◌, Option, none, some, List, [], ◌∷◌, string_eq,
  contains, any, All, All-append, truthy, arith, default_true,
}
use neutron_local_services_p.Records.{Service, Binding, Route, Subnet, Port, FixedIp}
use neutron_local_services_p.Netaddr.{Netaddr}
use neutron_local_services_p.Errors.{Result, ok, err}
use neutron_local_services_p.Base.Sets.{SetOrder}
use neutron_local_services_p.CorePlugin.{CorePlugin, OvnConstants}
use neutron_local_services_p.Db.Tables.{Tables, Context, bool_eq}
use neutron_local_services_p.Localport.{find_port}
use neutron_local_services_p.HostRoutes.{
  covers, is_published, routes_of, service_routes, service_route, ipv4_among,
  localport_ipv4_in_subnet, subnet_network, routes_via, compute_service_routes,
}
use neutron_local_services_p.HostRoutes.Handler.{refuse_overlap_with_attached_vips}

module _ (N : Netaddr) (net : N.Network) where
  -- The address parses and lies in the subnet.
  abbrev pub is_inside : String → Bool
  is_inside addr = elim (N.parse_address addr) [
    | none ↦ false
    | some vip ↦ (N.address_version vip == N.network_version net) && N.within vip net
  ]

  abbrev pub is_on_link : Option String → Bool
  is_on_link v = elim (truthy v) [ none ↦ false | some addr ↦ is_inside addr ]

  -- A service that is bound to the network and has a VIP in the subnet.
  abbrev pub is_conflict : List String → Service → Bool
  is_conflict explicit svc =
      contains explicit svc.id && (is_on_link svc.local_ipv4 || is_on_link svc.local_ipv6)

  abbrev pub is_ok : Result (Unit {0}) → Bool
  is_ok (ok _) = true
  is_ok (err _) = false

  -- A route to the VIP of an enabled service, by the next hop, where the VIP does not lie in the subnet.
  abbrev pub IsOffLink : String → Service → Route → Type 0
  IsOffLink nexthop svc r =
      (vip : String) × (svc.local_ipv4 ≡ some vip)
      × (default_true svc.enabled ≡ true)
      × (r.destination ≡ some (vip <> "/32"))
      × (r.nexthop ≡ some nexthop)
      × (is_inside vip ≡ false)

  -- The same for one of several services.
  abbrev pub LeadsToOne : String → List Service → Route → Type 0
  LeadsToOne nexthop [] r = false ≡ true
  LeadsToOne nexthop (svc ∷ services) r = IsOffLink nexthop svc r ⊎ LeadsToOne nexthop services r

  published_off_link : (vip : String) → is_published N (some net) vip ≡ true → is_inside vip ≡ false
  unfolding is_published covers
  published_off_link vip h = ground arith

  truthy-some : (o : Option String) (v : String) → truthy o ≡ some v → o ≡ some v
  truthy-some none v h = h
  truthy-some (some String.[]) v h = absurd (ground arith)
  truthy-some (some (String.◌∷◌ c t)) v h = h

  routes_of_cases :
      (nexthop : String) (svc : Service)
      → (routes_of N (some net) nexthop svc ≡ [])
        ⊎ ((vip : String) × (routes_of N (some net) nexthop svc ≡ service_route vip nexthop ∷ [])
            × (svc.local_ipv4 ≡ some vip)
            × (default_true svc.enabled ≡ true)
            × (is_published N (some net) vip ≡ true))
  unfolding routes_of
  routes_of_cases nexthop svc = elim (Option-cases (truthy svc.local_ipv4)) [
    | inl e ↦ inl (ground arith)
    | inr (vip, e) ↦ elim (Bool-cases (default_true svc.enabled && is_published N (some net) vip)) [
      | inl p ↦
          inr (vip, ground arith, truthy-some svc.local_ipv4 vip e, ground arith, ground arith)
      | inr p ↦ inl (ground arith)
    ]
  ]

  leads_elsewhere :
      (nexthop : String) (svc : Service) (services : List Service) (routes : List Route)
      → All (LeadsToOne nexthop services) routes
      → All (LeadsToOne nexthop (svc ∷ services)) routes
  leads_elsewhere nexthop svc services [] h = tt
  leads_elsewhere nexthop svc services (r ∷ routes) (h, hs) =
      (inr h, leads_elsewhere nexthop svc services routes hs)

  routes_of_leads :
      (nexthop : String) (svc : Service) (services : List Service)
      → All (LeadsToOne nexthop (svc ∷ services)) (routes_of N (some net) nexthop svc)
  unfolding service_route
  routes_of_leads nexthop svc services = elim (routes_of_cases nexthop svc) [
    | inl e ↦ rw e tt
    | inr (vip, e, v, on, p) ↦ rw e (inl (vip, v, on, refl, refl, published_off_link vip p), tt)
  ]

  service_routes_lead :
      (nexthop : String) (services : List Service)
      → All (LeadsToOne nexthop services) (service_routes N (some net) nexthop services)
  unfolding service_routes
  service_routes_lead nexthop [] = tt
  service_routes_lead nexthop (svc ∷ services) =
      All-append (LeadsToOne nexthop (svc ∷ services)) (routes_of N (some net) nexthop svc) _
        (routes_of_leads nexthop svc services)
        (leads_elsewhere nexthop svc services _ (service_routes_lead nexthop services))

abbrev pub is_on_subnet : Option String → String → FixedIp → Bool
is_on_subnet subnet_id addr fip = fip.subnet_id == subnet_id && fip.ip_address == some addr

ipv4_among-any :
    (sid : Option String) (addr : String) (fips : List FixedIp)
    → ipv4_among sid fips ≡ some addr
    → any (is_on_subnet sid addr) fips ≡ true
unfolding ipv4_among any
ipv4_among-any sid addr [] h = absurd (ground arith)
ipv4_among-any sid addr (fip ∷ fips) h = ground (arith, ipv4_among-any sid addr fips)

computed_here :
    (N : Netaddr) (O : OvnConstants) (C : CorePlugin) (s : C.State) (network_id : String)
    (subnet : Subnet) (services : List Service) (port : Port) (nexthop : String) (net : N.Network)
    → find_port O C network_id s ≡ some port
    → localport_ipv4_in_subnet port subnet ≡ some nexthop
    → subnet_network N subnet ≡ some net
    → (compute_service_routes N O C s network_id subnet services).0
      ≡ service_routes N (some net) nexthop services
unfolding compute_service_routes routes_via
computed_here N O C s network_id subnet services port nexthop net f a p = ground arith

-- Let the network have a localport with an address on the subnet, and the subnet's CIDR parse. Then
-- every computed route leads to the IPv4 VIP of one of the services, an enabled one, and by an address
-- that the localport has on the subnet; and no such VIP lies in the subnet.
pub compute_service_routes_lead :
    (N : Netaddr) (O : OvnConstants) (C : CorePlugin) (s : C.State) (network_id : String)
    (subnet : Subnet) (services : List Service) (port : Port) (nexthop : String) (net : N.Network)
    → find_port O C network_id s ≡ some port
    → localport_ipv4_in_subnet port subnet ≡ some nexthop
    → subnet_network N subnet ≡ some net
    → (any (is_on_subnet subnet.id nexthop) port.fixed_ips ≡ true)
      × All
          (LeadsToOne N net nexthop services)
          (compute_service_routes N O C s network_id subnet services).0
unfolding localport_ipv4_in_subnet
compute_service_routes_lead N O C s network_id subnet services port nexthop net f a p = (
  ipv4_among-any subnet.id nexthop port.fixed_ips a,
  subst (All (LeadsToOne N net nexthop services))
      (sym (computed_here N O C s network_id subnet services port nexthop net f a p))
      (service_routes_lead N net nexthop services),
)

-- An enabled binding of the service to the network that the request may list.
abbrev pub binds : Context → String → String → Binding → Bool
binds c network_id id b =
    c.sees b.project_id
    && (b.network_id == network_id && (b.enabled == some true && id == b.service_id))

module _ (N : Netaddr) (O : OvnConstants) (C : CorePlugin) (order : SetOrder String) (s : C.State)
    (t : Tables) (c : Context) where
  -- The service has such a binding, and a VIP in the subnet.
  abbrev pub is_refused : String → N.Network → Service → Bool
  is_refused network_id net svc =
      any (binds c network_id svc.id) t.bindings
      && (is_on_link N net svc.local_ipv4 || is_on_link N net svc.local_ipv6)

  abbrev pub guard : Bool → Subnet → Subnet → Result (Unit {0})
  guard fetched lookup target =
      refuse_overlap_with_attached_vips N O C order s t c fetched lookup target
