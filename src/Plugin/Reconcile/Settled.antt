-- ===== src/Plugin/Reconcile/Settled.antt =====
-- The routes that a refresh wants on a subnet, and the subnet once it has them.
use neutron_local_services_p.Base.{
  String, ◌≡◌, refl, ap, ◌∙◌, true, Option, none, some, List, [], ◌∷◌, ◌==◌, string_eq, nat_eq,
  option_eq, if◌then◌else◌, Bool-cases, inl, inr, arith,
}
use neutron_local_services_p.Records.{Service, Port, Route, Subnet}
use neutron_local_services_p.Netaddr.{Netaddr}
use neutron_local_services_p.CorePlugin.{CorePlugin, OvnConstants}
use neutron_local_services_p.Localport.{find_port}
use neutron_local_services_p.HostRoutes.{
  compute_service_routes, merge, routes_equal, routes_via, localport_ipv4_in_subnet, subnet_network,
}
use neutron_local_services_p.HostRoutes.Merge.{merge_idem}
use neutron_local_services_p.HostRoutes.Handler.{routes_in}
use neutron_local_services_p.HostRoutes.Handler.Injection.{routes_equal_refl}
use neutron_local_services_p.Plugin.Reconcile.{refresh_subnet, refresh_subnets}

module _ (N : Netaddr) (O : OvnConstants) (C : CorePlugin) (network_id : String)
    (services : List Service) where
  -- The routes that a refresh wants on the subnet.
  abbrev pub wanted : C.State → Subnet → List Route
  wanted s subnet =
      let computed = compute_service_routes N O C s network_id subnet services in
      merge (routes_in subnet.host_routes) computed.0 computed.1

  -- The subnet after Neutron has taken the update that a refresh makes, if it makes one.
  abbrev pub taken : C.State → Subnet → Subnet
  taken s subnet =
      if subnet.ip_version == some 4
      then (if routes_equal (wanted s subnet) (routes_in subnet.host_routes)
          then subnet
          else record subnet { host_routes = some (wanted s subnet) })
      else subnet

  abbrev pub all_taken : C.State → List Subnet → List Subnet
  all_taken s [] = []
  all_taken s (subnet ∷ subnets) = taken s subnet ∷ all_taken s subnets

  routes_via_any :
      (found : Option Port) (subnet : Subnet) (routes : List Route)
      → routes_via N found (record subnet { host_routes = some routes }) services
        ≡ routes_via N found subnet services
  unfolding routes_via localport_ipv4_in_subnet subnet_network
  routes_via_any none subnet routes = refl
  routes_via_any (some port) subnet routes = refl

  module _ (s s' : C.State) (same : find_port O C network_id s' ≡ find_port O C network_id s) where
    pub same_routes :
        (subnet : Subnet)
        → compute_service_routes N O C s' network_id subnet services
          ≡ compute_service_routes N O C s network_id subnet services
    unfolding compute_service_routes
    same_routes subnet = rw same refl

    other_routes :
        (subnet : Subnet) (routes : List Route)
        → compute_service_routes N O C s' network_id
            (record subnet { host_routes = some routes })
            services
          ≡ compute_service_routes N O C s network_id subnet services
    unfolding compute_service_routes
    other_routes subnet routes =
        routes_via_any (find_port O C network_id s') subnet routes
        ∙ ap (λ found. routes_via N found subnet services) same

    wanted_twice :
        (subnet : Subnet)
        → wanted s' (record subnet { host_routes = some (wanted s subnet) }) ≡ wanted s subnet
    wanted_twice subnet =
        rw (other_routes subnet (wanted s subnet)) (merge_idem (routes_in subnet.host_routes) _ _)

    settled :
        (subnet : Subnet)
        → routes_equal (wanted s' subnet) (routes_in subnet.host_routes) ≡ true
        → refresh_subnet N O C network_id services s' subnet ≡ s'
    unfolding refresh_subnet
    settled subnet h = ground arith

    refresh_taken :
        (subnet : Subnet) → refresh_subnet N O C network_id services s' (taken s subnet) ≡ s'
    refresh_taken subnet = elim (Bool-cases (subnet.ip_version == some 4)) [
      | inr e ↦ rw e (unfold refresh_subnet in ground arith)
      | inl e ↦ elim (Bool-cases (routes_equal (wanted s subnet) (routes_in subnet.host_routes))) [
        | inl p ↦ rw (e, p) (settled subnet (rw (same_routes subnet) p))
        | inr p ↦
            rw (e, p)
              (settled (record subnet { host_routes = some (wanted s subnet) })
                (rw (wanted_twice subnet) (routes_equal_refl (wanted s subnet))))
      ]
    ]

    pub refresh_all_taken :
        (subnets : List Subnet)
        → refresh_subnets N O C network_id services (all_taken s subnets) s' ≡ s'
    unfolding refresh_subnets
    refresh_all_taken [] = refl
    refresh_all_taken (subnet ∷ subnets) =
        ap (refresh_subnets N O C network_id services (all_taken s subnets)) (refresh_taken subnet)
        ∙ refresh_all_taken subnets
