-- ===== src/Plugin/Reconcile.antt =====
-- `_reconcile_network` and the loop over all networks: the localport of a network and the host
-- routes of its subnets follow the services that are attached to it.
pub mod Settled
pub mod Taken
pub mod Steady
pub mod Rollback
use neutron_local_services_p.Base.{
  ℕ, String, Bool, true, false, not, Option, none, some, List, [], ◌∷◌, ◌==◌, nat_eq, string_eq,
  option_eq, if◌then◌else◌, truthy,
}
use neutron_local_services_p.Base.Sets.{SetOrder}
use neutron_local_services_p.Records.{Service, Port, Subnet}
use neutron_local_services_p.Netaddr.{Netaddr}
use neutron_local_services_p.Errors.{Result, ok, err}
use neutron_local_services_p.CorePlugin.{CorePlugin, OvnConstants}
use neutron_local_services_p.Localport
use neutron_local_services_p.Localport.Verify.{Lookup, verify_lsp_type}
use neutron_local_services_p.HostRoutes.{compute_service_routes, merge, routes_equal}
use neutron_local_services_p.HostRoutes.Effective.{enabled_services_for_network}
use neutron_local_services_p.HostRoutes.Handler.{routes_in}
use neutron_local_services_p.Db.Tables.{Tables, Context}

-- OVN's mechanism driver: whether there is one with a northbound connection, and what round `i` of
-- the lookups of a port's row gives.
pub record MechDriver (State : Type 0) : Type 0 where
  pub available : Bool
  pub retries : ℕ
  pub lookup : State → String → ℕ → Lookup

module _ (N : Netaddr) (O : OvnConstants) (C : CorePlugin) where
  -- The part of `_ensure_localport` after the port is there. The error of the rollback is logged.
  unfoldable pub verified : MechDriver C.State → Result Port × C.State → Result Port × C.State
  verified D (err e, s) = (err e, s)
  verified D (ok port, s) = elim (verify_lsp_type O D.available D.retries (D.lookup s port.id)) [
    | ok _ ↦ (ok port, s)
    | err e ↦ (err e, (C.delete_port s port.id).1)
  ]

  unfoldable pub ensure_localport : MechDriver C.State → String → C.State → Result Port × C.State
  unfolding verified
  ensure_localport D network_id s = elim (C.get_network s network_id) [
    | err e ↦ (err e, s)
    | ok network ↦ verified D (Localport.ensure_localport O C network s)
  ]

  -- The loop body of `_refresh_subnet_routes`. An error of the update is logged.
  unfoldable pub refresh_subnet : String → List Service → C.State → Subnet → C.State
  refresh_subnet network_id services s subnet =
      let computed = compute_service_routes N O C s network_id subnet services in
      let existing = routes_in subnet.host_routes in
      let merged = merge existing computed.0 computed.1 in
      if not (subnet.ip_version == some 4)
      then s
      else if routes_equal merged existing
      then s
      else (C.update_subnet s subnet.id merged).1

  unfoldable pub refresh_subnets : String → List Service → List Subnet → C.State → C.State
  unfolding refresh_subnet
  refresh_subnets network_id services [] s = s
  refresh_subnets network_id services (subnet ∷ subnets) s =
      refresh_subnets network_id services subnets (refresh_subnet network_id services s subnet)

  -- `services` are the enabled services of the network.
  unfoldable pub refresh_subnet_routes :
      List Service → String → C.State → Result (Unit {0}) × C.State
  unfolding refresh_subnets
  refresh_subnet_routes services network_id s = elim (C.get_subnets s network_id) [
    | err e ↦ (err e, s)
    | ok subnets ↦ (ok tt, refresh_subnets network_id services subnets s)
  ]

  abbrev is_nonempty : List Service → Bool
  is_nonempty [] = false
  is_nonempty (svc ∷ services) = true

  abbrev finished : Result Bool × C.State → Result (Unit {0}) × C.State
  finished (ok _, s) = (ok tt, s)
  finished (err e, s) = (err e, s)

  unfoldable pub maybe_remove_localport :
      List Service → String → C.State → Result (Unit {0}) × C.State
  maybe_remove_localport services network_id s =
      finished (Localport.maybe_remove_localport O C network_id (is_nonempty services) s)

  -- The two branches, which run their second call only if the first one returns.
  unfoldable pub provide :
      List Service → String → Result Port × C.State → Result (Unit {0}) × C.State
  unfolding refresh_subnet_routes
  provide services network_id (err e, s) = (err e, s)
  provide services network_id (ok port, s) = refresh_subnet_routes services network_id s

  unfoldable pub withdraw :
      List Service → String → Result (Unit {0}) × C.State → Result (Unit {0}) × C.State
  unfolding maybe_remove_localport
  withdraw services network_id (err e, s) = (err e, s)
  withdraw services network_id (ok _, s) = maybe_remove_localport services network_id s

  unfoldable pub reconcile_services :
      MechDriver C.State → List Service → String → C.State → Result (Unit {0}) × C.State
  unfolding provide withdraw ensure_localport
  reconcile_services D [] network_id s =
      withdraw [] network_id (refresh_subnet_routes [] network_id s)
  reconcile_services D (svc ∷ services) network_id s =
      provide (svc ∷ services) network_id (ensure_localport D network_id s)

  module _ (D : MechDriver C.State) (order : SetOrder String) (c : Context) where
    unfoldable pub reconcile_network : Tables → String → C.State → Result (Unit {0}) × C.State
    unfolding reconcile_services
    reconcile_network t network_id s =
        reconcile_services D (enabled_services_for_network order t c network_id) network_id s

    -- The loop of `_reconcile_loop`. A network that fails is logged, one without an id is skipped.
    unfoldable pub reconcile_networks : Tables → List (Option String) → C.State → C.State
    unfolding reconcile_network
    reconcile_networks t [] s = s
    reconcile_networks t (id ∷ ids) s =
        reconcile_networks t ids
          (elim (truthy id) [ none ↦ s | some network_id ↦ (reconcile_network t network_id s).1 ])

    unfoldable pub reconcile_loop : Tables → C.State → C.State
    unfolding reconcile_networks
    reconcile_loop t s = elim (C.get_networks s) [
      | err _ ↦ s
      | ok networks ↦ reconcile_networks t networks s
    ]
