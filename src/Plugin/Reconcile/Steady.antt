-- ===== src/Plugin/Reconcile/Steady.antt =====
-- Two passes in a row over a network with attached services.
use neutron_local_services_p.Base.{
  String, ◌≡◌, ap, ◌∙◌, true, Option, some, List, ◌∷◌, string_eq, nat_eq, option_eq, arith,
}
use neutron_local_services_p.Records.{Service, Port, Subnet}
use neutron_local_services_p.Netaddr.{Netaddr}
use neutron_local_services_p.Errors.{ok}
use neutron_local_services_p.CorePlugin.{CorePlugin, OvnConstants, Network}
use neutron_local_services_p.Localport
use neutron_local_services_p.Localport.{find_port}
use neutron_local_services_p.Localport.Verify.{verify_lsp_type}
use neutron_local_services_p.Plugin.Reconcile.{
  MechDriver, verified, ensure_localport, refresh_subnets, refresh_subnet_routes, provide,
  reconcile_services,
}
use neutron_local_services_p.Plugin.Reconcile.Settled.{all_taken, refresh_all_taken}
use neutron_local_services_p.Plugin.Reconcile.Taken.{
  TakesUpdates, IsKept, ids_differ, IsKept-refl, same_port, refresh_subnets-IsKept,
  refresh_subnets-listed, all_listed-taken,
}

module _ (N : Netaddr) (O : OvnConstants) (C : CorePlugin) (D : MechDriver C.State)
    (network_id : String) (svc : Service) (services : List Service) where
  pass_refreshes :
      (s : C.State) (network : Network) (port : Port) (t : Option String) (subnets : List Subnet)
      → C.get_network s network_id ≡ ok network
      → network.id ≡ network_id
      → find_port O C network_id s ≡ some port
      → verify_lsp_type O D.available D.retries (D.lookup s port.id) ≡ ok t
      → C.get_subnets s network_id ≡ ok subnets
      → reconcile_services N O C D (svc ∷ services) network_id s
        ≡ (ok tt, refresh_subnets N O C network_id (svc ∷ services) subnets s)
  unfolding reconcile_services provide ensure_localport verified refresh_subnet_routes
      Localport.ensure_localport
  pass_refreshes s network port t subnets g i f v e = ground arith

  -- Let Neutron take the updates of the network's subnets, let the network be there with its
  -- localport, which passes the check, let services be attached to it and let its subnets have
  -- different ids. Then after a pass each of its IPv4 subnets has the merged routes, in this order
  -- unless it had them before in another one, all else of its subnets is as before, and a second
  -- pass succeeds and changes nothing.
  pub reconcile_services_steady :
      (lawful : TakesUpdates C D network_id) (s : C.State) (network : Network) (port : Port)
      (t : Option String) (subnets : List Subnet)
      → C.get_network s network_id ≡ ok network
      → network.id ≡ network_id
      → find_port O C network_id s ≡ some port
      → verify_lsp_type O D.available D.retries (D.lookup s port.id) ≡ ok t
      → C.get_subnets s network_id ≡ ok subnets
      → ids_differ subnets ≡ true
      → let after = (reconcile_services N O C D (svc ∷ services) network_id s).1 in
        (C.get_subnets after network_id
          ≡ ok (all_taken N O C network_id (svc ∷ services) s subnets))
        × (reconcile_services N O C D (svc ∷ services) network_id after ≡ (ok tt, after))
  reconcile_services_steady lawful s network port t subnets g i f v e differ =
      let all : List Service = svc ∷ services in
      let s' : C.State = refresh_subnets N O C network_id all subnets s in
      let kept : IsKept N O C D network_id all lawful s s' =
        refresh_subnets-IsKept N O C D network_id all lawful s subnets in
      let same : find_port O C network_id s' ≡ find_port O C network_id s =
        same_port N O C D network_id all lawful s s' kept in
      let listed : C.get_subnets s' network_id ≡ ok (all_taken N O C network_id all s subnets) =
        refresh_subnets-listed N O C D network_id all lawful s s subnets subnets
          (IsKept-refl N O C D network_id all lawful s) e
        ∙ ap ok (all_listed-taken N O C D network_id all lawful s subnets differ) in
      let second : reconcile_services N O C D all network_id s' ≡ (ok tt, s') =
        pass_refreshes s' network port t (all_taken N O C network_id all s subnets)
          (kept.network ∙ g) i (same ∙ f) (rw kept.rows v) listed
        ∙ ap (λ u. (ok tt, u)) (refresh_all_taken N O C network_id all s s' same subnets) in
      rw (pass_refreshes s network port t subnets g i f v e) (listed, second)
