-- ===== src/Plugin/Requests/VipChange.antt =====
-- A service whose VIP is changed, against the subnets of the networks it is bound to.
use neutron_local_services_p.Base.{
  String, ◌≡◌, refl, sym, ap, ◌∙◌, Bool, true, false, not, ◌&&◌, none, some, List, [], ◌∷◌, ◌==◌,
  option_eq, filter, string_eq, any, arith, inl, inr,
}
use neutron_local_services_p.Records.{Service, Binding}
use neutron_local_services_p.Netaddr.{Netaddr}
use neutron_local_services_p.Errors.{ok, err, Result-cases, bind-ok, ◌>>=◌}
use neutron_local_services_p.CorePlugin.{CorePlugin}
use neutron_local_services_p.Db.Vip.{VipOptions}
use neutron_local_services_p.Db.Tables.{
  Tables, Context, binding_passes, get_local_service_bindings, bool_eq,
}
use neutron_local_services_p.Db.Services
use neutron_local_services_p.Db.Services.{
  ServicePatch, apply_patch, touches_vip, get_or, get_local_service,
}
use neutron_local_services_p.Plugin.{service_vips, refuse_vips_overlap_network}
use neutron_local_services_p.Plugin.Refusal.{
  negated, returns, holds_vip, holds_one, refuse_subnets-returns, any-holds, returns-then, any_none,
}
use neutron_local_services_p.Plugin.Requests.{
  refuse_networks, enabled_bindings, refuse_candidates, refuse_new_vips, update_local_service,
}

module _ (N : Netaddr) (C : CorePlugin) (s : C.State) where
  -- The network has a subnet in which a VIP of the service lies.
  abbrev pub network_holds : Service → Binding → Bool
  network_holds svc b = elim (C.get_subnets s b.network_id) [
    | err _ ↦ false
    | ok subnets ↦ any (holds_vip N svc) subnets
  ]

  abbrev network_holds_one : List N.Address → Binding → Bool
  network_holds_one vips b = elim (C.get_subnets s b.network_id) [
    | err _ ↦ true
    | ok subnets ↦ any (holds_one N vips) subnets
  ]

  refuse_network-returns :
      (vips : List N.Address) (b : Binding)
      → returns (refuse_vips_overlap_network N C s vips b.network_id)
        ≡ not (network_holds_one vips b)
  unfolding refuse_vips_overlap_network
  refuse_network-returns vips b = elim (Result-cases (C.get_subnets s b.network_id)) [
    | inl (e, p) ↦ ground arith
    | inr (subnets, p) ↦ ground (arith, refuse_subnets-returns N vips subnets)
  ]

  refuse_networks-returns :
      (vips : List N.Address) (bindings : List Binding)
      → returns (refuse_networks N C s vips bindings) ≡ not (any (network_holds_one vips) bindings)
  unfolding refuse_networks any
  refuse_networks-returns vips [] = refl
  refuse_networks-returns vips (b ∷ bindings) = ground (
    arith,
    returns-then N (refuse_vips_overlap_network N C s vips b.network_id)
        (refuse_networks N C s vips bindings),
    refuse_network-returns vips b,
    refuse_networks-returns vips bindings,
  )

  network_holds_weaker :
      (svc : Service) (vips : List N.Address) (b : Binding)
      → service_vips N svc ≡ ok vips
      → network_holds_one vips b ≡ false
      → network_holds svc b ≡ false
  network_holds_weaker svc vips b p h = elim (Result-cases (C.get_subnets s b.network_id)) [
    | inl (e, q) ↦ ground arith
    | inr (subnets, q) ↦ ground (arith, any-holds N svc vips subnets p)
  ]

  networks_hold_weaker :
      (svc : Service) (vips : List N.Address) (bindings : List Binding)
      → service_vips N svc ≡ ok vips
      → any (network_holds_one vips) bindings ≡ false
      → any (network_holds svc) bindings ≡ false
  unfolding any
  networks_hold_weaker svc vips [] p h = refl
  networks_hold_weaker svc vips (b ∷ bindings) p h =
      ground (arith, network_holds_weaker svc vips b p, networks_hold_weaker svc vips bindings p)

  no_vips :
      (svc : Service) (bindings : List Binding)
      → service_vips N svc ≡ ok []
      → any (network_holds svc) bindings ≡ false
  unfolding any
  no_vips svc [] p = refl
  no_vips svc (b ∷ bindings) p = elim (Result-cases (C.get_subnets s b.network_id)) [
    | inl (e, q) ↦ ground (arith, no_vips svc bindings p)
    | inr (subnets, q) ↦
        ground (arith, no_vips svc bindings p, any-holds N svc [] subnets p, any_none N subnets)
  ]

  module _ (conf : VipOptions) (c : Context) (id : String) (body : ServicePatch)
      (t t' : Tables) where
    update_cases :
        (svc : Service)
        → update_local_service N C s conf c id body t ≡ ok (svc, t')
        → touches_vip body ≡ true
        → (refuse_new_vips N C s t c id body ≡ ok tt)
          × (Services.update_local_service N conf id body t ≡ ok (svc, t'))
    unfolding update_local_service
    update_cases svc h k = ground arith

    row_cases :
        (svc : Service)
        → Services.update_local_service N conf id body t ≡ ok (svc, t')
        → (old : Service) × (get_local_service id t ≡ ok old) × (svc ≡ apply_patch body old)
    unfolding Services.update_local_service get_local_service
    row_cases svc h = ground arith

    refuse_new_vips-eq :
        (old : Service)
        → get_local_service id t ≡ ok old
        → refuse_new_vips N C s t c id body
          ≡ (service_vips N (apply_patch body old) >>= refuse_candidates N C s t c id)
    unfolding refuse_new_vips service_vips apply_patch
    refuse_new_vips-eq old g = ground arith

    candidates_free :
        (svc : Service) (vips : List N.Address)
        → service_vips N svc ≡ ok vips
        → refuse_candidates N C s t c id vips ≡ ok tt
        → any (network_holds svc) (enabled_bindings N C s t c id) ≡ false
    unfolding refuse_candidates
    candidates_free svc [] p h = no_vips svc _ p
    candidates_free svc (vip ∷ vips) p h = networks_hold_weaker svc (vip ∷ vips) _ p (
        negated _ (
          sym (refuse_networks-returns (vip ∷ vips) (enabled_bindings N C s t c id))
          ∙ ap returns h))

    -- The row binds the service to its network, is enabled, and may be listed by the request.
    abbrev pub binds : Binding → Bool
    binds b = c.sees b.project_id && (b.service_id == id && b.enabled == some true)

    -- Some row binds the service to a network with a subnet in which a VIP of it lies.
    abbrev pub holds_bound : Service → Binding → Bool
    holds_bound svc b = binds b && network_holds svc b

    holds_bound-filter :
        (svc : Service) (bindings : List Binding)
        → any (network_holds svc) (
            filter
              (binding_passes c (record {
                network_id = none;
                service_id = some (id ∷ []);
                enabled = some (some true ∷ []);
              }))
              bindings)
          ≡ any (holds_bound svc) bindings
    unfolding any filter binding_passes
    holds_bound-filter svc [] = refl
    holds_bound-filter svc (b ∷ bindings) = ground (arith, holds_bound-filter svc bindings)

    -- A request that changes a VIP and returns gives a service no VIP of which lies in any subnet,
    -- of those whose CIDR parses, of any network to which the tables hold an enabled binding of the
    -- service that the request may list.
    pub update_service_off_link :
        (svc : Service)
        → update_local_service N C s conf c id body t ≡ ok (svc, t')
        → touches_vip body ≡ true
        → any (holds_bound svc) t.bindings ≡ false
    unfolding get_local_service_bindings
    update_service_off_link svc h k =
        let (checked, written) = update_cases svc h k in
        let (old, g, e) = row_cases svc written in
        let (vips, p, free) =
          bind-ok (service_vips N (apply_patch body old)) (refuse_candidates N C s t c id) tt
            (sym (refuse_new_vips-eq old g) ∙ checked) in
        sym (holds_bound-filter svc t.bindings) ∙ candidates_free svc vips (rw e p) free
