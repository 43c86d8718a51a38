-- ===== src/Plugin/Requests.antt =====
-- The methods of the plugin that wrap those of the mixin: the checks before a row is written, and
-- the pass over the network after it. A method gives its result, the tables and Neutron's state.
pub mod Outcomes
pub mod VipChange
use neutron_local_services_p.Base.{
  String, Bool, true, false, Option, none, some, List, [], ◌∷◌, string_eq, if◌then◌else◌,
}
use neutron_local_services_p.Base.Sets.{SetOrder}
use neutron_local_services_p.Records.{Service, Binding}
use neutron_local_services_p.Netaddr.{Netaddr}
use neutron_local_services_p.Errors.{Result, ok, err, ◌>>=◌, ◌>>◌}
use neutron_local_services_p.CorePlugin.{CorePlugin, OvnConstants}
use neutron_local_services_p.Db.Vip.{VipOptions}
use neutron_local_services_p.Db.Tables.{Tables, Context, get_local_service_bindings}
use neutron_local_services_p.Db.Services
use neutron_local_services_p.Db.Services.{ServicePatch, get_or, touches_vip, get_local_service}
use neutron_local_services_p.Db.Bindings
use neutron_local_services_p.Db.Bindings.{BindingBody, get_local_service_binding}
use neutron_local_services_p.Db.Consistency.Methods.{after_delete}
use neutron_local_services_p.Plugin.{
  parse_vips, refuse_vips_overlap_network, refuse_vip_subnet_overlap,
}
use neutron_local_services_p.Plugin.Reconcile.{MechDriver, reconcile_network}

module _ (N : Netaddr) (C : CorePlugin) (s : C.State) where
  -- The loop over the bindings of the service.
  unfoldable pub refuse_networks : List N.Address → List Binding → Result (Unit {0})
  refuse_networks vips [] = ok tt
  refuse_networks vips (b ∷ bindings) =
      refuse_vips_overlap_network N C s vips b.network_id >> refuse_networks vips bindings

  abbrev pub enabled_bindings : Tables → Context → String → List Binding
  enabled_bindings t c id =
      get_local_service_bindings t c
        (record { network_id = none; service_id = some (id ∷ []); enabled = some (some true ∷ []) })

  -- `if candidates:`
  unfoldable pub refuse_candidates : Tables → Context → String → List N.Address → Result (Unit {0})
  unfolding refuse_networks
  refuse_candidates t c id [] = ok tt
  refuse_candidates t c id (vip ∷ vips) = refuse_networks (vip ∷ vips) (enabled_bindings t c id)

  -- The block under `if 'local_ipv4' in body or 'local_ipv6' in body`.
  unfoldable pub refuse_new_vips : Tables → Context → String → ServicePatch → Result (Unit {0})
  unfolding refuse_candidates
  refuse_new_vips t c id body = do
    existing ← get_local_service id t
    candidates ←
        parse_vips N (get_or body.local_ipv4 existing.local_ipv4)
          (get_or body.local_ipv6 existing.local_ipv6)
    refuse_candidates t c id candidates

  unfoldable pub update_local_service :
      VipOptions → Context → String → ServicePatch → Tables → Result (Service × Tables)
  unfolding refuse_new_vips touches_vip
  update_local_service conf c id body t = do
    if touches_vip body then refuse_new_vips t c id body else ok tt
    Services.update_local_service N conf id body t

module _ (N : Netaddr) (O : OvnConstants) (C : CorePlugin) (D : MechDriver C.State)
    (order : SetOrder String) (c : Context) where
  -- After the row is written: a network that fails takes the row back.
  unfoldable pub roll_back :
      Binding → Tables → Result (Unit {0}) × C.State → Result Binding × (Tables × C.State)
  roll_back b t (ok _, s) = (ok b, (t, s))
  roll_back b t (err e, s) =
      (err e, (after_delete t (Bindings.delete_local_service_binding b.id t), s))

  unfoldable pub created :
      Tables → Result (Binding × Tables) → C.State → Result Binding × (Tables × C.State)
  unfolding roll_back reconcile_network
  created t (err e) s = (err e, (t, s))
  created t (ok (b, t')) s = roll_back b t' (reconcile_network N O C D order c t' b.network_id s)

  -- `uuid` is what `generate_uuid` returns.
  unfoldable pub create_local_service_binding :
      String → BindingBody → Tables → C.State → Result Binding × (Tables × C.State)
  unfolding created
  create_local_service_binding uuid body t s =
      elim (refuse_vip_subnet_overlap N C s t body.service_id body.network_id) [
        | err e ↦ (err e, (t, s))
        | ok _ ↦ created t (Bindings.create_local_service_binding uuid body t) s
      ]

  -- `if body.get('enabled') is True`
  unfoldable pub recheck : Option Bool → String → Tables → C.State → Result (Unit {0})
  recheck none id t s = ok tt
  recheck (some false) id t s = ok tt
  recheck (some true) id t s = get_local_service_binding id t >>= λ existing.
      refuse_vip_subnet_overlap N C s t existing.service_id existing.network_id

  unfoldable pub updated :
      Tables → Result (Binding × Tables) → C.State → Result Binding × (Tables × C.State)
  unfolding reconcile_network
  updated t (err e) s = (err e, (t, s))
  updated t (ok (b, t')) s = (ok b, (t', (reconcile_network N O C D order c t' b.network_id s).1))

  unfoldable pub update_local_service_binding :
      String → Option Bool → Tables → C.State → Result Binding × (Tables × C.State)
  unfolding recheck updated
  update_local_service_binding id enabled t s = elim (recheck enabled id t s) [
    | err e ↦ (err e, (t, s))
    | ok _ ↦ updated t (Bindings.update_local_service_binding id enabled t) s
  ]

  unfoldable pub deleted :
      Binding → Tables → Result Tables → C.State → Result (Unit {0}) × (Tables × C.State)
  unfolding reconcile_network
  deleted b t (err e) s = (err e, (t, s))
  deleted b t (ok t') s = (ok tt, (t', (reconcile_network N O C D order c t' b.network_id s).1))

  unfoldable pub delete_local_service_binding :
      String → Tables → C.State → Result (Unit {0}) × (Tables × C.State)
  unfolding deleted
  delete_local_service_binding id t s = elim (get_local_service_binding id t) [
    | err e ↦ (err e, (t, s))
    | ok b ↦ deleted b t (Bindings.delete_local_service_binding id t) s
  ]
