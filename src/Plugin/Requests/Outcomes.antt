-- ===== src/Plugin/Requests/Outcomes.antt =====
-- What the three tables and the network look like after a request that writes a binding.
use neutron_local_services_p.Base.{
  String, ◌≡◌, refl, sym, ap, ◌∙◌, false, some, List, [], ◌∷◌, ◌++◌, string_eq, contains, any,
  filter, find?, arith, ◌⊎◌, inl, inr,
}
use neutron_local_services_p.Base.Sets.{SetOrder}
use neutron_local_services_p.Records.{Service, Binding, Subnet}
use neutron_local_services_p.Netaddr.{Netaddr}
use neutron_local_services_p.Errors.{Error, Result, ok, err, Result-cases}
use neutron_local_services_p.CorePlugin.{CorePlugin, OvnConstants}
use neutron_local_services_p.Db.Rows.{ids, remove, by_key}
use neutron_local_services_p.Db.Vip.{VipOptions}
use neutron_local_services_p.Db.Tables.{Tables, Context, get_binding}
use neutron_local_services_p.Db.Services.{get_local_service}
use neutron_local_services_p.Db.Bindings
use neutron_local_services_p.Db.Bindings.{BindingBody, new_binding}
use neutron_local_services_p.Db.Consistency.{IsConsistent}
use neutron_local_services_p.Db.Consistency.Methods.{
  create_binding, after_row, after_delete, commit,
}
use neutron_local_services_p.Db.Consistency.Preservation
use neutron_local_services_p.Plugin.{refuse_vip_subnet_overlap}
use neutron_local_services_p.Plugin.Refusal.{holds_vip, refuse_vip_subnet_overlap_passed}
use neutron_local_services_p.Plugin.Reconcile.{MechDriver, reconcile_network}
use neutron_local_services_p.Plugin.Requests.{roll_back, created, create_local_service_binding}

-- A row that was appended under a fresh key goes again when that key is deleted.
remove_fresh :
    (uuid : String) (b : Binding) (rows : List Binding)
    → b.id ≡ uuid
    → contains (ids (λ r. r.id) rows) uuid ≡ false
    → remove (λ r. r.id) uuid (rows ++ b ∷ []) ≡ rows
unfolding remove filter
remove_fresh uuid b [] e f = ground arith
remove_fresh uuid b (r ∷ rows) e f = ground (arith, remove_fresh uuid b rows)

found_fresh :
    (uuid : String) (b : Binding) (rows : List Binding)
    → b.id ≡ uuid
    → contains (ids (λ r. r.id) rows) uuid ≡ false
    → by_key (λ r. r.id) uuid (rows ++ b ∷ []) ≡ some b
unfolding by_key find?
found_fresh uuid b [] e f = ground arith
found_fresh uuid b (r ∷ rows) e f = ground (arith, found_fresh uuid b rows)

pub undo :
    (t : Tables) (b : Binding)
    → contains (ids (λ r. r.id) t.bindings) b.id ≡ false
    → after_delete
        (record t { bindings = t.bindings ++ b ∷ [] })
        (Bindings.delete_local_service_binding b.id (record t { bindings = t.bindings ++ b ∷ [] }))
      ≡ t
unfolding Bindings.delete_local_service_binding get_binding
undo t b f = rw (found_fresh b.id b t.bindings refl f, remove_fresh b.id b t.bindings refl f) refl

module _ (N : Netaddr) (O : OvnConstants) (C : CorePlugin) (D : MechDriver C.State)
    (order : SetOrder String) (c : Context) (uuid : String) (body : BindingBody) (t : Tables)
    (s : C.State) where
  abbrev pub answer : Result Binding × (Tables × C.State)
  answer = create_local_service_binding N O C D order c uuid body t s

  -- The binding is there, and the pass over its network succeeded.
  abbrev pub IsCreated : Type 0
  IsCreated =
      (b : Binding) × (t' : Tables) × (refuse_vip_subnet_overlap N C s t body.service_id
          body.network_id
        ≡ ok tt)
      × (Bindings.create_local_service_binding uuid body t ≡ ok (b, t'))
      × ((reconcile_network N O C D order c t' b.network_id s).0 ≡ ok tt)
      × (answer.0 ≡ ok b)
      × (answer.1.0 ≡ t')

  abbrev pub IsRefused : Type 0
  IsRefused = (e : Error) × (answer.0 ≡ err e) × (answer.1.0 ≡ t)

  row_cases :
      (b : Binding) (t' : Tables)
      → Bindings.create_local_service_binding uuid body t ≡ ok (b, t')
      → (b ≡ new_binding uuid body)
        × (t' ≡ record t { bindings = t.bindings ++ new_binding uuid body ∷ [] })
  unfolding Bindings.create_local_service_binding
  row_cases b t' h = ground arith

  roll_back_cases :
      (b : Binding) (t' : Tables) (r : Result (Unit {0}) × C.State)
      → after_delete t' (Bindings.delete_local_service_binding b.id t') ≡ t
      → let back = roll_back N O C D order c b t' r in
        ((e : Error) × (back.0 ≡ err e) × (back.1.0 ≡ t))
        ⊎ ((r.0 ≡ ok tt) × (back.0 ≡ ok b) × (back.1.0 ≡ t'))
  unfolding roll_back
  roll_back_cases b t' (ok tt, s') u = inr (refl, refl, refl)
  roll_back_cases b t' (err e, s') u = inl (e, refl, u)

  row_undone :
      (b : Binding) (t' : Tables)
      → contains (ids (λ r. r.id) t.bindings) uuid ≡ false
      → Bindings.create_local_service_binding uuid body t ≡ ok (b, t')
      → after_delete t' (Bindings.delete_local_service_binding b.id t') ≡ t
  unfolding new_binding
  row_undone b t' fresh h =
      let (e, e') = row_cases b t' h in rw (e', e) (undo t (new_binding uuid body) fresh)

  after_row_written :
      (b : Binding) (t' : Tables)
      → refuse_vip_subnet_overlap N C s t body.service_id body.network_id ≡ ok tt
      → Bindings.create_local_service_binding uuid body t ≡ ok (b, t')
      → answer
        ≡ roll_back N O C D order c b t' (reconcile_network N O C D order c t' b.network_id s)
  unfolding create_local_service_binding created
  after_row_written b t' p q = ground arith

  -- With a fresh key there are two outcomes: an exception, with the tables as they were before, or
  -- the binding as the mixin writes it, whose network then has been reconciled without an error.
  pub create_binding_outcomes :
      contains (ids (λ r. r.id) t.bindings) uuid ≡ false → IsRefused ⊎ IsCreated
  unfolding create_local_service_binding created
  create_binding_outcomes fresh =
      elim (Result-cases (refuse_vip_subnet_overlap N C s t body.service_id body.network_id)) [
        | inl (e, p) ↦ inl (e, ground arith, ground arith)
        | inr (u, p) ↦ elim (Result-cases (Bindings.create_local_service_binding uuid body t)) [
          | inl (e, q) ↦ inl (e, ground arith, ground arith)
          | inr ((b, t'), q) ↦
              elim (roll_back_cases b t' (reconcile_network N O C D order c t' b.network_id s)
                (row_undone b t' fresh q)) [
                  | inl (e, r, r') ↦
                      let w = after_row_written b t' p q in
                      inl (e, ap (λ a. a.0) w ∙ r, ap (λ a. a.1.0) w ∙ r')
                  | inr (k, r, r') ↦
                      let w = after_row_written b t' p q in
                      inr (b, t', p, q, k, ap (λ a. a.0) w ∙ r, ap (λ a. a.1.0) w ∙ r')
                ]
        ]
      ]

  -- With a fresh key, a request that raises leaves the three tables as they were, whatever step it
  -- fails in; Neutron's ports and routes may have changed.
  pub create_binding_failed :
      (e : Error)
      → contains (ids (λ r. r.id) t.bindings) uuid ≡ false
      → answer.0 ≡ err e
      → answer.1.0 ≡ t
  create_binding_failed e fresh h = elim (create_binding_outcomes fresh) [
    | inl (x, p, q) ↦ q
    | inr (b, t', p, q, r, k, k') ↦ absurd (ground (arith, sym h ∙ k))
  ]

  -- With a fresh key, a request that returns has bound a service no VIP of which lies in any subnet
  -- that the network had, of those whose CIDR parses.
  pub create_binding_off_link :
      (b : Binding) (svc : Service) (subnets : List Subnet)
      → contains (ids (λ r. r.id) t.bindings) uuid ≡ false
      → answer.0 ≡ ok b
      → get_local_service body.service_id t ≡ ok svc
      → C.get_subnets s body.network_id ≡ ok subnets
      → any (holds_vip N svc) subnets ≡ false
  create_binding_off_link b svc subnets fresh h g e = elim (create_binding_outcomes fresh) [
    | inl (x, p, q) ↦ absurd (ground (arith, sym h ∙ p))
    | inr (b', t', p, q, r, k, k') ↦
        refuse_vip_subnet_overlap_passed N C s t body.service_id body.network_id svc subnets g e p
  ]

  written_IsConsistent :
      (conf : VipOptions) (t' : Tables)
      → after_row t (Bindings.create_local_service_binding uuid body t) ≡ t'
      → IsConsistent (commit N conf (create_binding uuid body) t)
      → IsConsistent t'
  unfolding commit
  written_IsConsistent conf t' h k = rw h at k

  -- With a fresh key, the request keeps consistent tables consistent, whether it returns or raises.
  pub create_binding-IsConsistent :
      (conf : VipOptions)
      → contains (ids (λ r. r.id) t.bindings) uuid ≡ false
      → IsConsistent t
      → IsConsistent answer.1.0
  create_binding-IsConsistent conf fresh k = elim (create_binding_outcomes fresh) [
    | inl (e, p, q) ↦ rw q k
    | inr (b, t', p, written, r, h, h') ↦ rw h' (
        written_IsConsistent conf t' (ap (after_row t) written)
          (Preservation.commit-IsConsistent N conf t k (create_binding uuid body) fresh))
  ]
