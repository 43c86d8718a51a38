-- ===== src/HostRoutes/Effective/Members.antt =====
-- Which services the two loops collect.
use neutron_local_services_p.Base.{
  String, ◌≡◌, refl, ◌∙◌, Bool, true, false, not, ◌&&◌, ◌||◌, none, some, List, [], ◌∷◌, ◌==◌,
  string_eq, option_eq, if◌then◌else◌, any, filter, contains, contains-append, default_true, Nodup,
  arith,
}
use neutron_local_services_p.Base.Sets.{SetOrder}
use neutron_local_services_p.Constants.{attach_opt_out}
use neutron_local_services_p.Records.{Service, Binding}
use neutron_local_services_p.Errors.{Result, ok, err}
use neutron_local_services_p.Db.Rows.{ids, ids-append, ids-snoc-Nodup, by_key-key}
use neutron_local_services_p.Db.Tables.{
  Tables, Context, BindingFilter, ServiceFilter, get_service, binding_passes, service_passes,
  get_local_service_bindings, get_local_services, bool_eq,
}
use neutron_local_services_p.Db.Services.{get_local_service}
use neutron_local_services_p.HostRoutes.Effective.{
  Attached, attach, attach_explicit, explicit_loop, attach_implicit, implicit_loop, enabled_ids,
  excluded_ids, network_bindings, opt_out_services, nothing_attached, enabled_services_for_network,
}

abbrev pub attached_ids : List Service → List String
attached_ids = ids (λ s. s.id)

-- The service exists and is enabled.
abbrev pub is_on : Tables → String → Bool
is_on t k = elim (get_service t k) [ none ↦ false | some s ↦ default_true s.enabled ]

-- `seen` holds the ids of the collected services, which are all different.
record IsTracked (a : Attached) : Type 0 where
  same : (k : String) → contains (attached_ids a.services) k ≡ contains a.seen k
  distinct : Nodup (attached_ids a.services)

attach-IsTracked :
    (svc : Service) (a : Attached)
    → contains a.seen svc.id ≡ false
    → IsTracked a
    → IsTracked (attach svc.id svc a)
attach-IsTracked svc a new h = record {
  same = λ k.
      rw (ids-append (λ (s : Service). s.id) a.services (svc ∷ []), contains-append)
        (ground (arith, h.same k));
  distinct = ids-snoc-Nodup (λ s. s.id) svc a.services (h.same svc.id ∙ new) h.distinct;
}

pub id-get_local_service :
    (t : Tables) (sid : String) (svc : Service)
    → get_local_service sid t ≡ ok svc
    → (svc.id ≡ sid) × (get_service t sid ≡ some svc)
unfolding get_local_service get_service
id-get_local_service t sid svc h =
    let found : get_service t sid ≡ some svc = ground arith in
    (by_key-key (λ (s : Service). s.id) sid t.services svc found, found)

attach_if-IsTracked :
    (svc : Service) (a : Attached) (b : Bool)
    → (b ≡ true → contains a.seen svc.id ≡ false)
    → IsTracked a
    → IsTracked (if b then attach svc.id svc a else a)
attach_if-IsTracked svc a true new h = attach-IsTracked svc a (new refl) h
attach_if-IsTracked svc a false new h = h

explicit_step-IsTracked :
    (t : Tables) (a : Attached) (sid : String) (r : Result Service)
    → get_local_service sid t ≡ r
    → IsTracked a
    → IsTracked (attach_explicit t a sid)
unfolding attach_explicit
explicit_step-IsTracked t a sid (err e) h tracked =
    let same : attach_explicit t a sid ≡ a = ground arith in rw same tracked
explicit_step-IsTracked t a sid (ok svc) h tracked =
    let (named, _) = id-get_local_service t sid svc h in
    let adds : Bool = default_true svc.enabled && not (contains a.seen svc.id) in
    let step : attach_explicit t a sid ≡ (if adds then attach svc.id svc a else a) = ground arith in
    rw step (attach_if-IsTracked svc a adds (λ e. ground arith) tracked)

explicit_step-seen :
    (t : Tables) (a : Attached) (sid k : String)
    → contains (attach_explicit t a sid).seen k ≡ (contains a.seen k || (k == sid && is_on t k))
unfolding attach_explicit get_local_service
explicit_step-seen t a sid k = ground arith

explicit_loop-IsTracked :
    (t : Tables) (a : Attached) (sids : List String)
    → IsTracked a
    → IsTracked (explicit_loop t a sids)
unfolding explicit_loop
explicit_loop-IsTracked t a [] h = h
explicit_loop-IsTracked t a (sid ∷ sids) h =
    explicit_loop-IsTracked t (attach_explicit t a sid) sids
      (explicit_step-IsTracked t a sid (get_local_service sid t) refl h)

explicit_loop-seen :
    (t : Tables) (a : Attached) (sids : List String) (k : String)
    → contains (explicit_loop t a sids).seen k
      ≡ (contains a.seen k || (contains sids k && is_on t k))
unfolding explicit_loop
explicit_loop-seen t a [] k = ground arith
explicit_loop-seen t a (sid ∷ sids) k =
    explicit_loop-seen t (attach_explicit t a sid) sids k
    ∙ rw (explicit_step-seen t a sid k) (ground arith)

implicit_step-IsTracked :
    (excluded : List String) (a : Attached) (svc : Service) (b : Bool)
    → (contains excluded svc.id || contains a.seen svc.id) ≡ b
    → IsTracked a
    → IsTracked (attach_implicit excluded a svc)
unfolding attach_implicit
implicit_step-IsTracked excluded a svc true e h = rw e h
implicit_step-IsTracked excluded a svc false e h = rw e (attach-IsTracked svc a (ground arith) h)

implicit_loop-IsTracked :
    (excluded : List String) (a : Attached) (svcs : List Service)
    → IsTracked a
    → IsTracked (implicit_loop excluded a svcs)
unfolding implicit_loop
implicit_loop-IsTracked excluded a [] h = h
implicit_loop-IsTracked excluded a (svc ∷ svcs) h =
    implicit_loop-IsTracked excluded (attach_implicit excluded a svc) svcs (
      implicit_step-IsTracked excluded a svc (contains excluded svc.id || contains a.seen svc.id)
        refl h)

implicit_loop-seen :
    (excluded : List String) (a : Attached) (svcs : List Service) (k : String)
    → contains (implicit_loop excluded a svcs).seen k
      ≡ (contains a.seen k || (contains (attached_ids svcs) k && not (contains excluded k)))
unfolding implicit_loop
implicit_loop-seen excluded a [] k = ground arith
implicit_loop-seen excluded a (svc ∷ svcs) k =
    implicit_loop-seen excluded (attach_implicit excluded a svc) svcs k ∙ ground arith

-- Tests on the rows of the tables. An enabled binding of the service `k` to the network; one that is
-- not enabled; and an enabled opt-out service with the id `k`: each as far as the request may see it.
module _ (c : Context) (network_id k : String) where
  abbrev pub binds : Binding → Bool
  binds b =
      c.sees b.project_id
      && (b.network_id == network_id && (default_true b.enabled && k == b.service_id))

  abbrev pub opts_out : Binding → Bool
  opts_out b =
      c.sees b.project_id
      && (b.network_id == network_id && (not (default_true b.enabled) && k == b.service_id))

  abbrev pub is_offered : Service → Bool
  is_offered s =
      c.sees s.project_id
      && (s.attachment_policy == some "opt-out" && (s.enabled == some true && k == s.id))

  abbrev of_network : BindingFilter
  of_network = record { network_id = some (network_id ∷ []); service_id = none; enabled = none }

  enabled_ids-any :
      (bindings : List Binding)
      → contains (enabled_ids (filter (binding_passes c of_network) bindings)) k
        ≡ any binds bindings
  unfolding enabled_ids filter binding_passes any
  enabled_ids-any [] = refl
  enabled_ids-any (b ∷ bindings) = ground (arith, enabled_ids-any bindings)

  excluded_ids-any :
      (bindings : List Binding)
      → contains (excluded_ids (filter (binding_passes c of_network) bindings)) k
        ≡ any opts_out bindings
  unfolding excluded_ids filter binding_passes any
  excluded_ids-any [] = refl
  excluded_ids-any (b ∷ bindings) = ground (arith, excluded_ids-any bindings)

  abbrev of_opt_out : ServiceFilter
  of_opt_out = record {
    attachment_policy = some (some attach_opt_out ∷ []);
    enabled = some (some true ∷ []);
  }

  offered-any :
      (services : List Service)
      → contains (attached_ids (filter (service_passes c of_opt_out) services)) k
        ≡ any is_offered services
  unfolding filter service_passes any
  offered-any [] = refl
  offered-any (s ∷ services) = ground (arith, offered-any services)

module _ (order : SetOrder String) (t : Tables) (c : Context) (network_id : String) where
  -- The two ways in which a service with the id `k` is attached.
  abbrev pub is_bound : String → Bool
  is_bound k = any (binds c network_id k) t.bindings && is_on t k

  abbrev pub is_implied : String → Bool
  is_implied k =
      any (is_offered c network_id k) t.services && not (any (opts_out c network_id k) t.bindings)

  loops-IsTracked : IsTracked (
      implicit_loop
        (excluded_ids (network_bindings t c network_id))
        (explicit_loop t nothing_attached
          (order.visit (enabled_ids (network_bindings t c network_id))))
        (opt_out_services t c))
  loops-IsTracked =
      implicit_loop-IsTracked _ _ (opt_out_services t c)
        (explicit_loop-IsTracked t nothing_attached _ (record { same = λ k. refl; distinct = tt }))

  -- In whatever order Python visits the set of bound ids: no service is collected twice, and the
  -- collected ids are those of the enabled services with an enabled binding to the network, and of
  -- the enabled opt-out services for which there is no disabled binding to it; of bindings and opt-out
  -- services, only those that the request may list count.
  pub enabled_services_members :
      Nodup (attached_ids (enabled_services_for_network order t c network_id))
      × ((k : String)
          → contains (attached_ids (enabled_services_for_network order t c network_id)) k
            ≡ (is_bound k || is_implied k))
  unfolding enabled_services_for_network get_local_service_bindings get_local_services
  enabled_services_members = (
    loops-IsTracked.distinct,
    λ k.
        loops-IsTracked.same k
        ∙ rw
            (
              implicit_loop-seen,
              explicit_loop-seen,
              order.contains-visit,
              enabled_ids-any c network_id k t.bindings,
              excluded_ids-any c network_id k t.bindings,
              offered-any c network_id k t.services,
            )
            refl,
  )
