-- ===== src/Db/Consistency/Preservation.antt =====
-- Every transaction keeps the tables consistent.
use neutron_local_services_p.Base.{
  String, ◌≡◌, refl, ◌∙◌, Bool, true, false, Option, List, [], ◌∷◌, string_eq, contains, All-append,
  arith, Bool-cases, inl, inr,
}
use neutron_local_services_p.Records.{Service, Backend, Binding}
use neutron_local_services_p.Netaddr.{Netaddr}
use neutron_local_services_p.Errors.{Result, ok, err}
use neutron_local_services_p.Db.Rows.{
  ids, remove, All-replace, All-filter, All-find?, by_key, by_key-key, ids-replace,
  ids-remove-Nodup, ids-snoc-Nodup, filter-Distinct, snoc-Distinct, replace-Distinct,
}
use neutron_local_services_p.Db.Vip.{VipOptions, has_vip}
use neutron_local_services_p.Db.Tables.{
  Tables, get_service, get_backend, get_binding, same_service_network,
}
use neutron_local_services_p.Db.Services.{
  ServicePatch, new_service, apply_patch, touches_vip, update_local_service,
}
use neutron_local_services_p.Db.Backends
use neutron_local_services_p.Db.Backends.{
  BackendBody, BackendPatch, new_backend, create_local_service_backend,
  update_local_service_backend, delete_local_service_backend,
}
use neutron_local_services_p.Db.Bindings.{
  BindingBody, new_binding, create_local_service_binding, update_local_service_binding,
}
use neutron_local_services_p.Db.Consistency.{
  IsConsistent, IsGoodService, IsGoodBackend, IsGoodBinding, service_ids, create_service_row,
  update_service_row, delete_service_row, with_backends, with_bindings,
}
use neutron_local_services_p.Db.Consistency.Methods.{
  Request, create_service, update_service, delete_service, create_backend, update_backend,
  delete_backend, create_binding, update_binding, delete_binding, IsFresh, after_row, after_delete,
  commit, create_service_cases, update_service_cases, delete_service_cases, backend_cases,
  update_backend_cases, delete_backend_cases, binding_cases, update_binding_cases,
  delete_binding_cases, parent_exists,
}

after_row-IsConsistent {ℓ} :
    {A : Type ℓ} (t : Tables) (r : Result (A × Tables))
    → IsConsistent t
    → ((a : A) (t' : Tables) → r ≡ ok (a, t') → IsConsistent t')
    → IsConsistent (after_row t r)
after_row-IsConsistent t (ok (a, t')) c f = f a t' refl
after_row-IsConsistent t (err e) c f = c

after_delete-IsConsistent :
    (t : Tables) (r : Result Tables)
    → IsConsistent t
    → ((t' : Tables) → r ≡ ok t' → IsConsistent t')
    → IsConsistent (after_delete t r)
after_delete-IsConsistent t (ok t') c f = f t' refl
after_delete-IsConsistent t (err e) c f = c

-- A patch that leaves the VIPs alone keeps the old ones.
patch_keeps_vip :
    (p : ServicePatch) (s : Service)
    → touches_vip p ≡ false
    → has_vip (apply_patch p s).local_ipv4 (apply_patch p s).local_ipv6
      ≡ has_vip s.local_ipv4 s.local_ipv6
unfolding touches_vip apply_patch
patch_keeps_vip p s h = ground arith

patched_service_good :
    (p : ServicePatch) (s : Service)
    → has_vip s.local_ipv4 s.local_ipv6 ≡ true
    → (touches_vip p ≡ true
        → has_vip (apply_patch p s).local_ipv4 (apply_patch p s).local_ipv6 ≡ true)
    → has_vip (apply_patch p s).local_ipv4 (apply_patch p s).local_ipv6 ≡ true
patched_service_good p s old new = elim (Bool-cases (touches_vip p)) [
  | inl e ↦ new e
  | inr e ↦ patch_keeps_vip p s e ∙ old
]

same_service_network_symm : (x y : Binding) → same_service_network x y ≡ same_service_network y x
unfolding same_service_network
same_service_network_symm x y = ground arith

same_pair :
    (new old : Binding)
    → new.service_id ≡ old.service_id
    → new.network_id ≡ old.network_id
    → (x : Binding)
    → (same_service_network x new ≡ same_service_network x old)
      × (same_service_network new x ≡ same_service_network old x)
unfolding same_service_network
same_pair new old p q x = (rw (p, q), rw (p, q))

module _ (N : Netaddr) (conf : VipOptions) (t : Tables) (c : IsConsistent t) where
  commit_service :
      (id : String) (body : ServicePatch) (s : Service) (t' : Tables)
      → update_local_service N conf id body t ≡ ok (s, t')
      → IsConsistent t'
  unfolding get_service by_key
  commit_service id body s t' h =
      let (old, found, is_patched, result, port, vip) =
        update_service_cases N conf t t' id body s h in
      let (old_vip, _) = All-find? IsGoodService _ t.services old c.services found in
      rw result (
        update_service_row c s
          (rw is_patched (patched_service_good body old old_vip (rw is_patched at vip)), port))

  commit_new_backend :
      (uuid : String) (body : BackendBody) (b : Backend) (t' : Tables)
      → create_local_service_backend uuid body t ≡ ok (b, t')
      → IsConsistent t'
  unfolding new_backend
  commit_new_backend uuid body b t' h =
      let (s, found, result, port) = backend_cases N conf t t' uuid body b h in
      rw result (
        with_backends c _ (
          All-append (IsGoodBackend (service_ids t)) t.backends _ c.backends
            ((parent_exists t body.service_id s found, port), tt)))

  commit_backend :
      (id : String) (body : BackendPatch) (b : Backend) (t' : Tables)
      → update_local_service_backend id body t ≡ ok (b, t')
      → IsConsistent t'
  unfolding get_backend by_key Backends.apply_patch
  commit_backend id body b t' h =
      let (old, found, is_patched, result, port) = update_backend_cases N conf t t' id body b h in
      let (parent, _) =
        All-find? (IsGoodBackend (service_ids t)) _ t.backends old c.backends found in
      rw result (
        with_backends c _ (
          All-replace (IsGoodBackend (service_ids t)) (λ r. r.id) b t.backends
            (rw is_patched parent, port) c.backends))

  commit_new_binding :
      (uuid : String) (body : BindingBody) (b : Binding) (t' : Tables)
      → contains (ids (λ r. r.id) t.bindings) uuid ≡ false
      → create_local_service_binding uuid body t ≡ ok (b, t')
      → IsConsistent t'
  unfolding new_binding
  commit_new_binding uuid body b t' fresh h =
      let (s, found, result, free) = binding_cases N conf t t' uuid body b h in
      rw result (
        with_bindings c _
          (ids-snoc-Nodup (λ r. r.id) (new_binding uuid body) t.bindings fresh c.binding_keys)
          (All-append (IsGoodBinding (service_ids t)) t.bindings _ c.bindings
            (parent_exists t body.service_id s found, tt))
          (snoc-Distinct same_service_network same_service_network_symm _ t.bindings free
            c.binding_pairs))

  commit_binding :
      (id : String) (enabled : Option Bool) (b : Binding) (t' : Tables)
      → update_local_service_binding id enabled t ≡ ok (b, t')
      → IsConsistent t'
  unfolding get_binding by_key
  commit_binding id enabled b t' h =
      let (old, found, key, service, network, result) =
        update_binding_cases N conf t t' id enabled b h in
      let parent = All-find? (IsGoodBinding (service_ids t)) _ t.bindings old c.bindings found in
      rw result (
        with_bindings c _ (rw (ids-replace (λ (r : Binding). r.id)) c.binding_keys)
          (All-replace (IsGoodBinding (service_ids t)) (λ r. r.id) b t.bindings (rw service parent)
            c.bindings)
          (replace-Distinct (λ r. r.id) same_service_network old b key
            (same_pair b old service network) t.bindings
            (rw (by_key-key (λ (r : Binding). r.id) id t.bindings old found) found) c.binding_keys
            c.binding_pairs))

  pub commit-IsConsistent : (r : Request) → IsFresh t r → IsConsistent (commit N conf r t)
  unfolding commit
  commit-IsConsistent (create_service uuid body) fresh = after_row-IsConsistent t _ c λ s t' h.
      let (result, vip, port) = create_service_cases N conf t t' uuid body s h in
      rw result
        (unfold new_service in create_service_row c (new_service uuid body) fresh (vip, port))
  commit-IsConsistent (update_service id body) fresh =
      after_row-IsConsistent t _ c (commit_service id body)
  commit-IsConsistent (delete_service id) fresh =
      after_delete-IsConsistent t _ c
        λ t' h. rw (delete_service_cases t id t' h) (delete_service_row c id)
  commit-IsConsistent (create_backend uuid body) fresh =
      after_row-IsConsistent t _ c (commit_new_backend uuid body)
  commit-IsConsistent (update_backend id body) fresh =
      after_row-IsConsistent t _ c (commit_backend id body)
  commit-IsConsistent (delete_backend id) fresh = after_delete-IsConsistent t _ c λ t' h.
      rw (delete_backend_cases t id t' h)
        (unfold remove in with_backends c _ (All-filter _ _ t.backends c.backends))
  commit-IsConsistent (create_binding uuid body) fresh =
      after_row-IsConsistent t _ c (λ b t'. commit_new_binding uuid body b t' fresh)
  commit-IsConsistent (update_binding id enabled) fresh =
      after_row-IsConsistent t _ c (commit_binding id enabled)
  commit-IsConsistent (delete_binding id) fresh = after_delete-IsConsistent t _ c λ t' h.
      rw (delete_binding_cases t id t' h) (
        unfold remove in
        with_bindings c _ (ids-remove-Nodup (λ r. r.id) id t.bindings c.binding_keys)
          (All-filter _ _ t.bindings c.bindings)
          (filter-Distinct same_service_network _ t.bindings c.binding_pairs))

-- The requests are committed in turn, each with a fresh key where it needs one.
pub data Run (N : Netaddr) (conf : VipOptions) : Tables → List Request → Tables → Type 0 where
  done : {t : Tables} → Run N conf t [] t
  step :
      {t u : Tables} {r : Request} {rs : List Request}
      → IsFresh t r
      → Run N conf (commit N conf r t) rs u
      → Run N conf t (r ∷ rs) u

abbrev pub no_rows : Tables
no_rows = record { services = []; backends = []; bindings = [] }

Run-IsConsistent :
    {N : Netaddr} {conf : VipOptions} {t u : Tables} {rs : List Request}
    → Run N conf t rs u
    → IsConsistent t
    → IsConsistent u
Run-IsConsistent done c = c
Run-IsConsistent {N} {conf} {t} (step {r = r} fresh rest) c =
    Run-IsConsistent rest (commit-IsConsistent N conf t c r fresh)

no_rows-IsConsistent : IsConsistent no_rows
no_rows-IsConsistent = record {
  service_keys = tt;
  binding_keys = tt;
  services = tt;
  backends = tt;
  bindings = tt;
  binding_pairs = tt;
}

-- Whatever requests the API serves from empty tables, whether they return or raise: service ids and
-- binding ids stay unique, every service has a VIP and a port in 1..65535, every backend and every
-- binding names a service that is there, and no two bindings are for one service and network.
pub requests-IsConsistent :
    (N : Netaddr) (conf : VipOptions) (rs : List Request) (t : Tables)
    → Run N conf no_rows rs t
    → IsConsistent t
requests-IsConsistent N conf rs t run = Run-IsConsistent run no_rows-IsConsistent
