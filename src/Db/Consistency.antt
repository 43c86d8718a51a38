-- ===== src/Db/Consistency.antt =====
-- The referential and uniqueness invariant of the three tables under every method.
pub mod Methods
pub mod Preservation
use neutron_local_services_p.Base.{
  ℕ, String, ◌≡◌, refl, Bool, true, false, not, Option, none, some, List, [], ◌∷◌, ◌++◌, ◌==◌,
  ==_iff, string_eq, contains, contains-append, filter, find?, any, All, All-append, Nodup, arith,
}
use neutron_local_services_p.Records.{Service, Backend, Binding}
use neutron_local_services_p.Netaddr.{Netaddr}
use neutron_local_services_p.Errors.{Result, ok, err}
use neutron_local_services_p.Db.Rows.{
  ids, replace, remove, by_key, ids-append, ids-replace, ids-remove-Nodup, ids-snoc-Nodup,
  contains-ids-remove, by_key-contains, by_key-key, All-replace, All-filter, All-find?, All-map,
  All-remove, ids-remove_other-Nodup, Distinct, filter-Distinct, snoc-Distinct, replace-Distinct,
}
use neutron_local_services_p.Db.Vip.{VipOptions, has_vip, validate_service_payload}
use neutron_local_services_p.Db.Tables.{
  Tables, get_service, get_backend, get_binding, port_in_range, same_service_network,
}
use neutron_local_services_p.Db.Services.{
  ServiceBody, ServicePatch, create_local_service, update_local_service, delete_local_service,
}
use neutron_local_services_p.Db.Backends.{
  BackendBody, BackendPatch, create_local_service_backend, update_local_service_backend,
  delete_local_service_backend,
}
use neutron_local_services_p.Db.Bindings.{
  BindingBody, create_local_service_binding, update_local_service_binding,
  delete_local_service_binding,
}

abbrev pub service_ids : Tables → List String
service_ids t = ids (λ s. s.id) t.services

-- What holds of one row: a service has a VIP and a legal port, a child row names a service.
abbrev pub IsGoodService : Service → Type 0
IsGoodService s = (has_vip s.local_ipv4 s.local_ipv6 ≡ true) × (port_in_range s.port ≡ true)

abbrev pub IsGoodBackend : List String → Backend → Type 0
IsGoodBackend parents b = (contains parents b.service_id ≡ true) × (port_in_range b.port ≡ true)

abbrev pub IsGoodBinding : List String → Binding → Type 0
IsGoodBinding parents b = contains parents b.service_id ≡ true

pub record IsConsistent (t : Tables) : Type 0 where
  pub service_keys : Nodup (service_ids t)
  pub binding_keys : Nodup (ids (λ b. b.id) t.bindings)
  pub services : All IsGoodService t.services
  pub backends : All (IsGoodBackend (service_ids t)) t.backends
  pub bindings : All (IsGoodBinding (service_ids t)) t.bindings
  -- at most one binding for a service and a network
  pub binding_pairs : Distinct same_service_network t.bindings

abbrev Grows : (old new : List String) → Type 0
Grows old new = (k : String) → contains old k ≡ true → contains new k ≡ true

module _ {t : Tables} (c : IsConsistent t) where
  with_services :
      (rows : List Service)
      → Nodup (ids (λ s. s.id) rows)
      → All IsGoodService rows
      → Grows (service_ids t) (ids (λ s. s.id) rows)
      → IsConsistent (record t { services = rows })
  with_services rows keys good grows = record {
    service_keys = keys;
    binding_keys = c.binding_keys;
    services = good;
    backends =
        All-map (IsGoodBackend (service_ids t)) (IsGoodBackend (ids (λ s. s.id) rows))
          (λ b h. (grows b.service_id h.0, h.1)) t.backends c.backends;
    bindings =
        All-map (IsGoodBinding (service_ids t)) (IsGoodBinding (ids (λ s. s.id) rows))
          (λ b h. grows b.service_id h) t.bindings c.bindings;
    binding_pairs = c.binding_pairs;
  }

  create_service_row :
      (s : Service)
      → contains (service_ids t) s.id ≡ false
      → IsGoodService s
      → IsConsistent (record t { services = t.services ++ s ∷ [] })
  create_service_row s fresh good =
      with_services (t.services ++ s ∷ [])
        (ids-snoc-Nodup (λ r. r.id) s t.services fresh c.service_keys)
        (All-append IsGoodService t.services (s ∷ []) c.services (good, tt))
        (λ k h. rw (ids-append (λ r. r.id) t.services (s ∷ []), contains-append) (ground arith))

  update_service_row :
      (s : Service)
      → IsGoodService s
      → IsConsistent (record t { services = replace (λ r. r.id) s t.services })
  update_service_row s good =
      with_services (replace (λ r. r.id) s t.services)
        (rw (ids-replace (λ (r : Service). r.id)) c.service_keys)
        (All-replace IsGoodService (λ r. r.id) s t.services good c.services)
        (λ k h. rw (ids-replace (λ (r : Service). r.id)) h)

  still_there :
      (k j : String)
      → contains (service_ids t) j ≡ true
      → (j == k) ≡ false
      → contains (ids (λ s. s.id) (remove (λ (s : Service). s.id) k t.services)) j ≡ true
  still_there k j h e =
      rw (contains-ids-remove (λ (s : Service). s.id) k j t.services) (ground arith)

  delete_service_row :
      (k : String)
      → IsConsistent (record {
        services = remove (λ s. s.id) k t.services;
        backends = remove (λ b. b.service_id) k t.backends;
        bindings = remove (λ b. b.service_id) k t.bindings;
      })
  delete_service_row k =
      let left : List String = ids (λ s. s.id) (remove (λ (s : Service). s.id) k t.services) in
      record {
        service_keys = ids-remove-Nodup (λ s. s.id) k t.services c.service_keys;
        binding_keys =
            ids-remove_other-Nodup (λ b. b.id) (λ b. b.service_id) k t.bindings c.binding_keys;
        services = unfold remove in All-filter IsGoodService _ t.services c.services;
        backends =
            All-remove (IsGoodBackend (service_ids t)) (IsGoodBackend left) (λ b. b.service_id) k
              (λ b h e. (still_there k b.service_id h.0 e, h.1)) t.backends c.backends;
        bindings =
            All-remove (IsGoodBinding (service_ids t)) (IsGoodBinding left) (λ b. b.service_id) k
              (λ b h e. still_there k b.service_id h e) t.bindings c.bindings;
        binding_pairs =
            unfold remove in filter-Distinct same_service_network _ t.bindings c.binding_pairs;
      }

  with_backends :
      (rows : List Backend)
      → All (IsGoodBackend (service_ids t)) rows
      → IsConsistent (record t { backends = rows })
  with_backends rows good = record {
    service_keys = c.service_keys;
    binding_keys = c.binding_keys;
    services = c.services;
    backends = good;
    bindings = c.bindings;
    binding_pairs = c.binding_pairs;
  }

  with_bindings :
      (rows : List Binding)
      → Nodup (ids (λ b. b.id) rows)
      → All (IsGoodBinding (service_ids t)) rows
      → Distinct same_service_network rows
      → IsConsistent (record t { bindings = rows })
  with_bindings rows keys good pairs = record {
    service_keys = c.service_keys;
    binding_keys = keys;
    services = c.services;
    backends = c.backends;
    bindings = good;
    binding_pairs = pairs;
  }
