-- ===== src/Db/Consistency/Methods.antt =====
-- Each method of the mixin, as a request that the API may make, and runs of requests.
use neutron_local_services_p.Base.{
  String, ◌≡◌, Bool, true, false, Option, some, [], ◌∷◌, ◌++◌, string_eq, option_eq, contains, any,
  arith,
}
use neutron_local_services_p.Records.{Service, Backend, Binding}
use neutron_local_services_p.Netaddr.{Netaddr}
use neutron_local_services_p.Errors.{Result, ok, err}
use neutron_local_services_p.Db.Rows.{ids, replace, remove, by_key-contains}
use neutron_local_services_p.Db.Vip.{VipOptions, has_vip, validate_service_payload}
use neutron_local_services_p.Db.Tables.{
  Tables, get_service, get_backend, get_binding, port_in_range, same_service_network,
}
use neutron_local_services_p.Db.Services.{
  ServiceBody, ServicePatch, new_service, apply_patch, touches_vip, create_local_service,
  update_local_service, delete_local_service,
}
use neutron_local_services_p.Db.Backends
use neutron_local_services_p.Db.Backends.{
  BackendBody, BackendPatch, new_backend, check_backend, create_local_service_backend,
  update_local_service_backend, delete_local_service_backend,
}
use neutron_local_services_p.Db.Bindings.{
  BindingBody, new_binding, create_local_service_binding, update_local_service_binding,
  delete_local_service_binding,
}
use neutron_local_services_p.Db.Consistency.{service_ids}

module _ (N : Netaddr) (conf : VipOptions) (t t' : Tables) where
  pub create_service_cases :
      (uuid : String) (body : ServiceBody) (s : Service)
      → create_local_service N conf uuid body t ≡ ok (s, t')
      → (t' ≡ record t { services = t.services ++ new_service uuid body ∷ [] })
        × (has_vip body.local_ipv4 body.local_ipv6 ≡ true)
        × (port_in_range (some body.port) ≡ true)
  unfolding create_local_service validate_service_payload
  create_service_cases uuid body s h = ground arith

  pub update_service_cases :
      (id : String) (body : ServicePatch) (s : Service)
      → update_local_service N conf id body t ≡ ok (s, t')
      → (old : Service) × (get_service t id ≡ some old)
        × (s ≡ apply_patch body old)
        × (t' ≡ record t { services = replace (λ r. r.id) s t.services })
        × (port_in_range s.port ≡ true)
        × (touches_vip body ≡ true → has_vip s.local_ipv4 s.local_ipv6 ≡ true)
  unfolding update_local_service validate_service_payload
  update_service_cases id body s h = ground arith

  pub backend_cases :
      (uuid : String) (body : BackendBody) (b : Backend)
      → create_local_service_backend uuid body t ≡ ok (b, t')
      → (s : Service) × (get_service t body.service_id ≡ some s)
        × (t' ≡ record t { backends = t.backends ++ new_backend uuid body ∷ [] })
        × (port_in_range (some body.port) ≡ true)
  unfolding create_local_service_backend
  backend_cases uuid body b h = ground arith

  pub update_backend_cases :
      (id : String) (body : BackendPatch) (b : Backend)
      → update_local_service_backend id body t ≡ ok (b, t')
      → (old : Backend) × (get_backend t id ≡ some old)
        × (b ≡ Backends.apply_patch body old)
        × (t' ≡ record t { backends = replace (λ r. r.id) b t.backends })
        × (port_in_range b.port ≡ true)
  unfolding update_local_service_backend
  update_backend_cases id body b h = ground arith

  pub binding_cases :
      (uuid : String) (body : BindingBody) (b : Binding)
      → create_local_service_binding uuid body t ≡ ok (b, t')
      → (s : Service) × (get_service t body.service_id ≡ some s)
        × (t' ≡ record t { bindings = t.bindings ++ new_binding uuid body ∷ [] })
        × (any (same_service_network (new_binding uuid body)) t.bindings ≡ false)
  unfolding create_local_service_binding
  binding_cases uuid body b h = ground arith

  pub update_binding_cases :
      (id : String) (enabled : Option Bool) (b : Binding)
      → update_local_service_binding id enabled t ≡ ok (b, t')
      → (old : Binding) × (get_binding t id ≡ some old)
        × (b.id ≡ old.id)
        × (b.service_id ≡ old.service_id)
        × (b.network_id ≡ old.network_id)
        × (t' ≡ record t { bindings = replace (λ r. r.id) b t.bindings })
  unfolding update_local_service_binding
  update_binding_cases id enabled b h = ground arith

module _ (t : Tables) where
  pub delete_service_cases :
      (id : String) (t' : Tables)
      → delete_local_service id t ≡ ok t'
      → t' ≡ record {
        services = remove (λ s. s.id) id t.services;
        backends = remove (λ b. b.service_id) id t.backends;
        bindings = remove (λ b. b.service_id) id t.bindings;
      }
  unfolding delete_local_service
  delete_service_cases id t' h = ground arith

  pub delete_backend_cases :
      (id : String) (t' : Tables)
      → delete_local_service_backend id t ≡ ok t'
      → t' ≡ record t { backends = remove (λ r. r.id) id t.backends }
  unfolding delete_local_service_backend
  delete_backend_cases id t' h = ground arith

  pub delete_binding_cases :
      (id : String) (t' : Tables)
      → delete_local_service_binding id t ≡ ok t'
      → t' ≡ record t { bindings = remove (λ r. r.id) id t.bindings }
  unfolding delete_local_service_binding
  delete_binding_cases id t' h = ground arith

  pub parent_exists :
      (id : String) (s : Service) → get_service t id ≡ some s → contains (service_ids t) id ≡ true
  unfolding get_service
  parent_exists id s h = by_key-contains (λ r. r.id) id t.services s h

-- The writing methods of the three resources.
pub data Request : Type 0 where
  create_service : String → ServiceBody → Request
  update_service : String → ServicePatch → Request
  delete_service : String → Request
  create_backend : String → BackendBody → Request
  update_backend : String → BackendPatch → Request
  delete_backend : String → Request
  create_binding : String → BindingBody → Request
  update_binding : String → Option Bool → Request
  delete_binding : String → Request

-- `generate_uuid` gives a key that its table does not hold.
abbrev pub IsFresh : Tables → Request → Type 0
IsFresh t (create_service uuid body) = contains (service_ids t) uuid ≡ false
IsFresh t (create_binding uuid body) = contains (ids (λ b. b.id) t.bindings) uuid ≡ false
IsFresh t _ = Unit

-- The tables after a transaction: those that it commits, or those before it if it raises.
abbrev pub after_row {ℓ} : {A : Type ℓ} → Tables → Result (A × Tables) → Tables
after_row t (ok (a, t')) = t'
after_row t (err e) = t

abbrev pub after_delete : Tables → Result Tables → Tables
after_delete t (ok t') = t'
after_delete t (err e) = t

module _ (N : Netaddr) (conf : VipOptions) where
  unfoldable pub commit : Request → Tables → Tables
  commit (create_service uuid body) t = after_row t (create_local_service N conf uuid body t)
  commit (update_service id body) t = after_row t (update_local_service N conf id body t)
  commit (delete_service id) t = after_delete t (delete_local_service id t)
  commit (create_backend uuid body) t = after_row t (create_local_service_backend uuid body t)
  commit (update_backend id body) t = after_row t (update_local_service_backend id body t)
  commit (delete_backend id) t = after_delete t (delete_local_service_backend id t)
  commit (create_binding uuid body) t = after_row t (create_local_service_binding uuid body t)
  commit (update_binding id enabled) t = after_row t (update_local_service_binding id enabled t)
  commit (delete_binding id) t = after_delete t (delete_local_service_binding id t)
