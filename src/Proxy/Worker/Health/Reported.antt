-- ===== src/Proxy/Worker/Health/Reported.antt =====
-- What `get_backend_health` makes of the worker's answer.
use neutron_local_services_p.Base.{
  ℕ, String, ◌<>◌, ◌≡◌, refl, sym, subst, ap, ◌∙◌, map, Bool, true, false, ◌||◌, Option, none, some,
  List, [], ◌∷◌, ◌++◌, ◌==◌, ==_refl, ==_iff, string_eq, option_eq, if◌then◌else◌, contains, Nodup,
  find?, Bool-cases, Option-cases, inl, inr, arith,
}
use neutron_local_services_p.Base.Text.{decimal}
use neutron_local_services_p.Proxy.{Target, Entry}
use neutron_local_services_p.Proxy.Worker.{
  is_backend, health_of, host_health, cluster_health, get_backend_health,
}
use neutron_local_services_p.Proxy.Worker.Health.{
  BackendId, Status, up, down, unknown, eds_of, backend_id_from, host_status, entry_hosts,
  service_hosts, clusters,
}

abbrev pub word : Option Status → String
word none = "unknown"
word (some up) = "up"
word (some down) = "down"
word (some unknown) = "unknown"

abbrev pub is_named : String → BackendId → Bool
is_named backend_id id =
    (backend_id == id.addr) || (backend_id == (id.addr <> (":" <> decimal id.port)))

abbrev pub or_unknown : Option String → String
or_unknown none = "unknown"
or_unknown (some health) = health

eds_health :
    (address : Option String) (port : Option ℕ) (o : Option Status)
    → health_of
        (record { address = address; port_value = port; eds_health_status = some (eds_of o) })
      ≡ word o
unfolding health_of eds_of option_eq string_eq
eds_health address port none = refl
eds_health address port (some up) = refl
eds_health address port (some down) = refl
eds_health address port (some unknown) = refl

some_differs : (a b : String) → (a == b) ≡ false → (some b == some a) ≡ false
some_differs a b h = ground arith

map-append {ℓ κ} :
    {A : Type ℓ} {B : Type κ} (f : A → B) (xs ys : List A) → map f (xs ++ ys) ≡ map f xs ++ map f ys
map-append f [] ys = refl
map-append f (x ∷ xs) ys = ap (λ zs. f x ∷ zs) (map-append f xs ys)

module _ (shown_addr : String → String) (status : BackendId → Option Status) where
  abbrev pub entry_ids : Entry → List Target → List BackendId
  entry_ids entry [] = []
  entry_ids entry (b ∷ backends) =
      backend_id_from shown_addr status entry b ∷ entry_ids entry backends

  -- The backends of a service, of all networks, in the order of the catalog.
  abbrev pub service_ids : String → List Entry → List BackendId
  service_ids service_id [] = []
  service_ids service_id (entry ∷ entries) =
      if entry.service_id == service_id
      then entry_ids entry entry.backends ++ service_ids service_id entries
      else service_ids service_id entries

  abbrev pub words : Option BackendId → Option String
  words none = none
  words (some id) = some (word (status id))

  entry_hosts-map :
      (entry : Entry) (backends : List Target)
      → entry_hosts shown_addr status entry backends
        ≡ map (host_status shown_addr status) (entry_ids entry backends)
  unfolding entry_hosts
  entry_hosts-map entry [] = refl
  entry_hosts-map entry (b ∷ backends) =
      ap
        (λ hosts. host_status shown_addr status (backend_id_from shown_addr status entry b) ∷ hosts)
        (entry_hosts-map entry backends)

  service_hosts-map :
      (service_id : String) (entries : List Entry)
      → service_hosts shown_addr status service_id entries
        ≡ map (host_status shown_addr status) (service_ids service_id entries)
  unfolding service_hosts
  service_hosts-map service_id [] = refl
  service_hosts-map service_id (entry ∷ entries) =
      elim (Bool-cases (entry.service_id == service_id)) [
        | inl e ↦
            rw (e, entry_hosts-map entry entry.backends, service_hosts-map service_id entries)
              (sym (map-append _ (entry_ids entry entry.backends) (service_ids service_id entries)))
        | inr e ↦ rw e (service_hosts-map service_id entries)
      ]

  health_of_host :
      (id : BackendId) → health_of (host_status shown_addr status id) ≡ word (status id)
  unfolding host_status
  health_of_host id = eds_health (some id.addr) (some id.port) (status id)

  is_backend_host :
      (backend_id : String) (id : BackendId)
      → is_backend backend_id (host_status shown_addr status id) ≡ is_named backend_id id
  unfolding is_backend host_status
  is_backend_host backend_id id = refl

  host_health-find? :
      (backend_id : String) (ids : List BackendId)
      → host_health backend_id (map (host_status shown_addr status) ids)
        ≡ words (find? (is_named backend_id) ids)
  unfolding host_health find?
  host_health-find? backend_id [] = refl
  host_health-find? backend_id (id ∷ ids) = elim (Bool-cases (is_named backend_id id)) [
    | inl e ↦ rw (is_backend_host backend_id id, e, health_of_host id) refl
    | inr e ↦ rw (is_backend_host backend_id id, e) (host_health-find? backend_id ids)
  ]

  cluster_absent :
      (service_id backend_id : String) (entries : List Entry) (services : List String)
      → contains services service_id ≡ false
      → cluster_health service_id backend_id (clusters shown_addr status entries services)
        ≡ "unknown"
  unfolding cluster_health clusters
  cluster_absent service_id backend_id entries [] h = refl
  cluster_absent service_id backend_id entries (s ∷ services) h =
      rw (some_differs service_id s (ground arith))
        (cluster_absent service_id backend_id entries services (ground arith))

  cluster_head :
      (service_id backend_id : String) (entries : List Entry) (services : List String)
      → contains services service_id ≡ false
      → cluster_health service_id backend_id
          (clusters shown_addr status entries (service_id ∷ services))
        ≡ or_unknown (host_health backend_id (service_hosts shown_addr status service_id entries))
  unfolding cluster_health clusters
  cluster_head service_id backend_id entries services h =
      let hosts = service_hosts shown_addr status service_id entries in
      elim (Option-cases (host_health backend_id hosts)) [
        | inl o ↦
            rw (==_refl (some service_id), o)
              (cluster_absent service_id backend_id entries services h)
        | inr (health, o) ↦ rw (==_refl (some service_id), o) refl
      ]

  cluster_present :
      (service_id backend_id : String) (entries : List Entry) (services : List String)
      → Nodup services
      → contains services service_id ≡ true
      → cluster_health service_id backend_id (clusters shown_addr status entries services)
        ≡ or_unknown (host_health backend_id (service_hosts shown_addr status service_id entries))
  unfolding cluster_health clusters
  cluster_present service_id backend_id entries [] u h = absurd (ground arith)
  cluster_present service_id backend_id entries (s ∷ services) (new, u) h =
      elim (Bool-cases (service_id == s)) [
        | inl e ↦
            subst
              (λ t.
                contains services t ≡ false
                → cluster_health service_id backend_id
                    (clusters shown_addr status entries (t ∷ services))
                  ≡ or_unknown
                      (host_health backend_id (service_hosts shown_addr status service_id entries)))
              ((==_iff service_id s).0 e) (cluster_head service_id backend_id entries services) new
        | inr e ↦
            rw (some_differs service_id s e)
              (cluster_present service_id backend_id entries services u (ground arith))
      ]

-- Let the worker's catalog have the service, and its answer one cluster for each service, in any
-- order. Then the health of a backend, named by its address with or without the port, is the state
-- of the first probe in the catalog that goes to that address for the service, on whichever network
-- it runs; without such a probe it is unknown.
pub get_backend_health-first :
    (shown_addr : String → String) (status : BackendId → Option Status) (entries : List Entry)
    (services : List String) (service_id backend_id : String)
    → Nodup services
    → contains services service_id ≡ true
    → get_backend_health (some (clusters shown_addr status entries services)) service_id backend_id
      ≡ or_unknown (
          words shown_addr status
            (find? (is_named backend_id) (service_ids shown_addr status service_id entries)))
unfolding get_backend_health
get_backend_health-first shown_addr status entries services service_id backend_id u h =
    cluster_present shown_addr status service_id backend_id entries services u h
    ∙ ap or_unknown (
        ap (host_health backend_id) (service_hosts-map shown_addr status service_id entries)
        ∙ host_health-find? shown_addr status backend_id
            (service_ids shown_addr status service_id entries))
