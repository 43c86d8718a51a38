-- ===== src/Registry/Refinement.antt =====
-- The agent computes the attachment that the server computes, if it reads the server's tables.
use neutron_local_services_p.Base.{
  String, ◌≡◌, refl, ◌∙◌, sym, true, some, List, [], ◌∷◌, nat_eq, string_eq, option_eq, contains,
  filter, find?, default_true, text_is_true, All, arith,
}
use neutron_local_services_p.Base.Sets.{SetOrder}
use neutron_local_services_p.Records.{Service, Binding}
use neutron_local_services_p.Errors.{ok}
use neutron_local_services_p.Constants.{attach_opt_out}
use neutron_local_services_p.Db.Rows.{ids, by_key, All-filter, All-map}
use neutron_local_services_p.Db.Tables.{
  Tables, admin, get_service, get_local_services, get_local_service_bindings, service_passes,
  bool_eq,
}
use neutron_local_services_p.Db.Services.{get_local_service}
use neutron_local_services_p.Db.Consistency.{IsConsistent, service_ids}
use neutron_local_services_p.HostRoutes.Effective.{
  enabled_ids, excluded_ids, network_bindings, opt_out_services, nothing_attached,
  enabled_services_for_network,
}
use neutron_local_services_p.Registry.{
  got, get_json, named_enabled, named_excluded, desired_state_for_network,
}
use neutron_local_services_p.Registry.Agreement.{
  served, all_with_backends, explicit_agrees, implicit_agrees,
}

-- Every service has an id that is not empty; ids are generated UUIDs.
abbrev pub AllNamed : Tables → Type 0
AllNamed t = All (λ s. text_is_true s.id ≡ true) t.services

named-id :
    (k : String) (ss : List Service)
    → All (λ s. text_is_true s.id ≡ true) ss
    → contains (ids (λ s. s.id) ss) k ≡ true
    → text_is_true k ≡ true
named-id k [] h c = cc
named-id k (s ∷ ss) (h, hs) c = elim (string_eq.dec k s.id) [
  | yes p ↦ rw p h
  | no p ↦ named-id k ss hs (ground arith)
]

find_by_id :
    (k : String) (ss : List Service)
    → contains (ids (λ s. s.id) ss) k ≡ true
    → (s : Service) × (by_key (λ (r : Service). r.id) k ss ≡ some s)
unfolding by_key find?
find_by_id k [] c = cc
find_by_id k (s ∷ ss) c = elim (string_eq.dec s.id k) [
  | yes p ↦ (s, ground arith)
  | no p ↦ let (r, e) = find_by_id k ss (ground arith) in (r, ground arith)
]

named_enabled-lem :
    (bs : List Binding)
    → All (λ b. text_is_true b.service_id ≡ true) bs
    → (named_enabled bs ≡ enabled_ids bs) × (named_excluded bs ≡ excluded_ids bs)
unfolding named_enabled enabled_ids named_excluded excluded_ids
named_enabled-lem [] h = (refl, refl)
named_enabled-lem (b ∷ bs) (h, hs) =
    let (e, f) = named_enabled-lem bs hs in (rw (h, e) refl, rw (h, f) refl)

bound_exist :
    (parents : List String) (k : String) (bs : List Binding)
    → All (λ b. contains parents b.service_id ≡ true) bs
    → contains (enabled_ids bs) k ≡ true
    → contains parents k ≡ true
unfolding enabled_ids
bound_exist parents k [] h c = cc
bound_exist parents k (b ∷ bs) (h, hs) c = elim (string_eq.dec k b.service_id) [
  | yes p ↦ rw p h
  | no p ↦ ground (arith, bound_exist parents k bs hs)
]

opt_out_good :
    (ss : List Service)
    → All (λ s. text_is_true s.id ≡ true) ss
    → All
        (λ s. (text_is_true s.id ≡ true) × (default_true s.enabled ≡ true))
        (filter
          (service_passes admin (record {
            attachment_policy = some (some attach_opt_out ∷ []);
            enabled = some (some true ∷ []);
          }))
          ss)
unfolding filter service_passes bool_eq
opt_out_good [] h = tt
opt_out_good (s ∷ ss) (h, hs) = ground (arith, opt_out_good ss hs)

module _ (order : SetOrder String) (t : Tables) (network_id : String) where
  bound_good :
      IsConsistent t
      → All
          (λ b. contains (service_ids t) b.service_id ≡ true)
          (network_bindings t admin network_id)
  unfolding get_local_service_bindings
  bound_good c =
      All-filter (λ (b : Binding). contains (service_ids t) b.service_id ≡ true) _ t.bindings
        c.bindings

  bound_found :
      IsConsistent t
      → (k : String)
      → contains (order.visit (enabled_ids (network_bindings t admin network_id))) k ≡ true
      → (s : Service) × (get_local_service k t ≡ ok s)
  unfolding get_local_service get_service
  bound_found c k h =
      let there : contains (service_ids t) k ≡ true =
        bound_exist (service_ids t) k (network_bindings t admin network_id) (bound_good c)
          (sym (order.contains-visit _ k) ∙ h) in
      let (s, e) = find_by_id k t.services there in (s, rw e refl)

  bound_named :
      IsConsistent t
      → AllNamed t
      → All (λ b. text_is_true b.service_id ≡ true) (network_bindings t admin network_id)
  bound_named c named =
      All-map (λ (b : Binding). contains (service_ids t) b.service_id ≡ true)
        (λ b. text_is_true b.service_id ≡ true) (λ b h. named-id b.service_id t.services named h)
        (network_bindings t admin network_id) (bound_good c)

  implied_good :
      AllNamed t
      → All
          (λ s. (text_is_true s.id ≡ true) × (default_true s.enabled ≡ true))
          (opt_out_services t admin)
  unfolding get_local_services
  implied_good named = opt_out_good t.services named

  -- Over consistent tables in which every service has an id, the agent's fetch, with the API
  -- answering from the tables, succeeds and gives exactly the services that the server holds to be
  -- attached to the network, each with its enabled backends, and in the same order if the two
  -- processes visit a set of ids in the same order.
  pub desired-eq-enabled_services :
      IsConsistent t
      → AllNamed t
      → desired_state_for_network (served t) order network_id
        ≡ got (all_with_backends t (enabled_services_for_network order t admin network_id))
  unfolding desired_state_for_network enabled_services_for_network get_json nat_eq
  desired-eq-enabled_services c named =
      let (e, f) = named_enabled-lem (network_bindings t admin network_id) (bound_named c named) in
      rw
        (
          e,
          f,
          explicit_agrees t nothing_attached _ (bound_found c),
          implicit_agrees t _ _ (opt_out_services t admin) (implied_good named),
        )
        refl
