-- ===== src/Registry.antt =====
-- agent/registry_client.py: how the agent learns over REST which services a network has.
pub mod Agreement
pub mod Refinement
pub mod Vips
use neutron_local_services_p.Base.{
  ℕ, String, Bool, true, false, not, ◌&&◌, ◌||◌, Option, none, some, List, [], ◌∷◌, ◌++◌, ◌==◌,
  nat_eq, string_eq, if◌then◌else◌, contains, filter, default_true, text_is_true, truthy, ◌<>◌,
}
use neutron_local_services_p.Base.Sets.{SetOrder}
use neutron_local_services_p.Records.{Service, Backend, Binding, AttachedService}

-- How one GET ends: the session raises, or there is a status with a body, which is `none` where it
-- is not JSON.
pub data Response {ℓ} (A : Type ℓ) : Type ℓ where
  raised : Response A
  status : ℕ → Option A → Response A

-- The answers to the paths that the client asks for, each at most once per call. A list or a row is
-- `none` where the key is missing or null in the envelope.
pub record Api : Type 0 where
  -- whether keystone's catalog has an endpoint
  pub endpoint : Bool
  pub bindings_of : String → Response (Option (List Binding))
  pub opt_out : Response (Option (List Service))
  pub service_of : String → Response (Option Service)
  pub backends_of : String → Response (Option (List Backend))

-- A result, a `RegistryFetchError`, or another exception: the `ValueError` of `resp.json()`.
pub data Fetched {ℓ} (A : Type ℓ) : Type ℓ where
  got : A → Fetched A
  fetch_error value_error : Fetched A

-- An exception ends the fetch.
infixl 5 ◌>>=◌
abbrev pub ◌>>=◌ {μ ν} :
    {Body : Type μ} {Next : Type ν} → Fetched Body → (Body → Fetched Next) → Fetched Next
fetch >>= rest = elim fetch [
  | got body ↦ rest body
  | fetch_error ↦ fetch_error
  | value_error ↦ value_error
]

-- `_get_json`
unfoldable pub get_json {ℓ} : {A : Type ℓ} → Bool → Response A → Fetched A
get_json false r = fetch_error
get_json true raised = fetch_error
get_json true (status code body) =
    if code == 200 then elim body [ none ↦ value_error | some a ↦ got a ] else fetch_error

-- `resp.get(key) or []`
abbrev pub or_nil {ℓ} : {A : Type ℓ} → Option (List A) → List A
or_nil none = []
or_nil (some xs) = xs

-- The row of a missing key, `{}`: the code treats a missing id like an empty one.
abbrev pub blank_service : Service
blank_service = record {
  id = "";
  project_id = none;
  name = "";
  description = none;
  local_ipv4 = none;
  local_ipv6 = none;
  protocol = none;
  port = none;
  attachment_policy = none;
  distribution_policy = none;
  exposure_plugin = none;
  health_check_type = none;
  health_check_config = none;
  enabled = none;
}

abbrev pub or_blank : Option Service → Service
or_blank none = blank_service
or_blank (some s) = s

-- `{b['service_id'] for b in bindings if b.get('service_id') and b.get('enabled', True)}`
unfoldable pub named_enabled : List Binding → List String
named_enabled [] = []
named_enabled (b ∷ bindings) =
    let rest = named_enabled bindings in
    if text_is_true b.service_id && default_true b.enabled then b.service_id ∷ rest else rest

unfoldable pub named_excluded : List Binding → List String
named_excluded [] = []
named_excluded (b ∷ bindings) =
    let rest = named_excluded bindings in
    if text_is_true b.service_id && not (default_true b.enabled) then b.service_id ∷ rest else rest

-- The loops' variables.
pub record Collected : Type 0 where
  pub services : List AttachedService
  pub seen : List String

abbrev pub collect : String → AttachedService → Collected → Collected
collect sid svc a = record { services = a.services ++ svc ∷ []; seen = sid ∷ a.seen }

abbrev pub collect_new : String → Option AttachedService → Collected → Collected
collect_new sid none a = a
collect_new sid (some svc) a = if contains a.seen sid then a else collect sid svc a

abbrev pub nothing_collected : Collected
nothing_collected = record { services = []; seen = [] }

-- `{'%s/32' % svc['local_ipv4'] for svc in services if svc.get('local_ipv4')}`
unfoldable pub vips_of : List AttachedService → List String
vips_of [] = []
vips_of (svc ∷ services) =
    let rest = vips_of services in
    elim (truthy svc.local_ipv4) [ none ↦ rest | some vip ↦ (vip <> "/32") ∷ rest ]

module _ (api : Api) where
  -- `_fetch_backends`
  unfoldable pub fetch_backends : String → Fetched (List Backend)
  unfolding get_json
  fetch_backends service_id = do
    resp ← get_json api.endpoint (api.backends_of service_id)
    got (filter (λ b. default_true b.enabled) (or_nil resp))

  -- `_fetch_service`; `none` for a disabled service.
  unfoldable pub fetch_service : String → Fetched (Option AttachedService)
  unfolding get_json fetch_backends
  fetch_service service_id = do
    resp ← get_json api.endpoint (api.service_of service_id)
    let svc = or_blank resp
    if default_true svc.enabled
        then (do
          backends ← fetch_backends service_id
          got (some (record { service = svc; backends = backends })))
        else got none

  unfoldable pub collect_explicit : Collected → List String → Fetched Collected
  unfolding fetch_service
  collect_explicit a [] = got a
  collect_explicit a (sid ∷ sids) = do
    svc ← fetch_service sid
    collect_explicit (collect_new sid svc a) sids

  -- One round of the second loop: its two `continue`s, then the fetch.
  unfoldable pub collect_opt_out : List String → Collected → Service → Fetched Collected
  unfolding fetch_backends
  collect_opt_out excluded a svc =
      if not (text_is_true svc.id) || (contains a.seen svc.id || contains excluded svc.id)
      then got a
      else (if default_true svc.enabled
          then (do
            backends ← fetch_backends svc.id
            got (collect svc.id (record { service = svc; backends = backends }) a))
          else got a)

  unfoldable pub collect_implicit : List String → Collected → List Service → Fetched Collected
  unfolding collect_opt_out
  collect_implicit excluded a [] = got a
  collect_implicit excluded a (svc ∷ svcs) = do
    a' ← collect_opt_out excluded a svc
    collect_implicit excluded a' svcs

  -- `order` visits the set of explicitly bound services.
  unfoldable pub desired_state_for_network :
      SetOrder String → String → Fetched (List AttachedService)
  unfolding get_json named_enabled named_excluded collect_explicit collect_implicit
  desired_state_for_network order network_id = do
    bindings ← get_json api.endpoint (api.bindings_of network_id)
    a ← collect_explicit nothing_collected (order.visit (named_enabled (or_nil bindings)))
    opt_out ← get_json api.endpoint api.opt_out
    b ← collect_implicit (named_excluded (or_nil bindings)) a (or_nil opt_out)
    got b.services

  -- The `/32` of each service that has an IPv4 VIP, from the list of services.
  unfoldable pub desired_vips_for_network : SetOrder String → String → Fetched (List String)
  unfolding desired_state_for_network vips_of
  desired_vips_for_network order network_id = do
    services ← desired_state_for_network order network_id
    got (vips_of services)

-- `_get_endpoint`, over the cached endpoint and what the catalog gives, `none` where that raises
-- `EndpointNotFound`. The second result is the cache.
unfoldable pub get_endpoint {ℓ} :
    {Endpoint : Type ℓ} → Option Endpoint → Option Endpoint → Fetched Endpoint × Option Endpoint
get_endpoint (some cached) catalog = (got cached, some cached)
get_endpoint none (some found) = (got found, some found)
get_endpoint none none = (fetch_error, none)
