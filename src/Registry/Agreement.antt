-- ===== src/Registry/Agreement.antt =====
-- Each fetch and each round of the agent's two loops against the server's.
use neutron_local_services_p.Base.{
  String, ◌≡◌, refl, ◌∙◌, subst, ap, Bool, true, false, ◌&&◌, ◌||◌, Option, none, some, List, [],
  ◌∷◌, ◌++◌, ◌==◌, nat_eq, string_eq, option_eq, if◌then◌else◌, contains, filter, default_true,
  text_is_true, All, Bool-cases, inl, inr, arith,
}
use neutron_local_services_p.Records.{Service, Backend, AttachedService}
use neutron_local_services_p.Errors.{Result, ok, err}
use neutron_local_services_p.Db.Tables.{
  Tables, admin, get_local_service_backends, backend_passes, bool_eq,
}
use neutron_local_services_p.Db.Services.{get_local_service}
use neutron_local_services_p.HostRoutes.Effective.Members.{id-get_local_service}
use neutron_local_services_p.HostRoutes.Effective.{
  Attached, attach, attach_explicit, explicit_loop, attach_implicit, implicit_loop,
  network_bindings, opt_out_services,
}
use neutron_local_services_p.Registry.{
  Api, Response, status, Fetched, got, get_json, fetch_backends, fetch_service, Collected, collect,
  collect_new, collect_explicit, collect_opt_out, collect_implicit,
}

abbrev answer : Result Service → Response (Option Service)
answer (err e) = status 404 none
answer (ok s) = status 200 (some (some s))

-- What the REST API answers to the agent, an admin, over the tables `t`.
abbrev pub served : Tables → Api
served t = record {
  endpoint = true;
  bindings_of = λ n. status 200 (some (some (network_bindings t admin n)));
  opt_out = status 200 (some (some (opt_out_services t admin)));
  service_of = λ id. answer (get_local_service id t);
  backends_of = λ id. status 200 (
      some (
        some (
          get_local_service_backends t
            (record { service_id = some (id ∷ []); enabled = some (some true ∷ []) }))));
}

-- The enabled backends of a service.
abbrev pub with_backends : Tables → Service → AttachedService
with_backends t s = record {
  service = s;
  backends = filter (λ b. b.service_id == s.id && b.enabled == some true) t.backends;
}

abbrev pub all_with_backends : Tables → List Service → List AttachedService
all_with_backends t [] = []
all_with_backends t (s ∷ ss) = with_backends t s ∷ all_with_backends t ss

-- What the agent has collected when the server has collected `a`.
abbrev pub lift : Tables → Attached → Collected
lift t a = record { services = all_with_backends t a.services; seen = a.seen }

all_with_backends-snoc :
    (t : Tables) (ss : List Service) (s : Service)
    → all_with_backends t (ss ++ s ∷ []) ≡ all_with_backends t ss ++ with_backends t s ∷ []
all_with_backends-snoc t [] s = refl
all_with_backends-snoc t (r ∷ ss) s = rw (all_with_backends-snoc t ss s) refl

backends-served :
    (sid : String) (bs : List Backend)
    → filter
        (λ b. default_true b.enabled)
        (filter (λ b. contains (sid ∷ []) b.service_id && contains (some true ∷ []) b.enabled) bs)
      ≡ filter (λ b. b.service_id == sid && b.enabled == some true) bs
unfolding filter bool_eq
backends-served sid [] = refl
backends-served sid (b ∷ bs) = ground (arith, backends-served sid bs)

fetch_service-lem :
    (api : Api) (sid : String) (s : Service) (bs : List Backend)
    → api.endpoint ≡ true
    → api.service_of sid ≡ status 200 (some (some s))
    → api.backends_of sid ≡ status 200 (some (some bs))
    → fetch_service api sid ≡ (
        if default_true s.enabled
        then got (some (record { service = s; backends = filter (λ b. default_true b.enabled) bs }))
        else got none)
unfolding fetch_service get_json nat_eq fetch_backends filter
fetch_service-lem api sid s bs e h f = rw (e, h, f, fetch_service) refl

module _ (t : Tables) where
  fetch_service-served :
      (sid : String) (s : Service)
      → get_local_service sid t ≡ ok s
      → fetch_service (served t) sid
        ≡ (if default_true s.enabled then got (some (with_backends t s)) else got none)
  unfolding get_local_service_backends backend_passes
  fetch_service-served sid s h =
      let (named, _) = id-get_local_service t sid s h in
      let at_id : get_local_service s.id t ≡ ok s = ap (λ k. get_local_service k t) named ∙ h in
      subst (λ k. fetch_service (served t) k ≡ outcome s) named
        (rw⁻¹ (backends-served s.id t.backends)
          (fetch_service-lem (served t) s.id s _ refl (rw at_id refl) refl))
    where
      outcome : Service → Fetched (Option AttachedService)
      outcome s = if default_true s.enabled then got (some (with_backends t s)) else got none

  attach_agrees :
      (a : Attached) (sid : String) (s : Service)
      → collect sid (with_backends t s) (lift t a) ≡ lift t (attach sid s a)
  attach_agrees a sid s = rw (all_with_backends-snoc t a.services s) refl

  round_agrees :
      (a : Attached) (sid : String) (s : Service) (on : Bool)
      → default_true s.enabled ≡ on
      → get_local_service sid t ≡ ok s
      → (o : Option AttachedService) × (fetch_service (served t) sid ≡ got o)
        × (collect_new sid o (lift t a) ≡ lift t (attach_explicit t a sid))
  unfolding attach_explicit
  round_agrees a sid s true e h = (
    some (with_backends t s),
    rw (fetch_service-served sid s h, e) refl,
    elim (Bool-cases (contains a.seen sid)) [
      | inl c ↦ let same : attach_explicit t a sid ≡ a = ground arith in rw (same, c) refl
      | inr c ↦
          let same : attach_explicit t a sid ≡ attach sid s a = ground arith in
          rw (same, c) (attach_agrees a sid s)
    ],
  )
  round_agrees a sid s false e h = (
    none,
    rw (fetch_service-served sid s h, e) refl,
    let same : attach_explicit t a sid ≡ a = ground arith in rw same refl,
  )

  pub explicit_agrees :
      (a : Attached) (sids : List String)
      → ((k : String) → contains sids k ≡ true → (s : Service) × (get_local_service k t ≡ ok s))
      → collect_explicit (served t) (lift t a) sids ≡ got (lift t (explicit_loop t a sids))
  unfolding collect_explicit explicit_loop
  explicit_agrees a [] found = refl
  explicit_agrees a (sid ∷ sids) found =
      let (s, h) = found sid (ground arith) in
      let (o, fetched, same) = round_agrees a sid s (default_true s.enabled) refl h in
      rw (fetched, same)
        (explicit_agrees (attach_explicit t a sid) sids (λ k c. found k (ground arith)))

  opt_out_round-lem :
      (api : Api) (excluded : List String) (a : Collected) (svc : Service) (bs : List Backend)
      → text_is_true svc.id ≡ true
      → default_true svc.enabled ≡ true
      → api.endpoint ≡ true
      → api.backends_of svc.id ≡ status 200 (some (some bs))
      → collect_opt_out api excluded a svc
        ≡ got (
            if contains excluded svc.id || contains a.seen svc.id
            then a
            else collect svc.id
                (record { service = svc; backends = filter (λ b. default_true b.enabled) bs })
                a)
  unfolding collect_opt_out fetch_backends get_json nat_eq filter
  opt_out_round-lem api excluded a svc bs named on e f =
      elim (Bool-cases (contains a.seen svc.id)) [
        | inl c ↦ elim (Bool-cases (contains excluded svc.id)) [
          | inl d ↦ rw (named, on, c, d, collect_opt_out) refl
          | inr d ↦ rw (named, on, c, d, collect_opt_out) refl
        ]
        | inr c ↦ elim (Bool-cases (contains excluded svc.id)) [
          | inl d ↦ rw (named, on, c, d, collect_opt_out) refl
          | inr d ↦ rw (named, on, c, d, e, f, collect_opt_out) refl
        ]
      ]

  opt_out_round_agrees :
      (excluded : List String) (a : Attached) (svc : Service)
      → text_is_true svc.id ≡ true
      → default_true svc.enabled ≡ true
      → collect_opt_out (served t) excluded (lift t a) svc
        ≡ got (lift t (attach_implicit excluded a svc))
  unfolding attach_implicit get_local_service_backends backend_passes
  opt_out_round_agrees excluded a svc named on =
      opt_out_round-lem (served t) excluded (lift t a) svc _ named on refl refl
      ∙ elim (Bool-cases (contains excluded svc.id || contains a.seen svc.id)) [
        | inl c ↦ rw c refl
        | inr c ↦
            rw (c, backends-served svc.id t.backends, all_with_backends-snoc t a.services svc) refl
      ]

  pub implicit_agrees :
      (excluded : List String) (a : Attached) (svcs : List Service)
      → All (λ s. (text_is_true s.id ≡ true) × (default_true s.enabled ≡ true)) svcs
      → collect_implicit (served t) excluded (lift t a) svcs
        ≡ got (lift t (implicit_loop excluded a svcs))
  unfolding collect_implicit implicit_loop
  implicit_agrees excluded a [] h = refl
  implicit_agrees excluded a (svc ∷ svcs) ((named, on), h) =
      rw (opt_out_round_agrees excluded a svc named on)
        (implicit_agrees excluded (attach_implicit excluded a svc) svcs h)
