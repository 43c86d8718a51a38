-- ===== src/HostRoutes/Handler/Injection.antt =====
-- What an update of a subnet cannot do to the routes of the attached services.
use neutron_local_services_p.Base.{
  ◌≤◌, String, ◌≡◌, refl, ◌∙◌, ap, Bool, true, Option, none, some, List, [], ◌∷◌, ◌++◌, string_eq,
  subst, ◌⊎◌, Bool-cases, Option-cases, inl, inr, count, count-append, truthy, arith,
}
use neutron_local_services_p.Base.Sets.{SetOrder}
use neutron_local_services_p.Records.{Service, Route, Subnet}
use neutron_local_services_p.Netaddr.{Netaddr}
use neutron_local_services_p.Errors.{ok}
use neutron_local_services_p.CorePlugin.{CorePlugin, OvnConstants}
use neutron_local_services_p.Db.Tables.{Tables, Context}
use neutron_local_services_p.HostRoutes.{
  surviving, destinations, merge, complete_pairs, routes_equal, pairs_eq, pair_eq,
}
use neutron_local_services_p.HostRoutes.Merge.{merge_idem, routes_equal_iff}
use neutron_local_services_p.HostRoutes.Effective.{enabled_services_for_network}
use neutron_local_services_p.HostRoutes.Handler.{
  routes_in, is_present, write_routes, routes_for, inject, on_before_update,
}

complete_pairs-append :
    (xs ys : List Route) → complete_pairs (xs ++ ys) ≡ complete_pairs xs ++ complete_pairs ys
unfolding complete_pairs
complete_pairs-append [] ys = refl
complete_pairs-append (x ∷ xs) ys = ground (arith, complete_pairs-append xs ys)

-- Both hold every complete route of `routes` at least as often as `routes` does.
abbrev pub Carries : List Route → List Route → Type 0
Carries routes all =
    (p : String × String) → count p (complete_pairs routes) ≤ count p (complete_pairs all)

merge-Carries :
    (existing routes : List Route) (nexthop : Option String)
    → Carries routes (merge existing routes nexthop)
unfolding merge
merge-Carries existing routes nexthop p =
    rw
      (
        complete_pairs-append (surviving (destinations routes) nexthop existing) routes,
        count-append,
      )
      (omega arith)

pub routes_equal_refl : (a : List Route) → routes_equal a a ≡ true
routes_equal_refl a = (routes_equal_iff a a).1 (λ p. refl)

equal-Carries :
    (routes a b : List Route) → routes_equal a b ≡ true → Carries routes a → Carries routes b
equal-Carries routes a b e h p = omega (arith, (routes_equal_iff a b).0 e p, h p)

write_routes_cases :
    (r : Route) (routes : List Route) (nexthop : Option String) (target : Subnet)
    → let merged = merge (routes_in target.host_routes) (r ∷ routes) nexthop in
      let written = write_routes (r ∷ routes, nexthop) target in
      (written ≡ record target { host_routes = some merged })
      ⊎ ((written ≡ target) × (routes_equal merged (routes_in target.host_routes) ≡ true))
unfolding write_routes
write_routes_cases r routes nexthop target =
    elim (Bool-cases (
      routes_equal (merge (routes_in target.host_routes) (r ∷ routes) nexthop)
        (routes_in target.host_routes))) [
          | inl e ↦ inr (ground arith, e)
          | inr e ↦ inl (ground arith)
        ]

write_routes-Carries :
    (computed : List Route × Option String) (target : Subnet)
    → Carries computed.0 (routes_in (write_routes computed target).host_routes)
write_routes-Carries ([], nexthop) target = λ p. unfold complete_pairs count in omega arith
write_routes-Carries (r ∷ routes, nexthop) target =
    let carried = merge-Carries (routes_in target.host_routes) (r ∷ routes) nexthop in
    elim (write_routes_cases r routes nexthop target) [
      | inl e ↦ rw e carried
      | inr (e, same) ↦ rw e (equal-Carries (r ∷ routes) _ _ same carried)
    ]

write_routes_idem :
    (computed : List Route × Option String) (target : Subnet)
    → write_routes computed (write_routes computed target) ≡ write_routes computed target
write_routes_idem ([], nexthop) target = unfold write_routes in refl
write_routes_idem (r ∷ routes, nexthop) target = elim (write_routes_cases r routes nexthop target) [
  | inl e ↦ rw e (
      again (record target { host_routes = some _ })
        (routes_equal_of (merge_idem (routes_in target.host_routes) (r ∷ routes) nexthop)))
  | inr (e, same) ↦ rw e e
]
  where
    routes_equal_of : {a b : List Route} → a ≡ b → routes_equal a b ≡ true
    routes_equal_of {a} p = subst (λ b. routes_equal a b ≡ true) p (routes_equal_refl a)

    again :
        (u : Subnet)
        → routes_equal
            (merge (routes_in u.host_routes) (r ∷ routes) nexthop)
            (routes_in u.host_routes)
          ≡ true
        → write_routes (r ∷ routes, nexthop) u ≡ u
    again u h = unfold write_routes in ground arith

write_routes-frame :
    (computed : List Route × Option String) (target : Subnet)
    → ((write_routes computed target).id ≡ target.id)
      × ((write_routes computed target).cidr ≡ target.cidr)
unfolding write_routes
write_routes-frame ([], nexthop) target = (refl, refl)
write_routes-frame (r ∷ routes, nexthop) target = ground arith

module _ (N : Netaddr) (O : OvnConstants) (C : CorePlugin) (order : SetOrder String) (s : C.State)
    (t : Tables) (c : Context) where
  -- The routes that the handler computes for a subnet on a network.
  abbrev pub computed_routes : String → Subnet → Subnet → List Route
  computed_routes network_id lookup target =
      (routes_for N O C order s t c network_id lookup target
        (enabled_services_for_network order t c network_id)).0

  inject-Carries :
      (network_id : String) (lookup target : Subnet)
      → truthy lookup.network_id ≡ some network_id
      → Carries
          (computed_routes network_id lookup target)
          (routes_in (inject N O C order s t c lookup target).host_routes)
  unfolding inject
  inject-Carries network_id lookup target h = rw (h, inject) (write_routes-Carries _ target)

  -- A tenant's update of a subnet's host routes that the handler lets pass, whatever the new list
  -- is, leaves a list that holds every complete route of the services that are attached for the
  -- request, at least as often as it was computed.
  pub on_before_update-Carries :
      (fetched : Bool) (orig patch patch' : Subnet) (network_id : String)
      → truthy orig.network_id ≡ some network_id
      → is_present patch.host_routes ≡ true
      → on_before_update N O C order s t c fetched orig patch ≡ ok patch'
      → Carries (computed_routes network_id orig patch) (routes_in patch'.host_routes)
  unfolding on_before_update
  on_before_update-Carries fetched orig patch patch' network_id h touched e =
      let final : patch' ≡ inject N O C order s t c orig patch = ground arith in
      rw final (inject-Carries network_id orig patch h)

  -- Only the id and the CIDR of the target enter the computation.
  routes_for_same :
      (network_id : String) (lookup u target : Subnet) (services : List Service)
      → u.id ≡ target.id
      → u.cidr ≡ target.cidr
      → routes_for N O C order s t c network_id lookup u services
        ≡ routes_for N O C order s t c network_id lookup target services
  unfolding routes_for
  routes_for_same network_id lookup u target [] p q = refl
  routes_for_same network_id lookup u target (svc ∷ services) p q = rw (p, q) refl

  inject-some :
      (network_id : String) (lookup target : Subnet)
      → truthy lookup.network_id ≡ some network_id
      → inject N O C order s t c lookup target
        ≡ write_routes
            (routes_for N O C order s t c network_id lookup target
              (enabled_services_for_network order t c network_id))
            target
  unfolding inject
  inject-some network_id lookup target h = rw (h, inject) refl

  inject-none :
      (lookup target : Subnet)
      → truthy lookup.network_id ≡ none
      → inject N O C order s t c lookup target ≡ target
  unfolding inject
  inject-none lookup target h = rw (h, inject) refl

  -- Over the same tables and ports, injecting once more into the result of an injection changes
  -- nothing.
  pub inject_idem :
      (lookup target : Subnet)
      → inject N O C order s t c lookup (inject N O C order s t c lookup target)
        ≡ inject N O C order s t c lookup target
  inject_idem lookup target = elim (Option-cases (truthy lookup.network_id)) [
    | inl e ↦ inject-none lookup _ e
    | inr (n, e) ↦
        let computed =
          routes_for N O C order s t c n lookup target (enabled_services_for_network order t c n) in
        let (same_id, same_cidr) = write_routes-frame computed target in
        rw (inject-some n lookup target e) (
          inject-some n lookup (write_routes computed target) e
          ∙ ap (λ k. write_routes k (write_routes computed target))
              (routes_for_same n lookup _ target (enabled_services_for_network order t c n) same_id
                same_cidr)
          ∙ write_routes_idem computed target)
  ]
