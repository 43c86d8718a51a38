-- ===== src/HostRoutes/Merge.antt =====
-- What `merge` and `routes_equal` decide.
use neutron_local_services_p.Base.{
  String, ◌≡◌, refl, ◌∙◌, ap, ◌↔◌, Bool, true, not, ◌&&◌, Option, List, [], ◌∷◌, ◌++◌, ◌==◌, ==_iff,
  nat_eq, string_eq, option_eq, contains, filter, count, arith, sym,
}
use mathlib.Core.List.{append-nil}
use neutron_local_services_p.Base.Sorting.{count-sort, sort-eq_of_count}
use neutron_local_services_p.Base.Orders.{text_order, pair_order}
use neutron_local_services_p.Records.{Route, route_eq}
use neutron_local_services_p.HostRoutes.{
  destinations, surviving, merge, complete_pairs, norm, routes_equal, pair_eq, pairs_eq,
}

-- A tenant's route: it does not go through the localport, and no service claims its destination.
abbrev pub is_tenant_route : List Route → Option String → Route → Bool
is_tenant_route routes nexthop r =
    not (r.nexthop == nexthop) && not (contains (destinations routes) r.destination)

surviving-filter :
    (routes : List Route) (nexthop : Option String) (existing : List Route)
    → surviving (destinations routes) nexthop existing
      ≡ filter (is_tenant_route routes nexthop) existing
unfolding surviving filter
surviving-filter routes nexthop [] = refl
surviving-filter routes nexthop (r ∷ existing) =
    ground (arith, surviving-filter routes nexthop existing)

-- The merged list is the tenant's routes in their old order, and then the service routes. An old
-- route stays exactly if its nexthop is not the localport and no service route has its destination.
pub merge-eq-filter-append :
    (existing routes : List Route) (nexthop : Option String)
    → merge existing routes nexthop ≡ filter (is_tenant_route routes nexthop) existing ++ routes
unfolding merge
merge-eq-filter-append existing routes nexthop = rw surviving-filter

surviving_desired :
    (desired : List (Option String)) (nexthop : Option String) (routes : List Route)
    → ((d : Option String) → contains (destinations routes) d ≡ true → contains desired d ≡ true)
    → surviving desired nexthop routes ≡ []
unfolding surviving
surviving_desired desired nexthop [] h = refl
surviving_desired desired nexthop (r ∷ routes) h =
    ground
      (arith, h r.destination, surviving_desired desired nexthop routes (λ d k. h d (ground arith)))

surviving-append :
    (desired : List (Option String)) (nexthop : Option String) (xs ys : List Route)
    → surviving desired nexthop (xs ++ ys)
      ≡ surviving desired nexthop xs ++ surviving desired nexthop ys
unfolding surviving
surviving-append desired nexthop [] ys = refl
surviving-append desired nexthop (x ∷ xs) ys =
    ground (arith, surviving-append desired nexthop xs ys)

surviving_idem :
    (desired : List (Option String)) (nexthop : Option String) (xs : List Route)
    → surviving desired nexthop (surviving desired nexthop xs) ≡ surviving desired nexthop xs
unfolding surviving
surviving_idem desired nexthop [] = refl
surviving_idem desired nexthop (x ∷ xs) = ground (arith, surviving_idem desired nexthop xs)

-- Merging again changes nothing, not even the order.
pub merge_idem :
    (existing routes : List Route) (nexthop : Option String)
    → merge (merge existing routes nexthop) routes nexthop ≡ merge existing routes nexthop
unfolding merge
merge_idem existing routes nexthop = rw (
  surviving-append,
  surviving_idem,
  surviving_desired (destinations routes) nexthop routes (λ d h. h),
  append-nil,
)

norm-eq_iff :
    (a b : List Route)
    → (norm a ≡ norm b)
      ↔ ((p : String × String) → count p (complete_pairs a) ≡ count p (complete_pairs b))
unfolding norm
norm-eq_iff a b = (
  λ e p.
      sym (count-sort (pair_order text_order text_order) p (complete_pairs a))
      ∙ ap (count p) e
      ∙ count-sort (pair_order text_order text_order) p (complete_pairs b),
  λ h. sort-eq_of_count (pair_order text_order text_order) _ _ h,
)

-- Two lists count as equal exactly if every pair of a destination and a nexthop stands in both
-- equally often. The order does not matter, nor do routes that lack one of the two.
pub routes_equal_iff :
    (a b : List Route)
    → (routes_equal a b ≡ true)
      ↔ ((p : String × String) → count p (complete_pairs a) ≡ count p (complete_pairs b))
unfolding routes_equal
routes_equal_iff a b = (
  λ e. (norm-eq_iff a b).0 ((==_iff (norm a) (norm b)).0 e),
  λ h. (==_iff (norm a) (norm b)).1 ((norm-eq_iff a b).1 h),
)
