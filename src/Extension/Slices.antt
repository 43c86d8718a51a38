-- ===== src/Extension/Slices.antt =====
-- Which services each plugin is given.
use neutron_local_services_p.Base.{
  String, ◌≡◌, refl, ◌∙◌, sym, Bool, true, false, none, some, List, [], ◌∷◌, ◌++◌, ◌==◌, string_eq,
  if◌then◌else◌, contains, filter, Option-cases, Bool-cases, inl, inr, arith,
}
use mathlib.Core.List.{append_assoc, append-nil}
use neutron_local_services_p.Base.Dict
use neutron_local_services_p.Base.Dict.{Dict}
use neutron_local_services_p.Records.{AttachedService}
use neutron_local_services_p.Extension.{plugin_name, no_slices, assign, assign_all, slice_of}

lookup-no_slices :
    (name : String) (names : List String)
    → contains names name ≡ true
    → Dict.lookup name (no_slices names) ≡ some []
unfolding no_slices Dict.lookup
lookup-no_slices name [] h = cc
lookup-no_slices name (n ∷ names) h = ground (arith, lookup-no_slices name names)

abbrev pub is_for : String → AttachedService → Bool
is_for name svc = name == plugin_name svc

lookup-assign :
    (name : String) (svc : AttachedService) (slices : Dict String (List AttachedService))
    (slice : List AttachedService)
    → Dict.lookup name slices ≡ some slice
    → Dict.lookup name (assign svc slices)
      ≡ some (if is_for name svc then slice ++ svc ∷ [] else slice)
unfolding assign
lookup-assign name svc slices slice h = elim (Option-cases (Dict.lookup (plugin_name svc) slices)) [
  | inl e ↦
      let same : assign svc slices ≡ slices = rw (e, assign) refl in
      let other : is_for name svc ≡ false = elim (string_eq.dec name (plugin_name svc)) [
        | yes p ↦ let clash : none ≡ some slice = sym e ∙ rw p at h in cc
        | no p ↦ ground arith
      ] in
      rw (same, h, other) refl
  | inr (found, e) ↦
      let same : assign svc slices ≡ Dict.insert (plugin_name svc) (found ++ svc ∷ []) slices =
        rw (e, assign) refl in
      rw (same, Dict.lookup-insert)
        (elim (string_eq.dec name (plugin_name svc)) [
          | yes p ↦
              let both : some found ≡ some slice = sym e ∙ rw p at h in
              let equal : found ≡ slice = cc in rw equal (ground (arith, p))
          | no p ↦ ground (arith, h)
        ])
]

lookup-assign_all :
    (name : String) (services : List AttachedService) (slices : Dict String (List AttachedService))
    (slice : List AttachedService)
    → Dict.lookup name slices ≡ some slice
    → Dict.lookup name (assign_all services slices) ≡ some (slice ++ filter (is_for name) services)
unfolding assign_all filter
lookup-assign_all name [] slices slice h = rw (append-nil) h
lookup-assign_all name (svc ∷ services) slices slice h =
    lookup-assign_all name services (assign svc slices) _ (lookup-assign name svc slices slice h)
    ∙ elim (Bool-cases (is_for name svc)) [ inl e ↦ rw (e, append_assoc) refl | inr e ↦ rw e refl ]

-- Each loaded plugin is given exactly the services that ask for it, in their order, where a service
-- that names no plugin asks for `nat`.
pub slice-eq-filter :
    (name : String) (plugins : List String) (services : List AttachedService)
    → contains plugins name ≡ true
    → slice_of name (assign_all services (no_slices plugins)) ≡ filter (is_for name) services
unfolding slice_of
slice-eq-filter name plugins services h =
    rw
      (
        lookup-assign_all name services (no_slices plugins) [] (lookup-no_slices name plugins h),
        slice_of,
      )
      refl
