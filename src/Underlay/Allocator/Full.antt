-- ===== src/Underlay/Allocator/Full.antt =====
-- When the pool is exhausted, and what an allocation changes.
use neutron_local_services_p.Base.{
  ℕ, ◌≤◌, String, ◌≡◌, ◌≢◌, refl, Bool, true, false, Option-cases, inl, inr, ◌∙◌, none, some, List,
  ◌∷◌, ◌==◌, nat_eq, string_eq, if◌then◌else◌, length, arith, ◌↔◌,
}
use neutron_local_services_p.Base.Dict
use neutron_local_services_p.Underlay.Allocator.{
  Allocator, ok, raise, pool_exhausted, save, first_free, allocate, get,
}
use neutron_local_services_p.Underlay.Allocator.Slots.{
  first_free-some, first_free-none, pigeonhole, capacity,
}
use neutron_local_services_p.Underlay.Allocator.Invariant.{
  used, IsValid, allocate_hit, allocate_full, allocate_new, allocate_cases,
}

save-ne-exhausted {ℓ} :
    {A : Type ℓ} (writable : Bool) (x : A) (a : Allocator)
    → (save writable x a).0 ≢ raise pool_exhausted
unfolding save
save-ne-exhausted true x a = λ e. cc
save-ne-exhausted false x a = λ e. cc

save-ok :
    (writable : Bool) (x : ℕ) (a : Allocator) (y : ℕ)
    → (save writable x a).0 ≡ ok y
    → (x ≡ y) × ((save writable x a).1.allocations ≡ a.allocations)
unfolding save
save-ok true x a y e = (ok_injective x y e, refl)
  where
    ok_injective : (i j : ℕ) → ok i ≡ ok j → i ≡ j
    ok_injective i j p = cc
save-ok false x a y e = cc

ap_some : (i j : ℕ) → ok i ≡ ok j → some i ≡ some j
ap_some i j e = cc

free_slots : (xs : List ℕ) (m : ℕ) → first_free m 0 xs ≡ none → m ≤ length xs
free_slots xs m f = pigeonhole m xs (λ i l. first_free-none m 0 xs i f (omega arith) (omega arith))

module _ (writable : Bool) (n : String) (a : Allocator) where
  -- Over a valid allocator, a network that has no /30 is refused one exactly if all indices of the
  -- pool are in use.
  pub allocate_exhausted_iff :
      IsValid a
      → Dict.lookup n a.allocations ≡ none
      → ((allocate writable n a).0 ≡ raise pool_exhausted) ↔ (length (used a) ≡ a.slots)
  allocate_exhausted_iff v h = elim (Option-cases (first_free a.slots 0 (used a))) [
    | inl f ↦
        let full : length (used a) ≡ a.slots =
          omega (
            arith,
            free_slots (used a) a.slots f,
            capacity a.slots (used a) v.distinct v.in_pool,
          ) in
        (λ e. full, λ e. rw (allocate_full writable n a h f) refl)
    | inr (idx, f) ↦ (
      λ e. absurd (save-ne-exhausted writable idx _ (rw (allocate_new writable n a idx h f) at e)),
      λ e.
          let (fresh, _, below) = first_free-some a.slots 0 (used a) idx f in
          absurd (
            omega (
              arith,
              capacity a.slots (idx ∷ used a) (fresh, v.distinct) (omega arith, v.in_pool),
            )),
    )
  ]

  kept :
      (idx : ℕ)
      → (allocate writable n a).0 ≡ ok idx
      → (get n (allocate writable n a).1 ≡ some idx)
        × ((m : String) → m ≢ n → get m (allocate writable n a).1 ≡ get m a)
  unfolding get
  kept idx e = elim (allocate_cases writable n a) [
    | inl (i, h) ↦
        rw (allocate_hit writable n a i h)
          (h ∙ ap_some i idx (rw (allocate_hit writable n a i h) at e), λ m d. refl)
    | inr (inl (h, f)) ↦
        let e' : raise pool_exhausted ≡ ok idx = rw (allocate_full writable n a h f) at e in cc
    | inr (inr (i, h, f)) ↦
        let b : Allocator = record a { allocations = Dict.insert n i a.allocations } in
        let (same, kept_all) =
          save-ok writable i b idx (rw (allocate_new writable n a i h f) at e) in
        rw (allocate_new writable n a i h f, kept_all)
          (
            rw Dict.lookup-insert (ground (arith, same)),
            λ m d. rw Dict.lookup-insert (ground (arith, d)),
          )
  ]

  -- After a call that returns an index, the network has that index, any other network has what it
  -- had, and a second call returns the same index and changes nothing.
  pub allocate_idem :
      (idx : ℕ) (m : String)
      → (allocate writable n a).0 ≡ ok idx
      → (get m (allocate writable n a).1 ≡ (if m == n then some idx else get m a))
        × (allocate writable n (allocate writable n a).1 ≡ (ok idx, (allocate writable n a).1))
  allocate_idem idx m e =
      let (own, others) = kept idx e in
      let frame : get m (allocate writable n a).1 ≡ (if m == n then some idx else get m a) =
        elim (string_eq.dec m n) [
          | yes p ↦ ground (arith, own)
          | no p ↦ ground (arith, others m p)
        ] in
      (frame, allocate_hit writable n (allocate writable n a).1 idx (unfold get in own))
