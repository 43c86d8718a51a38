-- ===== src/Underlay/Allocator/Invariant.antt =====
-- No two networks share an index, every index is in the pool, and only a full pool is exhausted.
use neutron_local_services_p.Base.{
  ℕ, ◌<◌, String, ◌≡◌, refl, Bool, true, false, Option-cases, Bool-cases, inl, inr, ◌⊎◌, none, some,
  List, [], ◌∷◌, ◌==◌, nat_eq, string_eq, contains, All, Nodup, arith, ◌||◌,
}
use neutron_local_services_p.Base.Dict
use neutron_local_services_p.Base.Dict.{Dict}
use neutron_local_services_p.Underlay.Allocator.{
  Allocator, ok, raise, pool_exhausted, save, first_free, allocate, free,
}
use neutron_local_services_p.Underlay.Allocator.Slots.{first_free-some}

-- The indices in use.
abbrev pub used : Allocator → List ℕ
used a = Dict.values a.allocations

pub record IsValid (a : Allocator) : Type 0 where
  pub networks : Nodup (Dict.keys a.allocations)
  pub distinct : Nodup (used a)
  pub in_pool : All (λ i. i < a.slots) (used a)

module _ (k : String) (i : ℕ) where
  values-insert_new :
      (d : Dict String ℕ) (j : ℕ)
      → Dict.lookup k d ≡ none
      → contains (Dict.values (Dict.insert k i d)) j ≡ (j == i || contains (Dict.values d) j)
  unfolding Dict.insert Dict.lookup
  values-insert_new [] j h = refl
  values-insert_new ((l, m) ∷ d) j h = ground (arith, values-insert_new d j)

  insert-Nodup-values :
      (d : Dict String ℕ)
      → Dict.lookup k d ≡ none
      → contains (Dict.values d) i ≡ false
      → Nodup (Dict.values d)
      → Nodup (Dict.values (Dict.insert k i d))
  unfolding Dict.insert Dict.lookup
  insert-Nodup-values [] h f n = (refl, tt)
  insert-Nodup-values ((l, m) ∷ d) h f (g, n) =
      ground (arith, insert-Nodup-values d, values-insert_new d m)

  insert-Nodup-keys :
      (d : Dict String ℕ) → Nodup (Dict.keys d) → Nodup (Dict.keys (Dict.insert k i d))
  unfolding Dict.insert
  insert-Nodup-keys [] n = (refl, tt)
  insert-Nodup-keys ((l, m) ∷ d) (g, n) =
      ground (arith, insert-Nodup-keys d n, Dict.contains-keys-insert k l i d)

  insert-All-values :
      (slots : ℕ) (d : Dict String ℕ)
      → i < slots
      → All (λ j. j < slots) (Dict.values d)
      → All (λ j. j < slots) (Dict.values (Dict.insert k i d))
  unfolding Dict.insert
  insert-All-values slots [] l h = (l, tt)
  insert-All-values slots ((j, m) ∷ d) l (h, hs) = ground (arith, insert-All-values slots d l hs)

module _ (k : String) where
  contains-values-erase :
      (d : Dict String ℕ) (j : ℕ)
      → contains (Dict.values d) j ≡ false
      → contains (Dict.values (Dict.erase k d)) j ≡ false
  unfolding Dict.erase
  contains-values-erase [] j h = refl
  contains-values-erase ((l, m) ∷ d) j h = ground (arith, contains-values-erase d j)

  erase-Nodup-values :
      (d : Dict String ℕ) → Nodup (Dict.values d) → Nodup (Dict.values (Dict.erase k d))
  unfolding Dict.erase
  erase-Nodup-values [] n = tt
  erase-Nodup-values ((l, m) ∷ d) (g, n) =
      ground (arith, erase-Nodup-values d n, contains-values-erase d m g)

  erase-Nodup-keys : (d : Dict String ℕ) → Nodup (Dict.keys d) → Nodup (Dict.keys (Dict.erase k d))
  unfolding Dict.erase
  erase-Nodup-keys [] n = tt
  erase-Nodup-keys ((l, m) ∷ d) (g, n) =
      ground (arith, erase-Nodup-keys d n, Dict.contains-keys-erase k l d)

  erase-All-values :
      (slots : ℕ) (d : Dict String ℕ)
      → All (λ j. j < slots) (Dict.values d)
      → All (λ j. j < slots) (Dict.values (Dict.erase k d))
  unfolding Dict.erase
  erase-All-values slots [] h = tt
  erase-All-values slots ((j, m) ∷ d) (h, hs) = ground (arith, erase-All-values slots d hs)

save-allocations {ℓ} :
    {A : Type ℓ} (writable : Bool) (x : A) (a : Allocator)
    → ((save writable x a).1.allocations ≡ a.allocations) × ((save writable x a).1.slots ≡ a.slots)
unfolding save
save-allocations true x a = (refl, refl)
save-allocations false x a = (refl, refl)

save-IsValid {ℓ} :
    {A : Type ℓ} (writable : Bool) (x : A) (a : Allocator)
    → IsValid a
    → IsValid (save writable x a).1
save-IsValid writable x a v =
    let (e, f) = save-allocations writable x a in
    record { networks = rw e v.networks; distinct = rw e v.distinct; in_pool = rw (e, f) v.in_pool }

module _ (writable : Bool) (n : String) (a : Allocator) where
  pub allocate_hit :
      (idx : ℕ) → Dict.lookup n a.allocations ≡ some idx → allocate writable n a ≡ (ok idx, a)
  unfolding allocate
  allocate_hit idx h = rw (h, allocate) refl

  pub allocate_full :
      Dict.lookup n a.allocations ≡ none
      → first_free a.slots 0 (used a) ≡ none
      → allocate writable n a ≡ (raise pool_exhausted, a)
  unfolding allocate
  allocate_full h f = rw (h, f, allocate) refl

  pub allocate_new :
      (idx : ℕ)
      → Dict.lookup n a.allocations ≡ none
      → first_free a.slots 0 (used a) ≡ some idx
      → allocate writable n a
        ≡ save writable idx (record a { allocations = Dict.insert n idx a.allocations })
  unfolding allocate
  allocate_new idx h f = rw (h, f, allocate) refl

  -- The three ways in which a call goes.
  pub allocate_cases :
      ((idx : ℕ) × (Dict.lookup n a.allocations ≡ some idx))
      ⊎ (((Dict.lookup n a.allocations ≡ none) × (first_free a.slots 0 (used a) ≡ none))
          ⊎ ((idx : ℕ) × (Dict.lookup n a.allocations ≡ none)
              × (first_free a.slots 0 (used a) ≡ some idx)))
  allocate_cases = elim (Option-cases (Dict.lookup n a.allocations)) [
    | inr (idx, h) ↦ inl (idx, h)
    | inl h ↦ elim (Option-cases (first_free a.slots 0 (used a))) [
      | inl f ↦ inr (inl (h, f))
      | inr (idx, f) ↦ inr (inr (idx, h, f))
    ]
  ]

  insert-IsValid :
      (idx : ℕ)
      → Dict.lookup n a.allocations ≡ none
      → first_free a.slots 0 (used a) ≡ some idx
      → IsValid a
      → IsValid (record a { allocations = Dict.insert n idx a.allocations })
  insert-IsValid idx h f v =
      let (fresh, _, below) = first_free-some a.slots 0 (used a) idx f in
      record {
        networks = insert-Nodup-keys n idx a.allocations v.networks;
        distinct = insert-Nodup-values n idx a.allocations h fresh v.distinct;
        in_pool = insert-All-values n idx a.slots a.allocations (omega arith) v.in_pool;
      }

  pub allocate-IsValid : IsValid a → IsValid (allocate writable n a).1
  allocate-IsValid v = elim allocate_cases [
    | inl (idx, h) ↦ rw (allocate_hit idx h) v
    | inr (inl (h, f)) ↦ rw (allocate_full h f) v
    | inr (inr (idx, h, f)) ↦
        rw (allocate_new idx h f) (save-IsValid writable idx _ (insert-IsValid idx h f v))
  ]

  erase-IsValid : IsValid a → IsValid (record a { allocations = Dict.erase n a.allocations })
  erase-IsValid v = record {
    networks = erase-Nodup-keys n a.allocations v.networks;
    distinct = erase-Nodup-values n a.allocations v.distinct;
    in_pool = erase-All-values n a.slots a.allocations v.in_pool;
  }

  pub free-IsValid : IsValid a → IsValid (free writable n a).1
  free-IsValid v = elim (Bool-cases (contains (Dict.keys a.allocations) n)) [
    | inl e ↦
        let step : free writable n a
            ≡ save writable tt (record a { allocations = Dict.erase n a.allocations }) =
          unfold free in rw (e, free) refl in
        rw step (save-IsValid writable tt _ (erase-IsValid v))
    | inr e ↦
        let step : free writable n a ≡ (ok tt, a) = unfold free in rw (e, free) refl in rw step v
  ]
