-- ===== src/Db/Rows.antt =====
-- Rows with a primary key: what an UPDATE and a DELETE by key do to a table, and how the keys, the
-- contents and a uniqueness constraint fare under them.
use neutron_local_services_p.Base.{
  String, ◌≡◌, refl, ap, Bool, true, false, not, ◌&&◌, ◌||◌, Option, some, List, [], ◌∷◌, ◌++◌,
  ◌==◌, string_eq, if◌then◌else◌, contains, contains-append, filter, find?, Bool-cases, inl, inr,
  subst, any, All, Nodup, arith,
}

module _ {ℓ} {A : Type ℓ} (id : A → String) where
  abbrev pub ids : List A → List String
  ids [] = []
  ids (x ∷ xs) = id x ∷ ids xs

  -- Every row with the key of `a` becomes `a`.
  unfoldable pub replace : A → List A → List A
  replace a [] = []
  replace a (x ∷ xs) = (if id x == id a then a else x) ∷ replace a xs

  abbrev pub other_key : String → A → Bool
  other_key k x = not (id x == k)

  unfoldable pub remove : String → List A → List A
  remove k = filter (other_key k)

  unfoldable pub by_key : String → List A → Option A
  by_key k = find? (λ x. id x == k)

  pub ids-append : (xs ys : List A) → ids (xs ++ ys) ≡ ids xs ++ ids ys
  ids-append [] ys = refl
  ids-append (x ∷ xs) ys = ap (◌∷◌ (id x)) (ids-append xs ys)

  pub ids-replace : (a : A) (xs : List A) → ids (replace a xs) ≡ ids xs
  unfolding replace
  ids-replace a [] = refl
  ids-replace a (x ∷ xs) = ground (arith, ids-replace a xs)

  pub contains-ids-remove :
      (k j : String) (xs : List A)
      → contains (ids (remove k xs)) j ≡ (contains (ids xs) j && not (j == k))
  unfolding remove filter
  contains-ids-remove k j [] = refl
  contains-ids-remove k j (x ∷ xs) = ground (arith, contains-ids-remove k j xs)

  pub ids-remove-Nodup : (k : String) (xs : List A) → Nodup (ids xs) → Nodup (ids (remove k xs))
  unfolding remove filter
  ids-remove-Nodup k [] h = tt
  ids-remove-Nodup k (x ∷ xs) (h, hs) =
      ground (arith, ids-remove-Nodup k xs hs, contains-ids-remove k (id x) xs)

  pub ids-snoc-Nodup :
      (a : A) (xs : List A)
      → contains (ids xs) (id a) ≡ false
      → Nodup (ids xs)
      → Nodup (ids (xs ++ a ∷ []))
  ids-snoc-Nodup a [] f h = (refl, tt)
  ids-snoc-Nodup a (x ∷ xs) f (h, hs) = ground (
    arith,
    ids-snoc-Nodup a xs,
    ids-append xs (a ∷ []),
    contains-append (ids xs) (id a ∷ []) (id x),
  )

  pub by_key-contains :
      (k : String) (xs : List A) (a : A) → by_key k xs ≡ some a → contains (ids xs) k ≡ true
  unfolding by_key find?
  by_key-contains k [] a h = cc
  by_key-contains k (x ∷ xs) a h = ground (arith, by_key-contains k xs a)

  pub by_key-key : (k : String) (xs : List A) (a : A) → by_key k xs ≡ some a → id a ≡ k
  unfolding by_key find?
  by_key-key k [] a h = cc
  by_key-key k (x ∷ xs) a h = ground (arith, by_key-key k xs a)

  pub replace_absent : (a : A) (xs : List A) → contains (ids xs) (id a) ≡ false → replace a xs ≡ xs
  unfolding replace
  replace_absent a [] h = refl
  replace_absent a (x ∷ xs) h = ground (arith, replace_absent a xs)

module _ {ℓ κ} {A : Type ℓ} (P : A → Type κ) where
  either : (b : Bool) (a x : A) → P a → P x → P (if b then a else x)
  either true a x h k = h
  either false a x h k = k

  pub All-replace :
      (id : A → String) (a : A) (xs : List A) → P a → All P xs → All P (replace id a xs)
  unfolding replace
  All-replace id a [] h hs = tt
  All-replace id a (x ∷ xs) h (k, ks) = (either (id x == id a) a x h k, All-replace id a xs h ks)

  pub All-filter : (p : A → Bool) (xs : List A) → All P xs → All P (filter p xs)
  unfolding filter
  All-filter p [] hs = tt
  All-filter p (x ∷ xs) (k, ks) = keep (p x) (All-filter p xs ks)
    where
      keep : (b : Bool) → All P (filter p xs) → All P (if b then x ∷ filter p xs else filter p xs)
      keep true rest = (k, rest)
      keep false rest = rest

  pub All-find? : (p : A → Bool) (xs : List A) (a : A) → All P xs → find? p xs ≡ some a → P a
  unfolding find?
  All-find? p [] a hs h = cc
  All-find? p (x ∷ xs) a (k, ks) h = elim (Bool-cases (p x)) [
    | inl e ↦ subst P (ground arith) k
    | inr e ↦ All-find? p xs a ks (ground arith)
  ]

module _ {ℓ κ ι} {A : Type ℓ} (P : A → Type κ) (Q : A → Type ι) where
  pub All-map : ((a : A) → P a → Q a) → (xs : List A) → All P xs → All Q xs
  All-map f [] hs = tt
  All-map f (x ∷ xs) (k, ks) = (f x k, All-map f xs ks)

-- What held of all rows gives what holds of those that a DELETE by another column leaves.
module _ {ℓ κ ι} {A : Type ℓ} (P : A → Type κ) (Q : A → Type ι) (column : A → String)
    (k : String) where
  pub All-remove :
      ((a : A) → P a → (column a == k) ≡ false → Q a)
      → (xs : List A) → All P xs
      → All Q (remove column k xs)
  unfolding remove filter
  All-remove f [] hs = tt
  All-remove f (x ∷ xs) (h, hs) = elim (Bool-cases (column x == k)) [
    | inl e ↦ rw e (All-remove f xs hs)
    | inr e ↦ rw e (f x h e, All-remove f xs hs)
  ]

-- Deleting by one column keeps another column free of repetition.
module _ {ℓ} {A : Type ℓ} (id column : A → String) (k : String) where
  contains-ids-remove_other :
      (j : String) (xs : List A)
      → contains (ids id xs) j ≡ false
      → contains (ids id (remove column k xs)) j ≡ false
  unfolding remove filter
  contains-ids-remove_other j [] h = refl
  contains-ids-remove_other j (x ∷ xs) h = ground (arith, contains-ids-remove_other j xs)

  pub ids-remove_other-Nodup :
      (xs : List A) → Nodup (ids id xs) → Nodup (ids id (remove column k xs))
  unfolding remove filter
  ids-remove_other-Nodup [] h = tt
  ids-remove_other-Nodup (x ∷ xs) (h, hs) =
      ground (arith, ids-remove_other-Nodup xs hs, contains-ids-remove_other (id x) xs)

-- No two rows are related: the unique constraint for the relation "same values of the columns".
module _ {ℓ} {A : Type ℓ} (r : A → A → Bool) where
  abbrev pub Distinct : List A → Type 0
  Distinct [] = Unit
  Distinct (x ∷ xs) = (any (r x) xs ≡ false) × Distinct xs

  any-filter :
      (p : A → Bool) (a : A) (xs : List A) → any (r a) xs ≡ false → any (r a) (filter p xs) ≡ false
  unfolding any filter
  any-filter p a [] h = refl
  any-filter p a (x ∷ xs) h = ground (arith, any-filter p a xs)

  pub filter-Distinct : (p : A → Bool) (xs : List A) → Distinct xs → Distinct (filter p xs)
  unfolding filter
  filter-Distinct p [] h = tt
  filter-Distinct p (x ∷ xs) (h, hs) = ground (arith, filter-Distinct p xs hs, any-filter p x xs)

  any-snoc : (a b : A) (xs : List A) → any (r a) (xs ++ b ∷ []) ≡ (any (r a) xs || r a b)
  unfolding any
  any-snoc a b [] = ground arith
  any-snoc a b (x ∷ xs) = ground (arith, any-snoc a b xs)

  pub snoc-Distinct :
      (sym_r : (x y : A) → r x y ≡ r y x) (a : A) (xs : List A)
      → any (r a) xs ≡ false
      → Distinct xs
      → Distinct (xs ++ a ∷ [])
  unfolding any
  snoc-Distinct sym_r a [] f h = (refl, tt)
  snoc-Distinct sym_r a (x ∷ xs) f (h, hs) =
      ground (arith, snoc-Distinct sym_r a xs, any-snoc x a xs, sym_r a x)

-- Replacing a row by one with the same values of the constrained columns keeps the constraint.
module _ {ℓ} {A : Type ℓ} (id : A → String) (r : A → A → Bool) (old new : A) where
  module _ (same_id : id new ≡ id old)
      (same : (x : A) → (r x new ≡ r x old) × (r new x ≡ r old x)) where
    any-replace :
        (a : A) (xs : List A)
        → by_key id (id old) xs ≡ some old
        → Nodup (ids id xs)
        → any (r a) (replace id new xs) ≡ any (r a) xs
    unfolding any replace by_key find?
    any-replace a [] h d = refl
    any-replace a (x ∷ xs) h (f, d) = elim (string_eq.dec (id x) (id old)) [
      | yes p ↦ ground (arith, replace_absent id new xs, same a)
      | no p ↦ ground (arith, any-replace a xs)
    ]

    any_same : (xs : List A) → any (r new) xs ≡ any (r old) xs
    unfolding any
    any_same [] = refl
    any_same (x ∷ xs) = ground (arith, same x, any_same xs)

    pub replace-Distinct :
        (xs : List A)
        → by_key id (id old) xs ≡ some old
        → Nodup (ids id xs)
        → Distinct r xs
        → Distinct r (replace id new xs)
    unfolding replace by_key find?
    replace-Distinct [] h d k = tt
    replace-Distinct (x ∷ xs) h (f, d) (k, ks) = elim (string_eq.dec (id x) (id old)) [
      | yes p ↦ ground (arith, replace_absent id new xs, same x, any_same xs)
      | no p ↦ ground (arith, replace-Distinct xs, any-replace x xs)
    ]
