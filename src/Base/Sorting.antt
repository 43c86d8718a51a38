-- ===== src/Base/Sorting.antt =====
-- `sorted`, over a total order. Two lists sort to the same list exactly if they hold the same
-- elements, each as often.
use Prim.Native.Nat.{ℕ, ◌+◌}
use mathlib.Core.Path.{◌≡◌, refl, sym, ap, ◌∙◌}
use mathlib.Core.Bool.{Bool, true, false}
use mathlib.Core.List.{List, [], ◌∷◌}
use native.Mathlib.Omega.{arith}
use neutron_local_services_p.Base.Equality.{Eq, ◌==◌, contains, if◌then◌else◌, nat_eq}
use neutron_local_services_p.Base.Lists.{count, Nodup, count-pos_iff}

pub record Order {ℓ} (A : Type ℓ) : Type ℓ where
  pub le : A → A → Bool
  pub le_total : (a b : A) → le a b ≡ false → le b a ≡ true
  pub le_trans : (a b c : A) → le a b ≡ true → le b c ≡ true → le a c ≡ true
  pub le_antisymm : (a b : A) → le a b ≡ true → le b a ≡ true → a ≡ b

module _ {ℓ} {A : Type ℓ} ⦃e : Eq A⦄ (o : Order A) where
  unfoldable pub insert : A → List A → List A
  insert a [] = a ∷ []
  insert a (x ∷ xs) = if o.le a x then a ∷ x ∷ xs else x ∷ insert a xs

  unfoldable pub sort : List A → List A
  unfolding insert
  sort [] = []
  sort (x ∷ xs) = insert x (sort xs)

  count-insert :
      (b a : A) (xs : List A) → count b (insert a xs) ≡ (if b == a then 1 else 0) + count b xs
  unfolding insert count
  count-insert b a [] = refl
  count-insert b a (x ∷ xs) = ground (arith, count-insert b a xs)

  pub count-sort : (b : A) (xs : List A) → count b (sort xs) ≡ count b xs
  unfolding sort count
  count-sort b [] = refl
  count-sort b (x ∷ xs) = omega (arith, count-insert b x (sort xs), count-sort b xs)

  pub contains-insert :
      (b a : A) (xs : List A) → contains (insert a xs) b ≡ (if b == a then true else contains xs b)
  unfolding insert
  contains-insert b a [] = ground arith
  contains-insert b a (x ∷ xs) = ground (arith, contains-insert b a xs)

  pub contains-sort : (b : A) (xs : List A) → contains (sort xs) b ≡ contains xs b
  unfolding sort
  contains-sort b [] = refl
  contains-sort b (x ∷ xs) = ground (arith, contains-insert b x (sort xs), contains-sort b xs)

  pub insert-Nodup : (a : A) (xs : List A) → contains xs a ≡ false → Nodup xs → Nodup (insert a xs)
  unfolding insert
  insert-Nodup a [] h d = (refl, tt)
  insert-Nodup a (x ∷ xs) h (f, d) = ground (arith, insert-Nodup a xs, contains-insert x a xs)

  pub sort-Nodup : (xs : List A) → Nodup xs → Nodup (sort xs)
  unfolding sort
  sort-Nodup [] d = tt
  sort-Nodup (x ∷ xs) (f, d) = insert-Nodup x (sort xs) (contains-sort x xs ∙ f) (sort-Nodup xs d)

  insert_comm : (a b : A) (xs : List A) → insert a (insert b xs) ≡ insert b (insert a xs)
  unfolding insert
  insert_comm a b [] = ground (arith, o.le_total a b, o.le_antisymm a b, o.le_total b a)
  insert_comm a b (x ∷ xs) = ground (
    arith,
    insert_comm a b xs,
    o.le_total a b,
    o.le_antisymm a b,
    o.le_total b a,
    o.le_trans a b x,
    o.le_trans b a x,
    o.le_total a x,
    o.le_total b x,
    o.le_trans a x b,
    o.le_trans b x a,
  )

  -- `xs` without the first `a`.
  remove_one : A → List A → List A
  remove_one a [] = []
  remove_one a (x ∷ xs) = if a == x then xs else x ∷ remove_one a xs

  count-remove_one :
      (b a : A) (xs : List A)
      → contains xs a ≡ true
      → count b xs ≡ (if b == a then 1 else 0) + count b (remove_one a xs)
  unfolding count remove_one
  count-remove_one b a [] h = cc
  count-remove_one b a (x ∷ xs) h = ground (arith, count-remove_one b a xs)

  sort-remove_one :
      (a : A) (xs : List A) → contains xs a ≡ true → sort xs ≡ insert a (sort (remove_one a xs))
  unfolding sort remove_one
  sort-remove_one a [] h = cc
  sort-remove_one a (x ∷ xs) h = elim (e.dec a x) [
    | yes p ↦ ground arith
    | no p ↦
        rw (sort-remove_one a xs (ground arith))
          (insert_comm x a (sort (remove_one a xs)) ∙ ground arith)
  ]

  count-nil : (ys : List A) → ((b : A) → count b ys ≡ 0) → ys ≡ []
  unfolding count
  count-nil [] h = refl
  count-nil (y ∷ ys) h = ground (arith, h y)

  contains_of_count : (a : A) (ys : List A) (n : ℕ) → n + 1 ≡ count a ys → contains ys a ≡ true
  contains_of_count a ys n h = ground (arith, count-pos_iff a ys)

  -- The counts decide the sorted list.
  pub sort-eq_of_count : (xs ys : List A) → ((b : A) → count b xs ≡ count b ys) → sort xs ≡ sort ys
  unfolding count sort insert
  sort-eq_of_count [] ys h = ap sort (sym (count-nil ys (λ b. sym (h b))))
  sort-eq_of_count (x ∷ xs) ys h =
      let here = contains_of_count x ys (count x xs) (ground (arith, h x)) in
      ap (insert x) (
        sort-eq_of_count xs (remove_one x ys)
          (λ b. ground (arith, h b, count-remove_one b x ys here)))
      ∙ sym (sort-remove_one x ys here)
