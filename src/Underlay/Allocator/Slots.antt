-- ===== src/Underlay/Allocator/Slots.antt =====
-- The search for a free index, and the pigeonhole principle behind "the pool is full".
use neutron_local_services_p.Base.{
  ℕ, zero, suc, ◌+◌, ◌≤◌, ◌<◌, ◌≡◌, refl, true, false, not, none, some, List, [], ◌∷◌, ◌==◌, nat_eq,
  contains, contains-filter, filter, filter-Nodup, length, length-filter-le, All, Nodup, arith,
}
use neutron_local_services_p.Underlay.Allocator.{first_free}

-- What is found is free, in range, and the least such index.
pub first_free-some :
    (n i : ℕ) (used : List ℕ) (idx : ℕ)
    → first_free n i used ≡ some idx
    → (contains used idx ≡ false) × (i ≤ idx) × (idx < i + n)
unfolding first_free
first_free-some zero i used idx h = cc
first_free-some (suc n) i used idx h = ground (arith, first_free-some n (suc i) used idx)

pub first_free-least :
    (n i : ℕ) (used : List ℕ) (idx j : ℕ)
    → first_free n i used ≡ some idx
    → i ≤ j
    → j < idx
    → contains used j ≡ true
unfolding first_free
first_free-least zero i used idx j h l m = cc
first_free-least (suc n) i used idx j h l m = elim (ℕ-cases i j) [
  | yes p ↦ ground (arith, first_free-some n (suc i) used idx)
  | no p ↦ ground (arith, first_free-least n (suc i) used idx j)
]
  where
    ℕ-cases : (a b : ℕ) → Dec (a ≡ b)
    ℕ-cases = nat_eq.dec

pub first_free-none :
    (n i : ℕ) (used : List ℕ) (j : ℕ)
    → first_free n i used ≡ none
    → i ≤ j
    → j < i + n
    → contains used j ≡ true
unfolding first_free
first_free-none zero i used j h l m = absurd (omega arith)
first_free-none (suc n) i used j h l m = elim (nat_eq.dec i j) [
  | yes p ↦ ground arith
  | no p ↦ ground (arith, first_free-none n (suc i) used j)
]

abbrev without : ℕ → List ℕ → List ℕ
without n = filter (λ x. not (x == n))

length-without : (n : ℕ) (xs : List ℕ) → contains xs n ≡ true → length (without n xs) < length xs
unfolding filter
length-without n [] h = cc
length-without n (x ∷ xs) h = elim (nat_eq.dec x n) [
  | yes p ↦ ground (arith, length-filter-le (λ (y : ℕ). not (y == n)) xs)
  | no p ↦ ground (arith, length-without n xs)
]

-- A list that holds every index below `n` has at least `n` elements.
pub pigeonhole : (n : ℕ) (xs : List ℕ) → ((i : ℕ) → i < n → contains xs i ≡ true) → n ≤ length xs
pigeonhole zero xs h = omega arith
pigeonhole (suc n) xs h = omega (
  arith,
  length-without n xs (h n (omega arith)),
  pigeonhole n (without n xs) (λ i l. rw (contains-filter, h i (omega arith)) (ground arith)),
)

without_absent : (n : ℕ) (xs : List ℕ) → contains xs n ≡ false → without n xs ≡ xs
unfolding filter
without_absent n [] h = refl
without_absent n (x ∷ xs) h = ground (arith, without_absent n xs)

length-without-Nodup : (n : ℕ) (xs : List ℕ) → Nodup xs → length xs ≤ length (without n xs) + 1
unfolding filter
length-without-Nodup n [] d = omega arith
length-without-Nodup n (x ∷ xs) (f, d) = elim (nat_eq.dec x n) [
  | yes p ↦ ground (arith, without_absent n xs)
  | no p ↦ ground (arith, length-without-Nodup n xs d)
]

without_below : (n : ℕ) (xs : List ℕ) → All (λ i. i < suc n) xs → All (λ i. i < n) (without n xs)
unfolding filter
without_below n [] h = tt
without_below n (x ∷ xs) (h, hs) = elim (nat_eq.dec x n) [
  | yes p ↦ let e : without n (x ∷ xs) ≡ without n xs = ground arith in rw e (without_below n xs hs)
  | no p ↦
      let e : without n (x ∷ xs) ≡ x ∷ without n xs = ground arith in
      rw e (omega arith, without_below n xs hs)
]

-- A list of different indices below `n` has at most `n` elements.
pub capacity : (n : ℕ) (xs : List ℕ) → Nodup xs → All (λ i. i < n) xs → length xs ≤ n
capacity zero [] d h = omega arith
capacity zero (x ∷ xs) d h = absurd (omega (arith, h.0))
capacity (suc n) xs d h = omega (
  arith,
  length-without-Nodup n xs d,
  capacity n (without n xs) (filter-Nodup (λ x. not (x == n)) xs d) (without_below n xs h),
)
