-- ===== src/Underlay/Allocator/Addresses.antt =====
-- The address pairs of different networks lie in different /30 blocks of the pool.
use Prim.Native.Nat.{◌*◌}
use neutron_local_services_p.Base.{
  ℕ, suc, ◌+◌, ◌-◌, ◌*◌, ◌/◌, ◌%◌, ◌^◌, ◌≤◌, ◌<◌, String, ◌≡◌, ◌≢◌, ◌∙◌, ap, true, some, [], ◌∷◌,
  nat_eq, string_eq, contains, All-contains, Nodup, arith,
}
use native.Mathlib.Nat.{pow-suc}
use neutron_local_services_p.Base.Dict
use neutron_local_services_p.Base.Dict.{Dict}
use neutron_local_services_p.Underlay.Allocator.{Allocator, get, pair_at}
use neutron_local_services_p.Underlay.Allocator.Invariant.{used, IsValid}

lookup-contains-values :
    (n : String) (i : ℕ) (d : Dict String ℕ)
    → Dict.lookup n d ≡ some i
    → contains (Dict.values d) i ≡ true
unfolding Dict.lookup
lookup-contains-values n i [] h = cc
lookup-contains-values n i ((k, j) ∷ d) h = ground (arith, lookup-contains-values n i d)

-- Where no index stands twice, an index determines its network.
lookup_injective :
    (n m : String) (i : ℕ) (d : Dict String ℕ)
    → Nodup (Dict.values d)
    → Dict.lookup n d ≡ some i
    → Dict.lookup m d ≡ some i
    → n ≡ m
unfolding Dict.lookup
lookup_injective n m i [] u h k = cc
lookup_injective n m i ((l, j) ∷ d) (f, u) h k =
    ground (
      arith,
      lookup_injective n m i d u,
      lookup-contains-values n i d,
      lookup-contains-values m i d,
    )

-- The pool is what `__init__` accepts, with one slot for each of its /30 blocks.
pub record IsPool (a : Allocator) : Type 0 where
  pub wide : a.pool.prefixlen ≤ 30
  pub slots : a.slots ≡ 2 ^ (30 - a.pool.prefixlen)

pool_size : (p : ℕ) → p ≤ 30 → 2 ^ (30 - p) * 4 ≡ 2 ^ (32 - p)
pool_size p h =
    let e : 32 - p ≡ suc (suc (30 - p)) = omega arith in rw (e, pow-suc, pow-suc) (omega arith)

-- The number of the aligned block of four addresses, counted from the pool's network address.
abbrev pub block_of : Allocator → ℕ → ℕ
block_of a address = (address - a.pool.network_address) / 4

-- The blocks of the pool are those below `2 ^ (32 - prefixlen) / 4`; both addresses of a network lie
-- in one block, neither is its first nor its last address, and they differ.
abbrev pub IsPair : Allocator → ℕ × ℕ → Type 0
IsPair a (x, y) =
    (a.pool.network_address ≤ x)
    × (y < a.pool.network_address + 2 ^ (32 - a.pool.prefixlen))
    × (block_of a x ≡ block_of a y)
    × ((x - a.pool.network_address) % 4 ≡ 1)
    × ((y - a.pool.network_address) % 4 ≡ 2)

pair_at-IsPair : (a : Allocator) (i : ℕ) → IsPool a → i < a.slots → IsPair a (pair_at a i)
pair_at-IsPair a i p below = (
  omega arith,
  omega (arith, pool_size a.pool.prefixlen p.wide, p.slots),
  omega arith,
  omega arith,
  omega arith,
)

-- With a pool that the constructor accepts, two networks with a /30 each: the addresses of each are
-- the second and the third of one block of four inside the pool, and the two blocks are different.
pub addresses_disjoint :
    (a : Allocator) (n m : String) (i j : ℕ)
    → IsValid a
    → IsPool a
    → n ≢ m
    → get n a ≡ some i
    → get m a ≡ some j
    → IsPair a (pair_at a i)
      × IsPair a (pair_at a j)
      × (block_of a (pair_at a i).0 ≢ block_of a (pair_at a j).0)
unfolding get
addresses_disjoint a n m i j v p d h k =
    let below : (m : String) (i : ℕ) → get m a ≡ some i → i < a.slots = λ m i h.
      All-contains (λ x. x < a.slots) (used a) i v.in_pool
        (lookup-contains-values m i a.allocations h) in
    (
      pair_at-IsPair a i p (below n i h),
      pair_at-IsPair a j p (below m j k),
      λ e. d (lookup_injective n m j a.allocations v.distinct (h ∙ ap some (same e)) k),
    )
  where
    same : block_of a (pair_at a i).0 ≡ block_of a (pair_at a j).0 → i ≡ j
    same e = omega arith
