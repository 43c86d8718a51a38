-- ===== src/Tests/Agent.antt =====
-- The allocator at concrete data.
use neutron_local_services_p.Base.{
  ℕ, ◌-◌, ◌^◌, ◌<◌, String, ◌≡◌, ◌≢◌, refl, subst, Bool, true, false, ◌↔◌, some, List, [], ◌∷◌,
  ◌==◌, string_eq, nat_eq, arith,
}
use neutron_local_services_p.Base.Dict
use neutron_local_services_p.Underlay.Allocator.{
  Allocator, Pool, absent, ok, get, init, pair_at, save,
}
use neutron_local_services_p.Underlay.Allocator.Invariant.{IsValid}
use neutron_local_services_p.Underlay.Allocator.Runs.{Call, allocating, freeing, run, run-IsValid}
use neutron_local_services_p.Underlay.Allocator.Addresses.{IsPair, block_of, addresses_disjoint}
use neutron_local_services_p.Underlay.Allocator.Restart.{restart}

-- A /29: two slots, one of them taken.
abbrev small : Pool
small = record { version = 4; network_address = 1000; prefixlen = 29 }

abbrev one_taken : Allocator
one_taken = record { pool = small; slots = 2; allocations = ("net-a", 1) ∷ []; file = absent }

abbrev both_taken : Allocator
both_taken = record one_taken { allocations = ("net-a", 1) ∷ ("net-b", 0) ∷ [] }

one_taken-IsValid : IsValid one_taken
one_taken-IsValid = record {
  networks = (refl, tt);
  distinct = (refl, tt);
  in_pool = (omega arith, tt);
}

both_taken-IsValid : IsValid both_taken
unfolding string_eq nat_eq
both_taken-IsValid = record {
  networks = (refl, (refl, tt));
  distinct = (refl, (refl, tt));
  in_pool = (omega arith, (omega arith, tt));
}

abbrev calls : List Call
calls =
    allocating true "net-b"
    ∷ allocating true "net-c"
    ∷ freeing false "net-a"
    ∷ allocating true "net-c"
    ∷ []

run-IsValid_example : IsValid (run calls one_taken)
run-IsValid_example = run-IsValid calls one_taken one_taken-IsValid

abbrev IsTrue : Bool → Type 0
IsTrue true = Unit
IsTrue false = ⊥

abbrev net_a : String
net_a = "net-a"

abbrev net_b : String
net_b = "net-b"

names_differ : net_a ≢ net_b
unfolding string_eq
names_differ e = subst (λ (s : String). IsTrue (s == net_a)) e tt

addresses_disjoint_example :
    IsPair both_taken (pair_at both_taken 1)
    × IsPair both_taken (pair_at both_taken 0)
    × (block_of both_taken (pair_at both_taken 1).0 ≢ block_of both_taken (pair_at both_taken 0).0)
unfolding get Dict.lookup string_eq
addresses_disjoint_example =
    addresses_disjoint both_taken "net-a" "net-b" 1 0 both_taken-IsValid
      (record { wide = omega arith; slots = refl }) names_differ refl refl

-- The pool shrinks to one slot.
abbrev tiny : Pool
tiny = record { version = 4; network_address = 1000; prefixlen = 30 }

restart_example :
    (b : Allocator) × (init tiny (save {0} true tt both_taken).1.file ≡ ok b)
    × (b.slots ≡ 2 ^ (30 - tiny.prefixlen))
    × IsValid b
    × ((n : String) (i : ℕ) → (get n b ≡ some i) ↔ ((get n both_taken ≡ some i) × (i < b.slots)))
restart_example = restart tiny both_taken both_taken-IsValid refl (omega arith)
