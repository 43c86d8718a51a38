-- ===== src/Underlay/Allocator/Restart.antt =====
-- What an agent that starts again reads from the file.
use neutron_local_services_p.Base.{
  ℕ, ◌-◌, ◌^◌, ◌<◌, ◌≤◌, String, ◌≡◌, refl, true, false, none, some, [], ◌∷◌, nat_eq, string_eq,
  ltb, filter, arith, All, Nodup, contains, ◌↔◌,
}
use neutron_local_services_p.Base.Dict
use neutron_local_services_p.Base.Dict.{Dict}
use neutron_local_services_p.Underlay.Allocator.{
  Pool, object, ok, Allocator, valid_index, clean, load, as_json, save, init, get,
}
use neutron_local_services_p.Underlay.Allocator.Invariant.{IsValid}

clean-as_json :
    (slots : ℕ) (d : Dict String ℕ) → clean slots (as_json d) ≡ filter (λ (k, i). ltb i slots) d
unfolding clean as_json valid_index filter
clean-as_json slots [] = refl
clean-as_json slots ((k, i) ∷ d) = ground (arith, clean-as_json slots d)

abbrev inside : ℕ → Dict String ℕ → Dict String ℕ
inside slots = filter (λ (k, i). ltb i slots)

keys-inside :
    (slots : ℕ) (n : String) (d : Dict String ℕ)
    → contains (Dict.keys d) n ≡ false
    → contains (Dict.keys (inside slots d)) n ≡ false
unfolding filter
keys-inside slots n [] h = refl
keys-inside slots n ((k, i) ∷ d) h = ground (arith, keys-inside slots n d)

values-inside :
    (slots j : ℕ) (d : Dict String ℕ)
    → contains (Dict.values d) j ≡ false
    → contains (Dict.values (inside slots d)) j ≡ false
unfolding filter
values-inside slots j [] h = refl
values-inside slots j ((k, i) ∷ d) h = ground (arith, values-inside slots j d)

keys-inside-Nodup :
    (slots : ℕ) (d : Dict String ℕ) → Nodup (Dict.keys d) → Nodup (Dict.keys (inside slots d))
unfolding filter
keys-inside-Nodup slots [] h = tt
keys-inside-Nodup slots ((k, i) ∷ d) (f, h) =
    ground (arith, keys-inside-Nodup slots d h, keys-inside slots k d f)

values-inside-Nodup :
    (slots : ℕ) (d : Dict String ℕ) → Nodup (Dict.values d) → Nodup (Dict.values (inside slots d))
unfolding filter
values-inside-Nodup slots [] h = tt
values-inside-Nodup slots ((k, i) ∷ d) (f, h) =
    ground (arith, values-inside-Nodup slots d h, values-inside slots i d f)

values-inside_below :
    (slots : ℕ) (d : Dict String ℕ) → All (λ i. i < slots) (Dict.values (inside slots d))
unfolding filter
values-inside_below slots [] = tt
values-inside_below slots ((k, i) ∷ d) = ground (arith, values-inside_below slots d)

lookup-keys :
    (n : String) (d : Dict String ℕ) → contains (Dict.keys d) n ≡ false → Dict.lookup n d ≡ none
unfolding Dict.lookup
lookup-keys n [] h = refl
lookup-keys n ((k, i) ∷ d) h = ground (arith, lookup-keys n d)

lookup-inside :
    (slots : ℕ) (n : String) (i : ℕ) (d : Dict String ℕ)
    → Nodup (Dict.keys d)
    → (Dict.lookup n (inside slots d) ≡ some i) ↔ ((Dict.lookup n d ≡ some i) × (i < slots))
unfolding Dict.lookup filter
lookup-inside slots n i [] h = ground arith
lookup-inside slots n i ((k, j) ∷ d) (f, h) =
    ground
      (arith, lookup-inside slots n i d h, lookup-keys n (inside slots d), keys-inside slots n d)

-- An agent that starts over the file of a valid allocator, with any IPv4 pool of /30 or wider,
-- comes up with a valid allocator: a network has an index exactly if it had this index and the
-- index is inside the pool of now. With an unchanged or a wider pool, all networks keep theirs.
pub restart :
    (pool : Pool) (a : Allocator)
    → IsValid a
    → pool.version ≡ 4
    → pool.prefixlen ≤ 30
    → (b : Allocator) × (init pool (save {0} true tt a).1.file ≡ ok b)
      × (b.slots ≡ 2 ^ (30 - pool.prefixlen))
      × IsValid b
      × ((n : String) (i : ℕ) → (get n b ≡ some i) ↔ ((get n a ≡ some i) × (i < b.slots)))
unfolding init save load get
restart pool a v e p =
    let slots : ℕ = 2 ^ (30 - pool.prefixlen) in
    let b : Allocator = record {
      pool = pool;
      slots = slots;
      allocations = inside slots a.allocations;
      file = object (as_json a.allocations);
    } in
    (
      b,
      ground (arith, clean-as_json slots a.allocations),
      refl,
      record {
        networks = keys-inside-Nodup slots a.allocations v.networks;
        distinct = values-inside-Nodup slots a.allocations v.distinct;
        in_pool = values-inside_below slots a.allocations;
      },
      λ n i. lookup-inside slots n i a.allocations v.networks,
    )
