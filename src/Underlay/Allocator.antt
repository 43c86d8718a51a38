-- ===== src/Underlay/Allocator.antt =====
-- `UnderlayAllocator`: a /30 of the pool for each network, first fit, kept in a file.
pub mod Slots
pub mod Invariant
pub mod Full
pub mod Runs
pub mod Addresses
pub mod Restart
use neutron_local_services_p.Base.{
  ℕ, zero, suc, ◌+◌, ◌-◌, ◌*◌, ◌^◌, String, Bool, true, false, ◌&&◌, Option, none, some, List, [],
  ◌∷◌, ◌==◌, nat_eq, string_eq, if◌then◌else◌, contains, ltb,
}
use neutron_local_services_p.Base.Dict
use neutron_local_services_p.Base.Dict.{Dict}

-- What `ipaddress.ip_network(pool_cidr, strict=True)` gives.
pub record Pool : Type 0 where
  pub version : ℕ
  pub network_address : ℕ
  pub prefixlen : ℕ

-- A value of the JSON object in the state file. Python counts a Boolean as an integer.
pub data Json : Type 0 where
  number : ℕ → Json
  negative : ℕ → Json
  boolean : Bool → Json
  other : Json

-- The state file: absent, not readable or not JSON, JSON that is no object, or an object.
pub data File : Type 0 where
  absent broken no_object : File
  object : Dict String Json → File

pub data Failure : Type 0 where
  -- `ValueError`, `AttributeError` (from `data.items()`), `UnderlayPoolExhausted`, `OSError`
  value_error attribute_error pool_exhausted os_error : Failure

pub data Result {ℓ} (A : Type ℓ) : Type ℓ where
  ok : A → Result A
  raise : Failure → Result A

pub record Allocator : Type 0 where
  pub pool : Pool
  pub slots : ℕ
  pub allocations : Dict String ℕ
  pub file : File

-- `isinstance(idx, int) and 0 <= idx < self._slots`, as the index it is.
unfoldable pub valid_index : ℕ → Json → Option ℕ
valid_index slots (number i) = if ltb i slots then some i else none
valid_index slots (negative i) = none
valid_index slots (boolean true) = if ltb 1 slots then some 1 else none
valid_index slots (boolean false) = if ltb 0 slots then some 0 else none
valid_index slots other = none

unfoldable pub clean : ℕ → Dict String Json → Dict String ℕ
unfolding valid_index
clean slots [] = []
clean slots ((net_id, idx) ∷ items) =
    let rest = clean slots items in
    elim (valid_index slots idx) [ none ↦ rest | some i ↦ (net_id, i) ∷ rest ]

-- `_load`
unfoldable pub load : ℕ → File → Result (Dict String ℕ)
unfolding clean
load slots absent = ok []
load slots broken = ok []
load slots no_object = raise attribute_error
load slots (object items) = ok (clean slots items)

-- `__init__`, over the parsed pool and what the file holds.
unfoldable pub init : Pool → File → Result Allocator
unfolding load
init pool file =
    if pool.version == 4
    then (if ltb 30 pool.prefixlen
        then raise value_error
        else let slots = 2 ^ (30 - pool.prefixlen) in
          elim (load slots file) [
            | raise e ↦ raise e
            | ok allocations ↦
                ok (record { pool = pool; slots = slots; allocations = allocations; file = file })
          ])
    else raise value_error

-- What `json.dump` writes; the order of the keys is not modelled.
unfoldable pub as_json : Dict String ℕ → Dict String Json
as_json [] = []
as_json ((k, i) ∷ d) = (k, number i) ∷ as_json d

-- `_save` after a change in memory: the file follows if it can be written, and `OSError` leaves
-- the change in memory.
unfoldable pub save {ℓ} : {A : Type ℓ} → Bool → A → Allocator → Result A × Allocator
unfolding as_json
save true x a = (ok x, record a { file = object (as_json a.allocations) })
save false x a = (raise os_error, a)

-- `for idx in range(slots): if idx not in used`, with `n` indices left from `i` on.
unfoldable pub first_free : ℕ → ℕ → List ℕ → Option ℕ
first_free zero i used = none
first_free (suc n) i used =
    let rest = first_free n (suc i) used in if contains used i then rest else some i

-- The argument `writable` says whether the file can be written.
unfoldable pub allocate : Bool → String → Allocator → Result ℕ × Allocator
unfolding first_free save
allocate writable network_id a = elim (Dict.lookup network_id a.allocations) [
  | some idx ↦ (ok idx, a)
  | none ↦ elim (first_free a.slots 0 (Dict.values a.allocations)) [
    | none ↦ (raise pool_exhausted, a)
    | some idx ↦
        save writable idx (record a { allocations = Dict.insert network_id idx a.allocations })
  ]
]

unfoldable pub free : Bool → String → Allocator → Result (Unit {0}) × Allocator
unfolding save
free writable network_id a =
    if contains (Dict.keys a.allocations) network_id
    then save writable tt (record a { allocations = Dict.erase network_id a.allocations })
    else (ok tt, a)

unfoldable pub get : String → Allocator → Option ℕ
get network_id a = Dict.lookup network_id a.allocations

-- The host's and the namespace's end of the /30 with index `idx`.
abbrev pub pair_at : Allocator → ℕ → ℕ × ℕ
pair_at a idx = (a.pool.network_address + idx * 4 + 1, a.pool.network_address + idx * 4 + 2)

abbrev pub paired : Allocator → Result ℕ → Result (ℕ × ℕ)
paired a (ok idx) = ok (pair_at a idx)
paired a (raise e) = raise e

-- `addresses`, as the integers of the two addresses.
unfoldable pub addresses : Bool → String → Allocator → Result (ℕ × ℕ) × Allocator
unfolding allocate
addresses writable network_id a =
    let (idx, a') = allocate writable network_id a in (paired a idx, a')
