-- ===== src/Proxy/Catalog.antt =====
-- The catalog file, which is the union of the slices of all networks, with a generation that the
-- worker compares: it ignores a file whose generation is not newer.
pub mod Serial
pub mod Interleaved
use neutron_local_services_p.Base.{
  ℕ, suc, ◌+◌, String, Option, none, some, List, [], ◌∷◌, ◌++◌, string_eq,
}
use neutron_local_services_p.Base.Dict
use neutron_local_services_p.Base.Dict.{Dict}
use neutron_local_services_p.Proxy.{Entry}

-- The signed payload. A file that is missing or cannot be read is `none`.
pub record File : Type 0 where
  pub generation : ℕ
  pub entries : List Entry

-- `_NETWORK_SLICES`, `_GENERATION` and the file.
pub record State : Type 0 where
  pub slices : Dict String (List Entry)
  pub generation : Option ℕ
  pub file : Option File

unfoldable pub set_slice : String → List Entry → State → State
set_slice network_id [] s = record s { slices = Dict.erase network_id s.slices }
set_slice network_id (e ∷ entries) s = record s {
  slices = Dict.insert network_id (e ∷ entries) s.slices;
}

unfoldable pub all_entries : Dict String (List Entry) → List Entry
all_entries [] = []
all_entries ((network_id, entries) ∷ slices) = entries ++ all_entries slices

unfoldable pub seed_generation : Option File → ℕ
seed_generation none = 0
seed_generation (some f) = f.generation

-- The counter, which the first use seeds from the file.
unfoldable pub current : State → ℕ
unfolding seed_generation
current s = elim s.generation [ none ↦ seed_generation s.file | some g ↦ g ]

unfoldable pub next_generation : State → ℕ × State
unfolding current
next_generation s = (current s + 1, record s { generation = some (current s + 1) })

unfoldable pub write_file : ℕ → List Entry → State → State
write_file g entries s = record s { file = some (record { generation = g; entries = entries }) }

unfoldable pub write_catalog : List Entry → State → State
unfolding next_generation write_file
write_catalog entries s = let (g, s') = next_generation s in write_file g entries s'

-- What a pass over one network does to the catalog; a teardown is one with no entries.
unfoldable pub publish : String → List Entry → State → State
unfolding set_slice write_catalog all_entries
publish network_id entries s =
    let s' = set_slice network_id entries s in write_catalog (all_entries s'.slices) s'
