-- ===== src/Proxy/Catalog/Serial.antt =====
-- Passes that run one after another.
use neutron_local_services_p.Base.{
  String, none, some, List, [], ◌∷◌, ◌==◌, string_eq, if◌then◌else◌,
}
use neutron_local_services_p.Base.Dict
use neutron_local_services_p.Base.Dict.{Dict}
use neutron_local_services_p.Proxy.{Entry}
use neutron_local_services_p.Proxy.Catalog.{State, publish}

unfoldable pub publish_all : List (String × List Entry) → State → State
unfolding publish
publish_all [] s = s
publish_all ((network_id, entries) ∷ passes) s = publish_all passes (publish network_id entries s)

abbrev pub slice : String → State → List Entry
slice network_id s = elim (Dict.lookup network_id s.slices) [ none ↦ [] | some entries ↦ entries ]

-- The entries of the last pass over a network, or those that it had.
abbrev pub latest : String → List Entry → List (String × List Entry) → List Entry
latest network_id old [] = old
latest network_id old ((k, entries) ∷ passes) =
    latest network_id (if network_id == k then entries else old) passes

-- What the slices of a dict hold, one after another.
abbrev pub union : Dict String (List Entry) → List Entry
union [] = []
union ((network_id, []) ∷ slices) = union slices
union ((network_id, e ∷ entries) ∷ slices) = e ∷ union ((network_id, entries) ∷ slices)
