-- ===== src/Cli/Format.antt =====
-- cli/_format.py: columns and values.
use neutron_local_services_p.Base.{String, none, some, List, [], ◌∷◌, string_eq}
use neutron_local_services_p.Base.Dict
use neutron_local_services_p.Cli.{Value, null, text, nested, number, flag, Obj}

abbrev pub service_columns : List String
service_columns =
    "id" ∷ "name" ∷ "description" ∷ "project_id" ∷ "local_ipv4" ∷ "local_ipv6" ∷ "protocol" ∷ "port"
    ∷ "attachment_policy" ∷ "distribution_policy" ∷ "exposure_plugin" ∷ "health_check_type"
    ∷ "health_check_config" ∷ "enabled" ∷ []

abbrev pub backend_columns : List String
backend_columns =
    "id" ∷ "service_id" ∷ "name" ∷ "availability_zone" ∷ "weight" ∷ "address" ∷ "port"
    ∷ "health_check_address" ∷ "health_check_port" ∷ "enabled" ∷ []

abbrev pub binding_columns : List String
binding_columns = "id" ∷ "project_id" ∷ "service_id" ∷ "network_id" ∷ "enabled" ∷ []

-- `_fmt`
abbrev pub fmt : Value → Value
fmt (nested t) = text t
fmt null = null
fmt (text t) = text t
fmt (number n) = number n
fmt (flag b) = flag b

-- `obj.get(c)`
abbrev pub cell : Obj → String → Value
cell obj c = elim (Dict.lookup c obj) [ none ↦ null | some v ↦ fmt v ]

-- `_row`
unfoldable pub row : List String → Obj → List Value
row [] obj = []
row (c ∷ columns) obj = cell obj c ∷ row columns obj

unfoldable pub rows : List String → List Obj → List (List Value)
unfolding row
rows columns [] = []
rows columns (o ∷ objs) = row columns o ∷ rows columns objs

-- `service_show`, `backend_show` and `binding_show`, each with its columns.
unfoldable pub shown : List String → Obj → List String × List Value
unfolding row
shown columns obj = (columns, row columns obj)

-- `service_list`, `backend_list` and `binding_list`.
unfoldable pub listed : List String → List Obj → List String × List (List Value)
unfolding rows
listed columns objs = (columns, rows columns objs)
