-- ===== src/Db/Tables.antt =====
-- The tables, the queries, and the constraints that db/models.py declares.
use neutron_local_services_p.Base.{
  ℕ, String, Bool, true, false, ◌&&◌, Option, none, some, List, ◌==◌, Eq, nat_eq, string_eq,
  option_eq, contains, filter, leb,
}
use neutron_local_services_p.Db.Rows.{by_key}
use neutron_local_services_p.Records.{Service, Backend, Binding}

pub record Tables : Type 0 where
  pub services : List Service
  pub backends : List Backend
  pub bindings : List Binding

-- Whose rows a request may list. `query_with_hooks` scopes a query on a table with a `project_id`
-- to what the request's project may see, and an admin request to nothing.
pub record Context : Type 0 where
  pub sees : Option String → Bool

abbrev pub admin : Context
admin = record { sees = λ _. true }

-- A column against the values that a filter allows. Without the filter every row passes.
abbrev pub passes {ℓ} : {A : Type ℓ} ⦃e : Eq A⦄ → Option (List A) → A → Bool
passes none a = true
passes (some allowed) a = contains allowed a

bool_dec : Discrete Bool
bool_dec = hlevel

instance unfoldable pub bool_eq : Eq Bool
unfolding bool_dec
bool_eq = record { dec = bool_dec }

pub record ServiceFilter : Type 0 where
  pub attachment_policy : Option (List (Option String))
  pub enabled : Option (List (Option Bool))

pub record BindingFilter : Type 0 where
  pub network_id : Option (List String)
  pub service_id : Option (List String)
  pub enabled : Option (List (Option Bool))

pub record BackendFilter : Type 0 where
  pub service_id : Option (List String)
  pub enabled : Option (List (Option Bool))

unfoldable pub get_service : Tables → String → Option Service
unfolding by_key
get_service t id = by_key (λ r. r.id) id t.services

unfoldable pub get_backend : Tables → String → Option Backend
unfolding by_key
get_backend t id = by_key (λ r. r.id) id t.backends

unfoldable pub get_binding : Tables → String → Option Binding
unfolding by_key
get_binding t id = by_key (λ r. r.id) id t.bindings

unfoldable pub service_passes : Context → ServiceFilter → Service → Bool
service_passes c f s =
    c.sees s.project_id
    && (passes f.attachment_policy s.attachment_policy && passes f.enabled s.enabled)

-- `get_local_services`
unfoldable pub get_local_services : Tables → Context → ServiceFilter → List Service
unfolding service_passes
get_local_services t c f = filter (service_passes c f) t.services

unfoldable pub binding_passes : Context → BindingFilter → Binding → Bool
binding_passes c f b =
    c.sees b.project_id
    && (passes f.network_id b.network_id
        && (passes f.service_id b.service_id && passes f.enabled b.enabled))

-- `get_local_service_bindings`
unfoldable pub get_local_service_bindings : Tables → Context → BindingFilter → List Binding
unfolding binding_passes
get_local_service_bindings t c f = filter (binding_passes c f) t.bindings

unfoldable pub backend_passes : BackendFilter → Backend → Bool
backend_passes f b = passes f.service_id b.service_id && passes f.enabled b.enabled

-- `get_local_service_backends`. This table has no `project_id`, so no context scopes it.
unfoldable pub get_local_service_backends : Tables → BackendFilter → List Backend
unfolding backend_passes
get_local_service_backends t f = filter (backend_passes f) t.backends

-- `port > 0 AND port <= 65535`; a null passes a check constraint and fails `nullable=False`.
unfoldable pub port_in_range : Option ℕ → Bool
port_in_range none = false
port_in_range (some p) = leb 1 p && leb p 65535

-- `uniq_local_services_project_name`: nulls are never equal to one another.
unfoldable pub same_project_name : Service → Service → Bool
same_project_name a b = elim a.project_id [
  | none ↦ false
  | some p ↦ b.project_id == some p && a.name == b.name
]

-- `uniq_local_service_backends_svc_name`
unfoldable pub same_service_name : Backend → Backend → Bool
same_service_name a b = a.service_id == b.service_id && a.name == b.name

-- `uniq_local_service_bindings_svc_net`
unfoldable pub same_service_network : Binding → Binding → Bool
same_service_network a b = a.service_id == b.service_id && a.network_id == b.network_id
