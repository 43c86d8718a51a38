-- ===== src/HostRoutes/Effective.antt =====
-- `_enabled_services_for_network`: the services that are attached to a network.
pub mod Members
use neutron_local_services_p.Base.{
  String, Bool, true, not, ◌&&◌, ◌||◌, Option, none, some, List, [], ◌∷◌, ◌++◌, string_eq,
  if◌then◌else◌, contains, default_true,
}
use neutron_local_services_p.Base.Sets.{SetOrder}
use neutron_local_services_p.Constants.{attach_opt_out}
use neutron_local_services_p.Records.{Service, Binding}
use neutron_local_services_p.Errors.{Result, ok, err}
use neutron_local_services_p.Db.Tables.{
  Tables, Context, get_local_services, get_local_service_bindings,
}
use neutron_local_services_p.Db.Services.{get_local_service}

-- `{b['service_id'] for b in bindings if b.get('enabled', True)}`
unfoldable pub enabled_ids : List Binding → List String
enabled_ids [] = []
enabled_ids (b ∷ bindings) =
    let rest = enabled_ids bindings in if default_true b.enabled then b.service_id ∷ rest else rest

unfoldable pub excluded_ids : List Binding → List String
excluded_ids [] = []
excluded_ids (b ∷ bindings) =
    let rest = excluded_ids bindings in
    if not (default_true b.enabled) then b.service_id ∷ rest else rest

-- The two variables of the loops.
pub record Attached : Type 0 where
  pub services : List Service
  pub seen : List String

abbrev pub attach : String → Service → Attached → Attached
attach sid svc a = record { services = a.services ++ svc ∷ []; seen = sid ∷ a.seen }

-- One round of the first loop; a service that cannot be fetched is skipped.
unfoldable pub attach_explicit : Tables → Attached → String → Attached
attach_explicit t a sid = elim (get_local_service sid t) [
  | err _ ↦ a
  | ok svc ↦ if default_true svc.enabled && not (contains a.seen sid) then attach sid svc a else a
]

unfoldable pub explicit_loop : Tables → Attached → List String → Attached
unfolding attach_explicit
explicit_loop t a [] = a
explicit_loop t a (sid ∷ sids) = explicit_loop t (attach_explicit t a sid) sids

-- One round of the second loop.
unfoldable pub attach_implicit : List String → Attached → Service → Attached
attach_implicit excluded a svc =
    if contains excluded svc.id || contains a.seen svc.id then a else attach svc.id svc a

unfoldable pub implicit_loop : List String → Attached → List Service → Attached
unfolding attach_implicit
implicit_loop excluded a [] = a
implicit_loop excluded a (svc ∷ services) =
    implicit_loop excluded (attach_implicit excluded a svc) services

abbrev pub network_bindings : Tables → Context → String → List Binding
network_bindings t c network_id =
    get_local_service_bindings t c
      (record { network_id = some (network_id ∷ []); service_id = none; enabled = none })

abbrev pub opt_out_services : Tables → Context → List Service
opt_out_services t c = get_local_services t c (record {
  attachment_policy = some (some attach_opt_out ∷ []);
  enabled = some (some true ∷ []);
})

abbrev pub nothing_attached : Attached
nothing_attached = record { services = []; seen = [] }

-- `order` visits the set of explicitly bound services.
unfoldable pub enabled_services_for_network :
    SetOrder String → Tables → Context → String → List Service
unfolding enabled_ids excluded_ids explicit_loop implicit_loop
enabled_services_for_network order t c network_id =
    let bindings = network_bindings t c network_id in
    let a = explicit_loop t nothing_attached (order.visit (enabled_ids bindings)) in
    (implicit_loop (excluded_ids bindings) a (opt_out_services t c)).services
