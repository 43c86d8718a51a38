-- ===== src/Db/Bindings.antt =====
-- The methods on the bindings of a service to a network.
use neutron_local_services_p.Base.{
  String, Bool, true, Option, none, some, List, [], ◌∷◌, ◌++◌, string_eq, if◌then◌else◌, any,
}
use neutron_local_services_p.Records.{Binding}
use neutron_local_services_p.Errors.{
  Result, ok, err, duplicate_entry, object_not_found, ◌>>=◌, ◌>>◌, or_raise,
}
use neutron_local_services_p.Db.Rows.{replace, remove}
use neutron_local_services_p.Db.Tables.{Tables, get_service, get_binding, same_service_network}
use neutron_local_services_p.Db.Services.{get_or}

pub record BindingBody : Type 0 where
  pub project_id : Option String
  pub service_id : String
  pub network_id : String
  pub enabled : Option Bool

unfoldable pub new_binding : String → BindingBody → Binding
new_binding uuid body = record {
  id = uuid;
  project_id = body.project_id;
  service_id = body.service_id;
  network_id = body.network_id;
  enabled = some (get_or body.enabled true);
}

unfoldable pub check_binding : List Binding → Binding → Result (Unit {0})
check_binding others b = if any (same_service_network b) others then err duplicate_entry else ok tt

unfoldable pub create_local_service_binding :
    String → BindingBody → Tables → Result (Binding × Tables)
unfolding new_binding check_binding
create_local_service_binding uuid body t = do
  _ ← or_raise (get_service t body.service_id) (object_not_found body.service_id)
  let b = new_binding uuid body
  check_binding t.bindings b
  ok (b, record t { bindings = t.bindings ++ b ∷ [] })

-- The body holds `enabled` or nothing that the method reads.
unfoldable pub update_local_service_binding :
    String → Option Bool → Tables → Result (Binding × Tables)
update_local_service_binding id enabled t = do
  old ← or_raise (get_binding t id) (object_not_found id)
  let b = record old { enabled = elim enabled [ none ↦ old.enabled | some v ↦ some v ] }
  ok (b, record t { bindings = replace (λ r. r.id) b t.bindings })

unfoldable pub delete_local_service_binding : String → Tables → Result Tables
delete_local_service_binding id t = do
  _ ← or_raise (get_binding t id) (object_not_found id)
  ok (record t { bindings = remove (λ r. r.id) id t.bindings })

unfoldable pub get_local_service_binding : String → Tables → Result Binding
get_local_service_binding id t = or_raise (get_binding t id) (object_not_found id)
