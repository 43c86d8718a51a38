-- ===== src/Db/Backends.antt =====
-- The methods on the backends of a service.
use neutron_local_services_p.Base.{
  ℕ, String, Bool, true, Option, none, some, List, [], ◌∷◌, ◌++◌, string_eq, if◌then◌else◌, any,
}
use neutron_local_services_p.Records.{Backend}
use neutron_local_services_p.Errors.{
  Result, ok, err, duplicate_entry, check_violation, object_not_found, ◌>>=◌, ◌>>◌, or_raise,
}
use neutron_local_services_p.Db.Rows.{replace, remove}
use neutron_local_services_p.Db.Tables.{
  Tables, get_service, get_backend, same_service_name, port_in_range,
}
use neutron_local_services_p.Db.Services.{get_or}

-- `weight` as the API layer passes it: the sentinel `ATTR_NOT_SPECIFIED`, null, or a number.
pub data Weight : Type 0 where
  not_specified : Weight
  given : Option ℕ → Weight

pub record BackendBody : Type 0 where
  pub service_id : String
  pub name : String
  pub availability_zone : Option String
  pub weight : Weight
  pub address : String
  pub port : ℕ
  pub health_check_address : Option String
  pub health_check_port : Option ℕ
  pub enabled : Option Bool

pub record BackendPatch : Type 0 where
  pub name : Option String
  pub availability_zone : Option (Option String)
  pub weight : Option (Option ℕ)
  pub address : Option String
  pub port : Option ℕ
  pub health_check_address : Option (Option String)
  pub health_check_port : Option (Option ℕ)
  pub enabled : Option Bool

abbrev stored_weight : Weight → Option ℕ
stored_weight not_specified = none
stored_weight (given w) = w

abbrev patched {ℓ} : {A : Type ℓ} → Option A → Option A → Option A
patched none old = old
patched (some a) old = some a

unfoldable pub new_backend : String → BackendBody → Backend
new_backend uuid body = record {
  id = uuid;
  service_id = body.service_id;
  name = body.name;
  availability_zone = body.availability_zone;
  weight = stored_weight body.weight;
  address = some body.address;
  port = some body.port;
  health_check_address = body.health_check_address;
  health_check_port = body.health_check_port;
  enabled = some (get_or body.enabled true);
}

unfoldable pub apply_patch : BackendPatch → Backend → Backend
apply_patch p b = record b {
  name = get_or p.name b.name;
  availability_zone = get_or p.availability_zone b.availability_zone;
  weight = get_or p.weight b.weight;
  address = patched p.address b.address;
  port = patched p.port b.port;
  health_check_address = get_or p.health_check_address b.health_check_address;
  health_check_port = get_or p.health_check_port b.health_check_port;
  enabled = patched p.enabled b.enabled;
}

unfoldable pub check_backend : List Backend → Backend → Result (Unit {0})
check_backend others b =
    if any (same_service_name b) others
    then err duplicate_entry
    else if port_in_range b.port
    then ok tt
    else err check_violation

unfoldable pub create_local_service_backend :
    String → BackendBody → Tables → Result (Backend × Tables)
unfolding new_backend check_backend
create_local_service_backend uuid body t = do
  _ ← or_raise (get_service t body.service_id) (object_not_found body.service_id)
  let b = new_backend uuid body
  check_backend t.backends b
  ok (b, record t { backends = t.backends ++ b ∷ [] })

unfoldable pub update_local_service_backend :
    String → BackendPatch → Tables → Result (Backend × Tables)
unfolding apply_patch check_backend
update_local_service_backend id body t = do
  old ← or_raise (get_backend t id) (object_not_found id)
  let b = apply_patch body old
  check_backend (remove (λ r. r.id) id t.backends) b
  ok (b, record t { backends = replace (λ r. r.id) b t.backends })

unfoldable pub delete_local_service_backend : String → Tables → Result Tables
delete_local_service_backend id t = do
  _ ← or_raise (get_backend t id) (object_not_found id)
  ok (record t { backends = remove (λ r. r.id) id t.backends })

unfoldable pub get_local_service_backend : String → Tables → Result Backend
get_local_service_backend id t = or_raise (get_backend t id) (object_not_found id)
