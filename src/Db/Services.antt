-- ===== src/Db/Services.antt =====
-- The methods on local services.
use neutron_local_services_p.Base.{
  ℕ, String, Bool, true, false, Option, none, some, List, [], ◌∷◌, ◌++◌, string_eq, if◌then◌else◌,
  any,
}
use neutron_local_services_p.Constants.{attach_opt_in, dist_round_robin, exposure_nat, hc_none}
use neutron_local_services_p.Records.{Service}
use neutron_local_services_p.Netaddr.{Netaddr}
use neutron_local_services_p.Errors.{
  Result, ok, err, duplicate_entry, check_violation, object_not_found, ◌>>=◌, ◌>>◌, or_raise,
}
use neutron_local_services_p.Db.Vip.{VipOptions, validate_service_payload}
use neutron_local_services_p.Db.Rows.{replace, remove}
use neutron_local_services_p.Db.Tables.{Tables, get_service, same_project_name, port_in_range}

-- The body of a POST. A key with a default in the code may be missing.
pub record ServiceBody : Type 0 where
  pub project_id : Option String
  pub name : String
  pub description : Option String
  pub local_ipv4 : Option String
  pub local_ipv6 : Option String
  pub protocol : String
  pub port : ℕ
  pub attachment_policy : Option String
  pub distribution_policy : Option String
  pub exposure_plugin : Option String
  pub health_check_type : Option String
  pub health_check_config : Option String
  pub enabled : Option Bool

-- The body of a PUT: `some` where the key is present.
pub record ServicePatch : Type 0 where
  pub name : Option String
  pub description : Option (Option String)
  pub local_ipv4 : Option (Option String)
  pub local_ipv6 : Option (Option String)
  pub attachment_policy : Option String
  pub distribution_policy : Option String
  pub health_check_type : Option String
  pub health_check_config : Option (Option String)
  pub enabled : Option Bool

-- `body.get(key, default)`
abbrev pub get_or {ℓ} : {A : Type ℓ} → Option A → A → A
get_or none d = d
get_or (some a) d = a

-- The value of a column after the patch.
abbrev patched {ℓ} : {A : Type ℓ} → Option A → Option A → Option A
patched none old = old
patched (some a) old = some a

unfoldable pub new_service : String → ServiceBody → Service
new_service uuid body = record {
  id = uuid;
  project_id = body.project_id;
  name = body.name;
  description = body.description;
  local_ipv4 = body.local_ipv4;
  local_ipv6 = body.local_ipv6;
  protocol = some body.protocol;
  port = some body.port;
  attachment_policy = some (get_or body.attachment_policy attach_opt_in);
  distribution_policy = some (get_or body.distribution_policy dist_round_robin);
  exposure_plugin = some (get_or body.exposure_plugin exposure_nat);
  health_check_type = some (get_or body.health_check_type hc_none);
  health_check_config = body.health_check_config;
  enabled = some (get_or body.enabled true);
}

-- The `setattr` loop of `update_local_service`.
unfoldable pub apply_patch : ServicePatch → Service → Service
apply_patch p s = record s {
  name = get_or p.name s.name;
  description = get_or p.description s.description;
  local_ipv4 = get_or p.local_ipv4 s.local_ipv4;
  local_ipv6 = get_or p.local_ipv6 s.local_ipv6;
  attachment_policy = patched p.attachment_policy s.attachment_policy;
  distribution_policy = patched p.distribution_policy s.distribution_policy;
  health_check_type = patched p.health_check_type s.health_check_type;
  health_check_config = get_or p.health_check_config s.health_check_config;
  enabled = patched p.enabled s.enabled;
}

-- `'local_ipv4' in body or 'local_ipv6' in body`
unfoldable pub touches_vip : ServicePatch → Bool
touches_vip p = elim p.local_ipv4 [
  | some _ ↦ true
  | none ↦ elim p.local_ipv6 [ some _ ↦ true | none ↦ false ]
]

-- `session.flush()` of one service row: the constraints of the table, against the other rows.
unfoldable pub check_service : List Service → Service → Result (Unit {0})
check_service others s =
    if any (same_project_name s) others
    then err duplicate_entry
    else if port_in_range s.port
    then ok tt
    else err check_violation

module _ (N : Netaddr) (conf : VipOptions) where
  -- `uuid` is what `generate_uuid` returns.
  unfoldable pub create_local_service : String → ServiceBody → Tables → Result (Service × Tables)
  unfolding new_service check_service
  create_local_service uuid body t = do
    validate_service_payload N conf body.local_ipv4 body.local_ipv6
    let s = new_service uuid body
    check_service t.services s
    ok (s, record t { services = t.services ++ s ∷ [] })

  unfoldable pub update_local_service : String → ServicePatch → Tables → Result (Service × Tables)
  unfolding apply_patch check_service touches_vip
  update_local_service id body t = do
    svc ← or_raise (get_service t id) (object_not_found id)
    let s = apply_patch body svc
    if touches_vip body then validate_service_payload N conf s.local_ipv4 s.local_ipv6 else ok tt
    check_service (remove (λ r. r.id) id t.services) s
    ok (s, record t { services = replace (λ r. r.id) s t.services })

-- `orm.backref(..., cascade='all, delete-orphan')`: the backends and the bindings go too.
unfoldable pub delete_local_service : String → Tables → Result Tables
delete_local_service id t = do
  _ ← or_raise (get_service t id) (object_not_found id)
  ok (record {
    services = remove (λ r. r.id) id t.services;
    backends = remove (λ r. r.service_id) id t.backends;
    bindings = remove (λ r. r.service_id) id t.bindings;
  })

unfoldable pub get_local_service : String → Tables → Result Service
get_local_service id t = or_raise (get_service t id) (object_not_found id)
