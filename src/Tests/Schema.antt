-- ===== src/Tests/Schema.antt =====
-- The schema and its migrations against a small database.
use Prim.Native.String.{count}
use neutron_local_services_p.Base.{
  ℕ, ◌≤◌, String, ◌≡◌, refl, sym, subst, if◌then◌else◌, Bool, true, false, ◌&&◌, ◌||◌, Option, none,
  some, List, [], ◌∷◌, string_eq, contains, leb, arith, inl, inr, ◌⊎◌, map,
}
use neutron_local_services_p.Base.Dict.{lookup}
use neutron_local_services_p.Api.{
  Validator, Converter, to_boolean, to_int, to_int_or_none, Sizes, range, string, string_or_none,
  uuid, ip_address, ip_address_or_none, values,
}
use neutron_local_services_p.Db.Migrations.{Database, original, renamed, upgrade}
use neutron_local_services_p.Db.Migrations.Chain.{
  all_in, replace, IsStrict, Outcome, upgrade-Outcome,
}
use neutron_local_services_p.Db.Schema.{
  Mixins, Kind, varchar, long_text, integer, big_integer, boolean, enum,
}
use neutron_local_services_p.Db.Schema.Models.{
  local_service, local_service_backend, local_service_binding,
}
use neutron_local_services_p.Db.Schema.Migration0001
use neutron_local_services_p.Db.Schema.Agreement.{Agrees, models_agree}
use neutron_local_services_p.Db.Schema.Fit
use neutron_local_services_p.Db.Schema.Fit.{
  Value, null, text, number, flag, Backing, Passes, stored, accepted,
}
use neutron_local_services_p.Db.Schema.Stored.{
  service, service_name, attributes_of, table_of, accepted-stored, overlong_refused,
}

abbrev mixins : Mixins
mixins = record {
  has_standard_attributes = ("standard_attr_id", Migration0001.standard_attr_id) ∷ [];
  has_id = ("id", Migration0001.id) ∷ [];
  has_project = ("project_id", Migration0001.project_id) ∷ [];
}

models_agree_example :
    Agrees (local_service mixins) Migration0001.local_services
    × Agrees (local_service_backend mixins) Migration0001.local_service_backends
    × Agrees (local_service_binding mixins) Migration0001.local_service_bindings
models_agree_example = models_agree mixins (record { standard = refl; id = refl; project = refl })

-- The enum and the rows.
abbrev strict : Database
strict = record {
  State = List String × List String;
  enum_values = λ s. s.0;
  exposures = λ s. s.1;
  alter_column = λ values s. if all_in s.1 values then some (values, s.1) else none;
  update = λ new old s. if contains s.0 new then some (s.0, map (replace new old) s.1) else none;
}

strict-IsStrict : IsStrict strict
strict-IsStrict = record {
  altered = λ values s h. ((values, s.1), rw h refl, refl, refl);
  alter_refused = λ values s h. rw h refl;
  updated = λ new old s h. ((s.0, map (replace new old) s.1), rw h refl, refl, refl);
}

upgrade-Outcome_example :
    Outcome strict (original, "lvs" ∷ "envoy" ∷ []) (some (renamed, "nat" ∷ "proxy" ∷ []))
unfolding upgrade string_eq
upgrade-Outcome_example = upgrade-Outcome strict strict-IsStrict (original, "lvs" ∷ "envoy" ∷ [])

-- A row that the code of today has written before 0002 stops the chain.
nat_refused : upgrade strict (renamed, "nat" ∷ []) ≡ none
unfolding upgrade string_eq
nat_refused = refl

abbrev within : ℕ → Value → Bool
within size null = false
within size (text s) = leb (count s) size
within size (number n) = false
within size (flag b) = false

abbrev is_null : Value → Bool
is_null null = true
is_null (text s) = false
is_null (number n) = false
is_null (flag b) = false

abbrev is_flag : Value → Bool
is_flag null = false
is_flag (text s) = false
is_flag (number n) = false
is_flag (flag b) = true

abbrev ranges : ℕ → ℕ → Value → Bool
ranges low high null = false
ranges low high (text s) = false
ranges low high (number n) = leb low n && leb n high
ranges low high (flag b) = false

abbrev chosen : List String → Value → Bool
chosen allowed null = false
chosen allowed (text s) = contains allowed s
chosen allowed (number n) = false
chosen allowed (flag b) = false

abbrev passes : Option Validator → Value → Bool
passes none v = true
passes (some (range low high)) v = ranges low high v
passes (some (string size)) v = within size v
passes (some (string_or_none size)) v = is_null v || within size v
passes (some uuid) v = within 36 v
passes (some ip_address) v = within 45 v
passes (some ip_address_or_none) v = is_null v || within 45 v
passes (some (values allowed)) v = chosen allowed v

abbrev converts : Option Converter → Value → Bool
converts none v = true
converts (some to_int) v = true
converts (some to_int_or_none) v = true
converts (some to_boolean) v = is_flag v

abbrev keeps : Kind → Value → Bool
keeps (varchar size) v = within size v
keeps long_text v = within 16383 v
keeps integer v = ranges 0 2147483647 v
keeps big_integer v = true
keeps boolean v = is_flag v
keeps (enum xs) v = chosen xs v

abbrev backing : Backing
backing = record { admitted = λ a v. converts a.convert_to v && passes a.validate v; held = keeps }

within_text :
    (size : ℕ) (v : Value) → within size v ≡ true → (s : String) × (v ≡ text s) × (count s ≤ size)
within_text size null h = absurd (ground arith)
within_text size (text s) h = (s, refl, ground arith)
within_text size (number n) h = absurd (ground arith)
within_text size (flag b) h = absurd (ground arith)

null_or_within :
    (size : ℕ) (v : Value)
    → (is_null v || within size v) ≡ true
    → (v ≡ null) ⊎ ((s : String) × (v ≡ text s) × (count s ≤ size))
null_or_within size null h = inl refl
null_or_within size (text s) h = inr (s, refl, ground arith)
null_or_within size (number n) h = absurd (ground arith)
null_or_within size (flag b) h = absurd (ground arith)

passes-Passes : (p : Validator) (v : Value) → passes (some p) v ≡ true → Passes p v
passes-Passes (range low high) null h = absurd (ground arith)
passes-Passes (range low high) (text s) h = absurd (ground arith)
passes-Passes (range low high) (number n) h = (n, refl, ground arith, ground arith)
passes-Passes (range low high) (flag b) h = absurd (ground arith)
passes-Passes (string size) v h = within_text size v h
passes-Passes (string_or_none size) v h = null_or_within size v h
passes-Passes uuid v h = uuid_text (within_text 36 v h)
  where
    uuid_text : (s : String) × (v ≡ text s) × (count s ≤ 36) → (s : String) × (v ≡ text s)
    uuid_text (s, e, le) = (s, e)
passes-Passes ip_address v h = within_text 45 v h
passes-Passes ip_address_or_none v h = null_or_within 45 v h
passes-Passes (values allowed) null h = absurd (ground arith)
passes-Passes (values allowed) (text s) h = (s, refl, h)
passes-Passes (values allowed) (number n) h = absurd (ground arith)
passes-Passes (values allowed) (flag b) h = absurd (ground arith)

flag_of : (v : Value) → is_flag v ≡ true → (b : Bool) × (v ≡ flag b)
flag_of null h = absurd (ground arith)
flag_of (text s) h = absurd (ground arith)
flag_of (number n) h = absurd (ground arith)
flag_of (flag b) h = (b, refl)

validated_passes :
    (c : Option Converter) (o : Option Validator) (p : Validator) (v : Value)
    → o ≡ some p
    → (converts c v && passes o v) ≡ true
    → Passes p v
validated_passes c o p v e =
    subst (λ o. (converts c v && passes o v) ≡ true → Passes p v) (sym e)
      (λ h. passes-Passes p v (ground arith))

backing-IsDocumented : Fit.IsDocumented backing
backing-IsDocumented = record {
  validated = λ a p v e h. validated_passes a.convert_to a.validate p v e h;
  converted = λ a v e h. flag_of v (ground arith);
  text_admitted = λ a size s c e le. rw (c, e) (ground arith);
  held_varchar = λ size s. refl;
  held_long_text = λ s h. ground arith;
  held_enum = λ xs s. refl;
  held_integer = λ n h. ground arith;
  held_boolean = λ b. refl;
}

abbrev sizes : Sizes
sizes = record {
  name_field_size = 255;
  long_description_field_size = 1024;
  project_id_field_size = 255;
}

accepted-stored_example : stored backing (table_of service) "exposure_plugin" (text "proxy") ≡ true
unfolding string_eq lookup
accepted-stored_example =
    accepted-stored backing sizes service "exposure_plugin" (text "proxy") backing-IsDocumented
      (ground arith) (ground arith) refl refl

abbrev long_name : String
long_name = "metadata-and-time-and-names-and-licences-for-every-tenant-network"

overlong_refused_example :
    (accepted backing (attributes_of sizes service) "name" (text long_name) ≡ true)
    × (stored backing (table_of service) "name" (text long_name) ≡ false)
overlong_refused_example =
    overlong_refused backing sizes service_name long_name backing-IsDocumented (ground arith)
      (ground arith)
