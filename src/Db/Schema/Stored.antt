-- ===== src/Db/Schema/Stored.antt =====
-- Which fields of a request the database can always store, and which it may refuse.
use Prim.Native.String.{count}
use neutron_local_services_p.Base.{
  ℕ, ◌*◌, ◌≤◌, ◌<◌, String, ◌≡◌, refl, Bool, true, false, some, List, [], ◌∷◌, ◌==◌, string_eq,
  contains, All, All-contains, arith,
}
use neutron_local_services_p.Base.Dict.{Dict, lookup}
use neutron_local_services_p.Api.{
  Attribute, Validator, range, to_boolean, Sizes, service_attributes, backend_attributes,
}
use neutron_local_services_p.Db.Schema.{Column, Table, integer, boolean}
use neutron_local_services_p.Db.Schema.Migration0001.{local_services, local_service_backends}
use neutron_local_services_p.Db.Schema.Fit.{
  Value, text, Backing, IsDocumented, stored, accepted, holds, fits, text_fits, number_fits,
  chosen_fits, fits-column_holds, number, flag,
}

pub data Resource : Type 0 where
  service backend : Resource

abbrev pub attributes_of : Sizes → Resource → Dict String Attribute
attributes_of sizes service = service_attributes sizes
attributes_of sizes backend = backend_attributes sizes

abbrev pub table_of : Resource → Table
table_of service = local_services
table_of backend = local_service_backends

-- The fields of a request that do not name a row, but for the names, the description and the two
-- numbers without a range.
abbrev pub bounded_fields : Resource → List String
bounded_fields service =
    "local_ipv4" ∷ "local_ipv6" ∷ "protocol" ∷ "port" ∷ "attachment_policy" ∷ "distribution_policy"
    ∷ "exposure_plugin" ∷ "health_check_type" ∷ "health_check_config" ∷ "enabled" ∷ []
bounded_fields backend =
    "availability_zone" ∷ "address" ∷ "port" ∷ "health_check_address" ∷ "enabled" ∷ []

module _ (B : Backing) (d : IsDocumented B) (sizes : Sizes) where
  abbrev Stores : Resource → String → Type 0
  Stores r name =
      (v : Value)
      → accepted B (attributes_of sizes r) name v ≡ true
      → stored B (table_of r) name v ≡ true

  validated_field :
      (r : Resource) (name : String) (a : Attribute) (c : Column) (p : Validator)
      → lookup name (attributes_of sizes r) ≡ some a
      → lookup name (table_of r).columns ≡ some c
      → a.validate ≡ some p
      → fits p c ≡ true
      → (name == "port") ≡ false
      → Stores r name
  validated_field r name a c p ea ec ep f n v =
      rw (ea, ec, n) (λ h. ground (arith, fits-column_holds B d p c v f (d.validated a p v ep h)))

  port_held :
      (c : Column) (v : Value) (is_checked : Bool)
      → c.kind ≡ integer
      → (n : ℕ) × (v ≡ number n) × (1 ≤ n) × (n ≤ 65535)
      → holds B is_checked (some c) v ≡ true
  port_held c v is_checked k (n, e, low, high) =
      rw (e, k, d.held_integer n (omega arith)) (ground arith)

  enabled_held :
      (c : Column) (v : Value) (is_checked : Bool)
      → c.kind ≡ boolean
      → is_checked ≡ false
      → (b : Bool) × (v ≡ flag b)
      → holds B is_checked (some c) v ≡ true
  enabled_held c v is_checked k u (b, e) = rw (e, k, u, d.held_boolean b) refl

  port_field :
      (r : Resource) (a : Attribute) (c : Column)
      → lookup "port" (attributes_of sizes r) ≡ some a
      → lookup "port" (table_of r).columns ≡ some c
      → a.validate ≡ some (range 1 65535)
      → c.kind ≡ integer
      → Stores r "port"
  port_field r a c ea ec ep ek v =
      rw (ea, ec) (λ h. port_held c v _ ek (d.validated a (range 1 65535) v ep h))

  enabled_field :
      (r : Resource) (a : Attribute) (c : Column)
      → lookup "enabled" (attributes_of sizes r) ≡ some a
      → lookup "enabled" (table_of r).columns ≡ some c
      → a.convert_to ≡ some to_boolean
      → c.kind ≡ boolean
      → Stores r "enabled"
  unfolding string_eq
  enabled_field r a c ea ec ep ek v =
      rw (ea, ec) (λ h. enabled_held c v _ ek (ground arith) (d.converted a v ep h))

  service_fields :
      sizes.long_description_field_size * 4 * 4 ≤ 65535
      → All (Stores service) (bounded_fields service)
  unfolding lookup fits text_fits number_fits chosen_fits string_eq
  service_fields long = (
    validated_field service "local_ipv4" _ _ _ refl refl refl refl refl,
    (
      validated_field service "local_ipv6" _ _ _ refl refl refl refl refl,
      (
        validated_field service "protocol" _ _ _ refl refl refl refl refl,
        (
          port_field service _ _ refl refl refl refl,
          (
            validated_field service "attachment_policy" _ _ _ refl refl refl refl refl,
            (
              validated_field service "distribution_policy" _ _ _ refl refl refl refl refl,
              (
                validated_field service "exposure_plugin" _ _ _ refl refl refl refl refl,
                (
                  validated_field service "health_check_type" _ _ _ refl refl refl refl refl,
                  (
                    validated_field service "health_check_config" _ _ _ refl refl refl
                        (ground arith) refl,
                    (enabled_field service _ _ refl refl refl refl, tt),
                  ),
                ),
              ),
            ),
          ),
        ),
      ),
    ),
  )

  backend_fields : sizes.name_field_size ≤ 255 → All (Stores backend) (bounded_fields backend)
  unfolding lookup fits text_fits string_eq
  backend_fields names = (
    validated_field backend "availability_zone" _ _ _ refl refl refl (ground arith) refl,
    (
      validated_field backend "address" _ _ _ refl refl refl refl refl,
      (
        port_field backend _ _ refl refl refl refl,
        (
          validated_field backend "health_check_address" _ _ _ refl refl refl refl refl,
          (enabled_field backend _ _ refl refl refl refl, tt),
        ),
      ),
    ),
  )

  fields_stored :
      (r : Resource)
      → sizes.name_field_size ≤ 255
      → sizes.long_description_field_size * 4 * 4 ≤ 65535
      → All (Stores r) (bounded_fields r)
  fields_stored service names long = service_fields long
  fields_stored backend names long = backend_fields names

-- Let the API and the database behave as they are documented, a name field admit at most 255
-- characters and four long descriptions fit a TEXT. Then what the API lets through for a field of a
-- service or a backend is stored, unless the field is a name, a description, an id, a weight or the
-- port of the health check.
pub accepted-stored :
    (B : Backing) (sizes : Sizes) (r : Resource) (name : String) (v : Value)
    → IsDocumented B
    → sizes.name_field_size ≤ 255
    → sizes.long_description_field_size * 4 * 4 ≤ 65535
    → contains (bounded_fields r) name ≡ true
    → accepted B (attributes_of sizes r) name v ≡ true
    → stored B (table_of r) name v ≡ true
accepted-stored B sizes r name v d names long c h =
    All-contains (Stores B d sizes r) (bounded_fields r) name (fields_stored B d sizes r names long)
      c v h

-- The texts whose column is narrower than what the API may admit.
pub data Narrow : Type 0 where
  service_name service_description backend_name : Narrow

abbrev pub resource : Narrow → Resource
resource service_name = service
resource service_description = service
resource backend_name = backend

abbrev pub field : Narrow → String
field service_name = "name"
field service_description = "description"
field backend_name = "name"

abbrev pub width : Narrow → ℕ
width service_name = 64
width service_description = 255
width backend_name = 64

abbrev pub admitted_size : Sizes → Narrow → ℕ
admitted_size sizes service_name = sizes.name_field_size
admitted_size sizes service_description = sizes.long_description_field_size
admitted_size sizes backend_name = sizes.name_field_size

-- With the API and the database as they are documented, a name of more than 64 characters, or a
-- description of more than 255, that the size given by neutron_lib allows passes the API and is
-- refused by the database.
pub overlong_refused :
    (B : Backing) (sizes : Sizes) (f : Narrow) (s : String)
    → IsDocumented B
    → width f < count s
    → count s ≤ admitted_size sizes f
    → (accepted B (attributes_of sizes (resource f)) (field f) (text s) ≡ true)
      × (stored B (table_of (resource f)) (field f) (text s) ≡ false)
unfolding lookup string_eq
overlong_refused B sizes service_name s d wide le =
    (d.text_admitted _ _ s refl refl le, rw (d.held_varchar 64 s) (ground arith))
overlong_refused B sizes service_description s d wide le =
    (d.text_admitted _ _ s refl refl le, rw (d.held_varchar 255 s) (ground arith))
overlong_refused B sizes backend_name s d wide le =
    (d.text_admitted _ _ s refl refl le, rw (d.held_varchar 64 s) (ground arith))
