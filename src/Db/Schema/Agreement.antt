-- ===== src/Db/Schema/Agreement.antt =====
-- The migration creates what the models declare.
use neutron_local_services_p.Base.{
  String, ◌≡◌, refl, true, false, Option, none, some, [], ◌∷◌, ◌==◌, string_eq, arith,
}
use neutron_local_services_p.Base.Dict.{Dict, lookup}
use neutron_local_services_p.Db.Schema.{Column, Table, Mixins, varchar, big_integer}
use neutron_local_services_p.Db.Schema.Models.{
  local_service, local_service_backend, local_service_binding,
}
use neutron_local_services_p.Db.Schema.Migration0001.{
  local_services, local_service_backends, local_service_bindings,
}

-- A column without its defaults, which the database need not know.
abbrev pub bare : Column → Column
bare column = record column { default = none; server_default = none }

abbrev pub bare_columns : Dict String Column → Dict String Column
bare_columns [] = []
bare_columns ((name, column) ∷ columns) = (name, bare column) ∷ bare_columns columns

abbrev pub bare_column : Table → String → Option Column
bare_column table name = lookup name (bare_columns table.columns)

-- The columns that neutron_lib documents for its classes.
pub record IsDocumented (mixins : Mixins) : Type 0 where
  pub standard :
      mixins.has_standard_attributes
      ≡ (
        "standard_attr_id",
        record {
          kind = big_integer;
          nullable = false;
          primary_key = false;
          index = false;
          unique = true;
          foreign_key = some "standardattributes.id";
          default = none;
          server_default = none;
        },
      )
        ∷ []
  pub id :
      mixins.has_id
      ≡ (
        "id",
        record {
          kind = varchar 36;
          nullable = false;
          primary_key = true;
          index = false;
          unique = false;
          foreign_key = none;
          default = none;
          server_default = none;
        },
      )
        ∷ []
  pub project :
      mixins.has_project
      ≡ (
        "project_id",
        record {
          kind = varchar 255;
          nullable = true;
          primary_key = false;
          index = true;
          unique = false;
          foreign_key = none;
          default = none;
          server_default = none;
        },
      )
        ∷ []

-- Both have the same columns, up to their order and their defaults, and the same constraints.
abbrev pub Agrees : Table → Table → Type 0
Agrees t u =
    ((name : String) → bare_column t name ≡ bare_column u name)
    × (t.unique_together ≡ u.unique_together)
    × (t.port_checked ≡ u.port_checked)

lookup_swap :
    (i j : String) (c d : Column) (columns : Dict String Column) (name : String)
    → (i == j) ≡ false
    → lookup name ((i, c) ∷ (j, d) ∷ columns) ≡ lookup name ((j, d) ∷ (i, c) ∷ columns)
unfolding lookup
lookup_swap i j c d columns name h = ground arith

-- The first of three goes to the end.
lookup_rotate :
    (i j k : String) (b c d : Column) (columns : Dict String Column) (name : String)
    → (i == j) ≡ false
    → (i == k) ≡ false
    → lookup name ((i, b) ∷ (j, c) ∷ (k, d) ∷ columns)
      ≡ lookup name ((j, c) ∷ (k, d) ∷ (i, b) ∷ columns)
unfolding lookup
lookup_rotate i j k b c d columns name h h' = ground arith

-- With the columns that neutron_lib documents for its classes, each table that the first migration
-- creates has the columns of its model, with the same types, nullability, keys and indexes, and the
-- same constraints; only the order and the defaults of columns may differ.
pub models_agree :
    (mixins : Mixins)
    → IsDocumented mixins
    → Agrees (local_service mixins) local_services
      × Agrees (local_service_backend mixins) local_service_backends
      × Agrees (local_service_binding mixins) local_service_bindings
unfolding string_eq
models_agree mixins d =
    rw (d.standard, d.id, d.project)
      (
        (λ name. lookup_rotate _ _ _ _ _ _ _ name refl refl, refl, refl),
        (λ name. lookup_swap _ _ _ _ _ name refl, refl, refl),
        (λ name. lookup_rotate _ _ _ _ _ _ _ name refl refl, refl, refl),
      )
