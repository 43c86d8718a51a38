-- ===== src/Db/Schema.antt =====
-- The columns and constraints of db/models.py, and those that the migration 0001_initial.py under
-- db/migration/alembic_migrations/versions creates.
pub mod Models
pub mod Migration0001
pub mod Agreement
pub mod Fit
pub mod Stored
use neutron_local_services_p.Base.{ℕ, String, Bool, true, false, Option, none, some, List}
use neutron_local_services_p.Base.Dict.{Dict}

-- The types of sqlalchemy that the columns have; the name of an enum is left out.
pub data Kind : Type 0 where
  varchar : ℕ → Kind
  long_text integer big_integer boolean : Kind
  enum : List String → Kind

pub data Initial : Type 0 where
  text : String → Initial
  flag : Bool → Initial

-- `default` is set by Python, `server_default` by the database. A foreign key always cascades.
pub record Column : Type 0 where
  pub kind : Kind
  pub nullable : Bool
  pub primary_key : Bool
  pub index : Bool
  pub unique : Bool
  pub foreign_key : Option String
  pub default : Option Initial
  pub server_default : Option Initial

-- The columns by name, the columns of the unique constraint, and `port > 0 AND port <= 65535`.
pub record Table : Type 0 where
  pub columns : Dict String Column
  pub unique_together : List String
  pub port_checked : Bool

abbrev pub plain : Kind → Column
plain kind = record {
  kind = kind;
  nullable = true;
  primary_key = false;
  index = false;
  unique = false;
  foreign_key = none;
  default = none;
  server_default = none;
}

abbrev pub needed : Kind → Column
needed kind = record (plain kind) { nullable = false }

-- A needed column with a default of Python's.
abbrev pub preset : Kind → String → Column
preset kind initial = record (needed kind) { default = some (text initial) }

abbrev pub owner : String → Column
owner table = record (needed (varchar 36)) { index = true; foreign_key = some table }

-- The columns that the classes of neutron_lib bring.
pub record Mixins : Type 0 where
  pub has_standard_attributes : Dict String Column
  pub has_id : Dict String Column
  pub has_project : Dict String Column
