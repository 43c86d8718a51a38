-- ===== src/Db/Migrations.antt =====
-- The migrations 0002 and 0003 under db/migration/alembic_migrations/versions, which change the enum
-- of the column `exposure_plugin` of `local_services`.
pub mod Chain
use neutron_local_services_p.Base.{
  String, ◌≡◌, Bool, true, false, Option, none, some, List, [], ◌∷◌, ◌==◌, string_eq, contains, map,
  if◌then◌else◌, ◌&&◌,
}

-- The database as far as that column goes: its enum and its value in each row. A statement that the
-- database refuses gives none, and the migration ends there.
pub record Database : Type 1 where
  pub State : Type 0
  pub enum_values : State → List String
  pub exposures : State → List String
  -- `op.alter_column` with the new type
  pub alter_column : List String → State → Option State
  -- `UPDATE local_services SET exposure_plugin = :new WHERE exposure_plugin = :old`
  pub update : String → String → State → Option State

infixl 5 ◌>>=◌
abbrev pub ◌>>=◌ : {S : Type 0} → Option S → (S → Option S) → Option S
o >>= rest = elim o [ none ↦ none | some s ↦ rest s ]

abbrev pub original : List String
original = "lvs" ∷ "envoy" ∷ []

abbrev pub widened : List String
widened = "lvs" ∷ "envoy" ∷ "nat" ∷ "proxy" ∷ []

abbrev pub renamed : List String
renamed = "nat" ∷ "proxy" ∷ []

-- `upgrade` of 0002_extend_exposure_enum.py.
unfoldable pub extend_exposure_enum : (D : Database) → D.State → Option D.State
extend_exposure_enum D s = D.alter_column original s

-- `upgrade` of 0003_rename_exposure_plugins.py.
unfoldable pub rename_exposure_plugins : (D : Database) → D.State → Option D.State
rename_exposure_plugins D s =
    D.alter_column widened s
    >>= D.update "nat" "lvs"
    >>= D.update "proxy" "envoy"
    >>= D.alter_column renamed

-- From 0001 to the head.
unfoldable pub upgrade : (D : Database) → D.State → Option D.State
unfolding extend_exposure_enum rename_exposure_plugins
upgrade D s = extend_exposure_enum D s >>= rename_exposure_plugins D
