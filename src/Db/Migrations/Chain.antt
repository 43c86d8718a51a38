-- ===== src/Db/Migrations/Chain.antt =====
-- What the chain of migrations makes of the rows.
use neutron_local_services_p.Base.{
  String, ◌≡◌, refl, ap, ◌∙◌, Bool, true, false, Option, none, some, List, [], ◌∷◌, ◌==◌, ==_iff,
  string_eq, contains, map, if◌then◌else◌, ◌&&◌, Bool-cases, inl, inr, arith,
}
use neutron_local_services_p.Constants.{exposure_plugins}
use neutron_local_services_p.Db.Migrations.{
  Database, original, widened, renamed, extend_exposure_enum, rename_exposure_plugins, upgrade,
}

abbrev pub all_in : List String → List String → Bool
all_in [] values = true
all_in (x ∷ xs) values = contains values x && all_in xs values

abbrev pub replace : String → String → String → String
replace new old x = if x == old then new else x

-- A database in strict mode, as MySQL documents it: no enum loses a value that a row has, and no
-- row gets a value that its enum lacks.
pub record IsStrict (D : Database) : Type 0 where
  pub altered :
      (values : List String) (s : D.State)
      → all_in (D.exposures s) values ≡ true
      → (t : D.State) × (D.alter_column values s ≡ some t)
        × (D.enum_values t ≡ values)
        × (D.exposures t ≡ D.exposures s)
  pub alter_refused :
      (values : List String) (s : D.State)
      → all_in (D.exposures s) values ≡ false
      → D.alter_column values s ≡ none
  pub updated :
      (new old : String) (s : D.State)
      → contains (D.enum_values s) new ≡ true
      → (t : D.State) × (D.update new old s ≡ some t)
        × (D.enum_values t ≡ D.enum_values s)
        × (D.exposures t ≡ map (replace new old) (D.exposures s))

-- `lvs` becomes `nat`, `envoy` becomes `proxy`.
abbrev pub new_name : String → String
new_name x = replace "proxy" "envoy" (replace "nat" "lvs" x)

all_in-widened : (xs : List String) → all_in xs original ≡ true → all_in xs widened ≡ true
all_in-widened [] h = refl
all_in-widened (x ∷ xs) h = ground (arith, all_in-widened xs)

renaming-map :
    (xs : List String)
    → map (replace "proxy" "envoy") (map (replace "nat" "lvs") xs) ≡ map new_name xs
renaming-map [] = refl
renaming-map (x ∷ xs) = ap (λ ys. new_name x ∷ ys) (renaming-map xs)

new_name_of : (x y : String) → (x == y) ≡ true → new_name x ≡ new_name y
new_name_of x y h = ap new_name ((==_iff x y).0 h)

new_name_kept : (x : String) → contains original x ≡ true → contains renamed (new_name x) ≡ true
unfolding string_eq
new_name_kept x h = elim (Bool-cases (x == "lvs")) [
  | inl e ↦ rw (new_name_of x "lvs" e) refl
  | inr e ↦ rw (new_name_of x "envoy" (ground arith)) refl
]

all_in-renamed :
    (xs : List String) → all_in xs original ≡ true → all_in (map new_name xs) renamed ≡ true
all_in-renamed [] h = refl
all_in-renamed (x ∷ xs) h =
    rw (new_name_kept x (ground arith), all_in-renamed xs (ground arith)) refl

-- Where the chain leads: the enum of the constants, and each row with the new name of its plugin.
abbrev pub IsUpgraded : (D : Database) → D.State → D.State → Type 0
IsUpgraded D s t =
    (D.enum_values t ≡ exposure_plugins) × (D.exposures t ≡ map new_name (D.exposures s))

abbrev pub Outcome : (D : Database) → D.State → Option D.State → Type 0
Outcome D s none = all_in (D.exposures s) original ≡ false
Outcome D s (some t) = (all_in (D.exposures s) original ≡ true) × IsUpgraded D s t

module _ (D : Database) (d : IsStrict D) where
  rename_done :
      (s : D.State)
      → all_in (D.exposures s) original ≡ true
      → (t : D.State) × (rename_exposure_plugins D s ≡ some t) × IsUpgraded D s t
  unfolding rename_exposure_plugins string_eq
  rename_done s h =
      let a = d.altered widened s (all_in-widened (D.exposures s) h) in
      let b = d.updated "nat" "lvs" a.0 (rw a.2 refl) in
      let c = d.updated "proxy" "envoy" b.0 (rw (b.2, a.2) refl) in
      let rows =
        c.3
        ∙ ap (map (replace "proxy" "envoy")) (b.3 ∙ ap (map (replace "nat" "lvs")) a.3)
        ∙ renaming-map (D.exposures s) in
      let e = d.altered renamed c.0 (rw rows (all_in-renamed (D.exposures s) h)) in
      (e.0, rw (a.1, b.1, c.1, e.1) refl, (e.2, e.3 ∙ rows))

  upgrade_done :
      (s : D.State)
      → all_in (D.exposures s) original ≡ true
      → (t : D.State) × (upgrade D s ≡ some t) × IsUpgraded D s t
  unfolding upgrade extend_exposure_enum
  upgrade_done s h =
      let a = d.altered original s h in
      let b = rename_done a.0 (rw a.3 h) in
      (b.0, rw (a.1, b.1) refl, (b.2.0, b.2.1 ∙ ap (map new_name) a.3))

  upgrade_stops : (s : D.State) → all_in (D.exposures s) original ≡ false → upgrade D s ≡ none
  unfolding upgrade extend_exposure_enum
  upgrade_stops s h = rw (d.alter_refused original s h) refl

-- In a strict database the migrations after 0001 run to the end exactly if each row has the plugin
-- `lvs` or `envoy`; then the enum is that of the constants and each row has the plugin's new name.
-- Otherwise they are refused.
pub upgrade-Outcome : (D : Database) → IsStrict D → (s : D.State) → Outcome D s (upgrade D s)
upgrade-Outcome D d s = elim (Bool-cases (all_in (D.exposures s) original)) [
  | inl h ↦ let b = upgrade_done D d s h in rw b.1 (h, b.2)
  | inr h ↦ rw (upgrade_stops D d s h) h
]
