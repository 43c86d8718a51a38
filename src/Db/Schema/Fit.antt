-- ===== src/Db/Schema/Fit.antt =====
-- Whether the columns of the migration hold what the API lets through, for the fields whose values
-- come from a request.
use Prim.Native.String.{count}
use neutron_local_services_p.Base.{
  ℕ, ◌*◌, ◌≤◌, ◌<◌, String, ◌≡◌, Bool, true, false, ◌&&◌, ◌||◌, not, Option, none, some, List, [],
  ◌∷◌, ◌==◌, string_eq, ◌⊎◌, contains, leb, ltb, inl, inr, arith,
}
use neutron_local_services_p.Base.Dict.{Dict, lookup}
use neutron_local_services_p.Api.{
  Attribute, Validator, range, string, string_or_none, uuid, ip_address, ip_address_or_none, values,
  to_boolean,
}
use neutron_local_services_p.Db.Schema.{
  Kind, varchar, long_text, integer, big_integer, boolean, enum, Column, Table,
}

pub data Value : Type 0 where
  null : Value
  text : String → Value
  number : ℕ → Value
  flag : Bool → Value

-- Neutron's API and the database: whether a value can be what an attribute makes of a request, and
-- whether a column of a type can hold a value.
pub record Backing : Type 0 where
  pub admitted : Attribute → Value → Bool
  pub held : Kind → Value → Bool

-- What the validators let through, as neutron_lib documents it.
abbrev pub Passes : Validator → Value → Type 0
Passes (range low high) v = (n : ℕ) × (v ≡ number n) × (low ≤ n) × (n ≤ high)
Passes (string size) v = (s : String) × (v ≡ text s) × (count s ≤ size)
Passes (string_or_none size) v = (v ≡ null) ⊎ ((s : String) × (v ≡ text s) × (count s ≤ size))
Passes uuid v = (s : String) × (v ≡ text s)
Passes ip_address v = (s : String) × (v ≡ text s) × (count s ≤ 45)
Passes ip_address_or_none v = (v ≡ null) ⊎ ((s : String) × (v ≡ text s) × (count s ≤ 45))
Passes (values allowed) v = (s : String) × (v ≡ text s) × (contains allowed s ≡ true)

-- The documented behaviour of both: validators and converters, texts of a VARCHAR counted in
-- characters, of a TEXT in at most four bytes for each, and integers of 32 bits with a sign.
pub record IsDocumented (B : Backing) : Type 0 where
  pub validated :
      (a : Attribute) (p : Validator) (v : Value)
      → a.validate ≡ some p
      → B.admitted a v ≡ true
      → Passes p v
  pub converted :
      (a : Attribute) (v : Value)
      → a.convert_to ≡ some to_boolean
      → B.admitted a v ≡ true
      → (b : Bool) × (v ≡ flag b)
  pub text_admitted :
      (a : Attribute) (size : ℕ) (s : String)
      → a.convert_to ≡ none
      → a.validate ≡ some (string size)
      → count s ≤ size
      → B.admitted a (text s) ≡ true
  pub held_varchar : (size : ℕ) (s : String) → B.held (varchar size) (text s) ≡ leb (count s) size
  pub held_long_text : (s : String) → count s * 4 ≤ 65535 → B.held long_text (text s) ≡ true
  pub held_enum : (xs : List String) (s : String) → B.held (enum xs) (text s) ≡ contains xs s
  pub held_integer : (n : ℕ) → n < 2147483648 → B.held integer (number n) ≡ true
  pub held_boolean : (b : Bool) → B.held boolean (flag b) ≡ true

abbrev pub column_holds : Backing → Column → Value → Bool
column_holds B c null = c.nullable
column_holds B c (text s) = B.held c.kind (text s)
column_holds B c (number n) = B.held c.kind (number n)
column_holds B c (flag b) = B.held c.kind (flag b)

-- `port > 0 AND port <= 65535`
abbrev pub port_range : Value → Bool
port_range (number n) = ltb 0 n && leb n 65535
port_range null = true
port_range (text s) = false
port_range (flag b) = false

-- A field without a column, or without an attribute, is refused. A check constraint adds to what
-- the type of the column holds.
abbrev pub holds : Backing → Bool → Option Column → Value → Bool
holds B is_checked none v = false
holds B is_checked (some c) v = column_holds B c v && (not is_checked || port_range v)

abbrev pub admits : Backing → Option Attribute → Value → Bool
admits B none v = false
admits B (some a) v = B.admitted a v

abbrev pub stored : Backing → Table → String → Value → Bool
stored B table name v =
    holds B (table.port_checked && (name == "port")) (lookup name table.columns) v

abbrev pub accepted : Backing → Dict String Attribute → String → Value → Bool
accepted B attributes name v = admits B (lookup name attributes) v

-- Whether a column holds all that a validator lets through.
unfoldable pub text_fits : ℕ → Kind → Bool
text_fits size (varchar n) = leb size n
text_fits size long_text = leb (size * 4) 65535
text_fits size integer = false
text_fits size big_integer = false
text_fits size boolean = false
text_fits size (enum xs) = false

unfoldable pub chosen_fits : List String → Kind → Bool
chosen_fits [] (enum ys) = true
chosen_fits (x ∷ xs) (enum ys) = contains ys x && chosen_fits xs (enum ys)
chosen_fits xs (varchar n) = false
chosen_fits xs long_text = false
chosen_fits xs integer = false
chosen_fits xs big_integer = false
chosen_fits xs boolean = false

unfoldable pub number_fits : ℕ → Kind → Bool
number_fits high integer = ltb high 2147483648
number_fits high (varchar n) = false
number_fits high long_text = false
number_fits high big_integer = false
number_fits high boolean = false
number_fits high (enum xs) = false

unfoldable pub fits : Validator → Column → Bool
unfolding text_fits chosen_fits number_fits
fits (range low high) c = number_fits high c.kind
fits (string size) c = text_fits size c.kind
fits (string_or_none size) c = text_fits size c.kind && c.nullable
fits uuid c = false
fits ip_address c = text_fits 45 c.kind
fits ip_address_or_none c = text_fits 45 c.kind && c.nullable
fits (values allowed) c = chosen_fits allowed c.kind

module _ (B : Backing) (d : IsDocumented B) where
  text_fits-held :
      (size : ℕ) (k : Kind) (s : String)
      → text_fits size k ≡ true
      → count s ≤ size
      → B.held k (text s) ≡ true
  unfolding text_fits
  text_fits-held size (varchar n) s h le = rw (d.held_varchar n s) (ground arith)
  text_fits-held size long_text s h le = d.held_long_text s (ground arith)
  text_fits-held size integer s h le = absurd (ground arith)
  text_fits-held size big_integer s h le = absurd (ground arith)
  text_fits-held size boolean s h le = absurd (ground arith)
  text_fits-held size (enum xs) s h le = absurd (ground arith)

  chosen_fits-held :
      (xs : List String) (k : Kind) (s : String)
      → chosen_fits xs k ≡ true
      → contains xs s ≡ true
      → B.held k (text s) ≡ true
  unfolding chosen_fits
  chosen_fits-held [] k s h c = absurd (ground arith)
  chosen_fits-held (x ∷ xs) (enum ys) s h c =
      ground (arith, d.held_enum ys s, chosen_fits-held xs (enum ys) s)
  chosen_fits-held (x ∷ xs) (varchar n) s h c = absurd (ground arith)
  chosen_fits-held (x ∷ xs) long_text s h c = absurd (ground arith)
  chosen_fits-held (x ∷ xs) integer s h c = absurd (ground arith)
  chosen_fits-held (x ∷ xs) big_integer s h c = absurd (ground arith)
  chosen_fits-held (x ∷ xs) boolean s h c = absurd (ground arith)

  number_fits-held :
      (high n : ℕ) (k : Kind) → number_fits high k ≡ true → n ≤ high → B.held k (number n) ≡ true
  unfolding number_fits
  number_fits-held high n integer h le = d.held_integer n (ground arith)
  number_fits-held high n (varchar m) h le = absurd (ground arith)
  number_fits-held high n long_text h le = absurd (ground arith)
  number_fits-held high n big_integer h le = absurd (ground arith)
  number_fits-held high n boolean h le = absurd (ground arith)
  number_fits-held high n (enum xs) h le = absurd (ground arith)

  text_or_none :
      (size : ℕ) (c : Column) (v : Value)
      → (text_fits size c.kind && c.nullable) ≡ true
      → (v ≡ null) ⊎ ((s : String) × (v ≡ text s) × (count s ≤ size))
      → column_holds B c v ≡ true
  text_or_none size c v h (inl e) = rw e (ground arith)
  text_or_none size c v h (inr (s, e, le)) = rw e (text_fits-held size c.kind s (ground arith) le)

  pub fits-column_holds :
      (p : Validator) (c : Column) (v : Value)
      → fits p c ≡ true
      → Passes p v
      → column_holds B c v ≡ true
  unfolding fits
  fits-column_holds (range low high) c v h (n, e, le, le') =
      rw e (number_fits-held high n c.kind h le')
  fits-column_holds (string size) c v h (s, e, le) = rw e (text_fits-held size c.kind s h le)
  fits-column_holds (string_or_none size) c v h q = text_or_none size c v h q
  fits-column_holds uuid c v h q = absurd (ground arith)
  fits-column_holds ip_address c v h (s, e, le) = rw e (text_fits-held 45 c.kind s h le)
  fits-column_holds ip_address_or_none c v h q = text_or_none 45 c v h q
  fits-column_holds (values allowed) c v h (s, e, i) = rw e (chosen_fits-held allowed c.kind s h i)
