-- ===== src/Base/Orders.antt =====
-- The orders by which the code sorts: numbers, texts by code point, and tuples.
use Prim.Native.Nat.{ℕ}
use Prim.Native.Char.{code}
use Prim.Native.String.{String}
use mathlib.Core.Path.{◌≡◌, refl}
use mathlib.Core.Bool.{Bool, true, false}
use native.Mathlib.Omega.{arith}
use text.Mathlib.TextEquality.{Char-path}
use neutron_local_services_p.Base.Conditions.{ltb, leb}
use neutron_local_services_p.Base.Equality.{Eq, ◌==◌, if◌then◌else◌}
use neutron_local_services_p.Base.Sorting.{Order}

pub le-total : (a b : ℕ) → leb a b ≡ false → leb b a ≡ true
le-total a b h = ground arith

pub le_trans : (a b c : ℕ) → leb a b ≡ true → leb b c ≡ true → leb a c ≡ true
le_trans a b c h k = ground arith

pub le_antisymm : (a b : ℕ) → leb a b ≡ true → leb b a ≡ true → a ≡ b
le_antisymm a b h k = ground arith

abbrev pub nat_order : Order ℕ
nat_order = record { le = leb; le_total = le-total; le_trans = le_trans; le_antisymm = le_antisymm }

-- `s <= t` on texts.
unfoldable pub text_le : String → String → Bool
text_le String.[] t = true
text_le (String.◌∷◌ c s) String.[] = false
text_le (String.◌∷◌ c s) (String.◌∷◌ d t) =
    let rest = text_le s t in
    if ltb (code c) (code d) then true else if ltb (code d) (code c) then false else rest

pub text_le-total : (s t : String) → text_le s t ≡ false → text_le t s ≡ true
unfolding text_le
text_le-total String.[] t h = cc
text_le-total (String.◌∷◌ c s) String.[] h = refl
text_le-total (String.◌∷◌ c s) (String.◌∷◌ d t) h = ground (arith, text_le-total s t)

pub text_le_trans : (s t u : String) → text_le s t ≡ true → text_le t u ≡ true → text_le s u ≡ true
unfolding text_le
text_le_trans String.[] t u h k = refl
text_le_trans (String.◌∷◌ c s) String.[] u h k = cc
text_le_trans (String.◌∷◌ c s) (String.◌∷◌ d t) String.[] h k = cc
text_le_trans (String.◌∷◌ c s) (String.◌∷◌ d t) (String.◌∷◌ f u) h k =
    ground (arith, text_le_trans s t u)

pub text_le_antisymm : (s t : String) → text_le s t ≡ true → text_le t s ≡ true → s ≡ t
unfolding text_le
text_le_antisymm String.[] String.[] h k = refl
text_le_antisymm String.[] (String.◌∷◌ d t) h k = cc
text_le_antisymm (String.◌∷◌ c s) String.[] h k = cc
text_le_antisymm (String.◌∷◌ c s) (String.◌∷◌ d t) h k =
    ground (arith, text_le_antisymm s t, Char-path c d)

abbrev pub text_order : Order String
text_order = record {
  le = text_le;
  le_total = text_le-total;
  le_trans = text_le_trans;
  le_antisymm = text_le_antisymm;
}

-- Tuples compare by their first components, and by the second where these are equal.
module _ {ℓ κ} {A : Type ℓ} {B : Type κ} ⦃e : Eq A⦄ (o : Order A) (p : Order B) where
  pub pair_le : A × B → A × B → Bool
  pair_le (a, b) (c, d) = if a == c then p.le b d else o.le a c

  pub pair_le-total : (x y : A × B) → pair_le x y ≡ false → pair_le y x ≡ true
  unfolding pair_le
  pair_le-total (a, b) (c, d) h = ground (arith, o.le_total a c, p.le_total b d)

  pub pair_le_trans : (x y z : A × B) → pair_le x y ≡ true → pair_le y z ≡ true → pair_le x z ≡ true
  unfolding pair_le
  pair_le_trans (a, b) (c, d) (f, g) h k =
      ground (arith, o.le_trans a c f, p.le_trans b d g, o.le_antisymm a c)

  pub pair_le_antisymm : (x y : A × B) → pair_le x y ≡ true → pair_le y x ≡ true → x ≡ y
  unfolding pair_le
  pair_le_antisymm (a, b) (c, d) h k = ground (arith, o.le_antisymm a c, p.le_antisymm b d)

  unfoldable pub pair_order : Order (A × B)
  unfolding pair_le
  pair_order = record {
    le = pair_le;
    le_total = pair_le-total;
    le_trans = pair_le_trans;
    le_antisymm = pair_le_antisymm;
  }
