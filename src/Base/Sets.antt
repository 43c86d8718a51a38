-- ===== src/Base/Sets.antt =====
-- Python sets that the code iterates over. The language leaves the order open, so the walk is a
-- parameter: any enumeration without repetition of the members.
use mathlib.Core.Path.{◌≡◌}
use mathlib.Core.List.{List}
use neutron_local_services_p.Base.Equality.{Eq, contains}
use neutron_local_services_p.Base.Lists.{Nodup, dedup, contains-dedup, dedup-Nodup}

-- The order in which `for x in set(xs)` visits the members.
pub record SetOrder {ℓ} (A : Type ℓ) ⦃e : Eq A⦄ : Type ℓ where
  pub visit : List A → List A
  pub contains-visit : (xs : List A) (a : A) → contains (visit xs) a ≡ contains xs a
  pub visit-Nodup : (xs : List A) → Nodup (visit xs)

-- One such order: that of last insertion.
abbrev pub by_insertion {ℓ} : {A : Type ℓ} ⦃e : Eq A⦄ → SetOrder A
by_insertion = record { visit = dedup; contains-visit = contains-dedup; visit-Nodup = dedup-Nodup }
