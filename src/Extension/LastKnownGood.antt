-- ===== src/Extension/LastKnownGood.antt =====
-- What a pass falls back on when the registry cannot be reached.
use neutron_local_services_p.Base.{
  ℕ, String, ◌≡◌, refl, true, ◌&&◌, Option, none, some, List, [], ◌∷◌, ◌==◌, string_eq,
  if◌then◌else◌, text_is_true, Bool-cases, Option-cases, inl, inr, arith,
}
use neutron_local_services_p.Base.Dict
use neutron_local_services_p.Records.{AttachedService}
use neutron_local_services_p.Registry.{Fetched, got, fetch_error, value_error}
use neutron_local_services_p.Extension.{Effects, Cache, forget_network, dispatch, reconcile_network}

-- What happens to the cache: a pass, at a time and with what its fetch gives, and the end of a
-- network on this chassis.
pub data Event : Type 0 where
  pass : ℕ → String → Fetched (List AttachedService) → Event
  forget : String → Event

-- The services of the latest fetch for the network that succeeded, since it was last forgotten. The
-- latest event stands first.
abbrev pub last_good : List Event → String → Option (List AttachedService)
last_good [] n = none
last_good (pass now m (got services) ∷ past) n =
    if n == m && text_is_true m then some services else last_good past n
last_good (pass now m fetch_error ∷ past) n = last_good past n
last_good (pass now m value_error ∷ past) n = last_good past n
last_good (forget m ∷ past) n = if n == m then none else last_good past n

abbrev pub empty_cache : Cache
empty_cache = record { state = []; ts = [] }

module _ (E : Effects) (plugins : List String) (start : E.World) where
  unfoldable pub after : List Event → Cache × E.World
  after [] = (empty_cache, start)
  after (pass now n fetched ∷ past) = reconcile_network E plugins now n fetched (after past)
  after (forget n ∷ past) = (forget_network n (after past).0, (after past).1)

  cached : (past : List Event) (n : String) → Dict.lookup n (after past).0.state ≡ last_good past n
  unfolding after reconcile_network forget_network
  cached [] n = Dict.lookup-nil n
  cached (pass now m (got services) ∷ past) n = elim (Bool-cases (text_is_true m)) [
    | inl e ↦ rw (e, Dict.lookup-insert) (ground (arith, cached past n))
    | inr e ↦ rw e (ground (arith, cached past n))
  ]
  cached (pass now m fetch_error ∷ past) n = elim (Bool-cases (text_is_true m)) [
    | inl e ↦ elim (Option-cases (Dict.lookup m (after past).0.state)) [
      | inl f ↦ rw (e, f) (cached past n)
      | inr (services, f) ↦ rw (e, f) (cached past n)
    ]
    | inr e ↦ rw e (cached past n)
  ]
  cached (pass now m value_error ∷ past) n = elim (Bool-cases (text_is_true m)) [
    | inl e ↦ rw e (cached past n)
    | inr e ↦ rw e (cached past n)
  ]
  cached (forget m ∷ past) n = rw Dict.lookup-erase (ground (arith, cached past n))

  -- What a pass with a failed fetch does after any history: with an earlier fetch that succeeded,
  -- it brings about what a pass with that fetch does, else nothing.
  abbrev pub fallback : List Event → String → Option (List AttachedService) → Cache × E.World
  fallback past n none = after past
  fallback past n (some services) = ((after past).0, dispatch E plugins n services (after past).1)

  -- After any sequence of passes and forgotten networks, a pass whose fetch raises
  -- `RegistryFetchError` does to the world what a pass with the latest good state of the network
  -- does, and nothing at all if there is none; the cache stays as it was.
  pub failed_fetch_falls_back :
      (past : List Event) (now : ℕ) (n : String)
      → text_is_true n ≡ true
      → reconcile_network E plugins now n fetch_error (after past)
        ≡ fallback past n (last_good past n)
  unfolding reconcile_network
  failed_fetch_falls_back past now n h = elim (Option-cases (Dict.lookup n (after past).0.state)) [
    | inl f ↦ rw⁻¹ (cached past n) (rw (h, f, reconcile_network) refl)
    | inr (services, f) ↦ rw⁻¹ (cached past n) (rw (h, f, reconcile_network) refl)
  ]
