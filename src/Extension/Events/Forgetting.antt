-- ===== src/Extension/Events/Forgetting.antt =====
-- What the end of a localport leaves in the cache, and which network it is of.
use neutron_local_services_p.Base.{
  ℕ, String, ◌≡◌, refl, sym, ap, ◌∙◌, ◌<>◌, true, false, none, some, List, ◌==◌, string_eq, nat_eq,
  if◌then◌else◌, ==_refl, subst, arith,
}
use Prim.Native.Char.{Char}
use neutron_local_services_p.Constants.{device_id_prefix}
use text.Mathlib.TextLemmas.{cons-append}
use neutron_local_services_p.Base.Dict
use neutron_local_services_p.Base.Text.{
  substring_of, prefix_of, drop_prefix, split_after, prefix_of-append, drop_prefix-append,
}
use neutron_local_services_p.Registry.{fetch_error}
use neutron_local_services_p.Netns.Lifecycle.{Row}
use neutron_local_services_p.Localport.{device_id_for}
use neutron_local_services_p.Extension.{Effects, Cache, reconcile_network, forget_network}
use neutron_local_services_p.Extension.Events.{
  Parts, network_id_from_device_id, port_binding_deleted,
}

module _ {E : Effects} (P : Parts E) (plugins : List String) (row : Row) (s : Cache × E.World) where
  abbrev pub gone : Cache × E.World
  gone = port_binding_deleted P plugins row s

  -- After the localport of a network went away, a pass over that network whose fetch fails does
  -- nothing, whatever was cached before; the cached states of the other networks are still there.
  pub port_binding_deleted_forgets :
      (now : ℕ)
      → (reconcile_network E plugins now (network_id_from_device_id row.device_id) fetch_error gone
          ≡ gone)
        × ((other : String)
            → Dict.lookup other gone.0.state ≡ (
                if other == network_id_from_device_id row.device_id
                then none
                else Dict.lookup other s.0.state))
  unfolding port_binding_deleted forget_network reconcile_network
  port_binding_deleted_forgets now =
      let n = network_id_from_device_id row.device_id in
      let missing : Dict.lookup n (Dict.erase n s.0.state) ≡ none =
        rw (Dict.lookup-erase n n s.0.state, ==_refl n) refl in
      (ground (arith, missing), λ other. Dict.lookup-erase other n s.0.state)

abbrev marker : String
marker = "localsvc-"

split_here :
    (t : String) → prefix_of marker t ≡ true → split_after marker t ≡ some (drop_prefix marker t)
unfolding split_after
split_here String.[] h = ground arith
split_here (String.◌∷◌ c t) h = ground arith

split_later :
    (c : Char) (s t : String)
    → prefix_of marker (String.◌∷◌ c (s <> t)) ≡ false
    → split_after marker (String.◌∷◌ c s <> t) ≡ split_after marker (s <> t)
unfolding split_after
split_later c s t h = rw (cons-append c s t, h) refl

substring_here : (s t : String) → prefix_of s t ≡ true → substring_of s t ≡ true
unfolding substring_of
substring_here s String.[] h = h
substring_here s (String.◌∷◌ c t) h = ground arith

split_device_id : (n : String) → split_after marker ("ovn-lb-hm-localsvc-" <> n) ≡ some n
unfolding prefix_of string_eq nat_eq
split_device_id n =
    split_later "o" "vn-lb-hm-localsvc-" n refl
    ∙ split_later "v" "n-lb-hm-localsvc-" n refl
    ∙ split_later "n" "-lb-hm-localsvc-" n refl
    ∙ split_later "-" "lb-hm-localsvc-" n refl
    ∙ split_later "l" "b-hm-localsvc-" n (
        subst (λ t. prefix_of marker (String.◌∷◌ "l" t) ≡ false)
          (sym (cons-append "b" "-hm-localsvc-" n)) refl)
    ∙ split_later "b" "-hm-localsvc-" n refl
    ∙ split_later "-" "hm-localsvc-" n refl
    ∙ split_later "h" "m-localsvc-" n refl
    ∙ split_later "m" "-localsvc-" n refl
    ∙ split_later "-" "localsvc-" n refl
    ∙ split_here (marker <> n) (prefix_of-append marker n)
    ∙ ap some (drop_prefix-append marker n)

-- The device id that the server writes on a network's localport is read back as the network's id.
pub network_id_from_device_id-device_id_for :
    (network_id : String) → network_id_from_device_id (device_id_for network_id) ≡ network_id
unfolding network_id_from_device_id device_id_for
network_id_from_device_id-device_id_for network_id =
    rw
      (
        substring_here device_id_prefix (device_id_prefix <> network_id)
            (prefix_of-append device_id_prefix network_id),
        split_device_id network_id,
      )
      refl
