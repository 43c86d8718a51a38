-- ===== src/Netns/Reconcile.antt =====
-- Which addresses are on the device after each reconciler, over an `ip_lib` that adds and deletes
-- what it is told to.
use neutron_local_services_p.Base.{
  String, ◌≡◌, refl, ◌∙◌, Bool, true, false, not, ◌&&◌, ◌||◌, List, [], ◌∷◌, string_eq,
  if◌then◌else◌, contains, contains-filter, filter, arith,
}
use neutron_local_services_p.Base.Sets.{SetOrder}
use neutron_local_services_p.Netns.{
  IpLib, is_on_subnet_cidr, is_vip_cidr, netns_name, veth_names, minus, update_addresses,
  provision_addresses, reconcile_vips, delete_any, add_any,
}
use neutron_local_services_p.Netns.Partition.{vip_not_on_subnet}

-- What `ip_lib` documents of the two changes, for a device in a namespace.
pub record IsLawful (L : IpLib) (ns dev : String) : Type 0 where
  pub contains-delete :
      (xs : List String) (s : L.State) (c : String)
      → contains (L.addresses ns dev (L.delete_multiple ns dev xs s)) c
        ≡ (contains (L.addresses ns dev s) c && not (contains xs c))
  pub contains-add :
      (xs : List String) (s : L.State) (c : String)
      → contains (L.addresses ns dev (L.add_multiple ns dev xs s)) c
        ≡ (contains (L.addresses ns dev s) c || contains xs c)

module _ (L : IpLib) (order : SetOrder String) (ns dev : String) (lawful : IsLawful L ns dev) where
  contains-delete_any :
      (xs : List String) (s : L.State) (c : String)
      → contains (L.addresses ns dev (delete_any L order ns dev xs s)) c
        ≡ (contains (L.addresses ns dev s) c && not (contains xs c))
  contains-delete_any [] s c = ground arith
  contains-delete_any (x ∷ xs) s c = lawful.contains-delete (x ∷ xs) s c

  contains-add_any :
      (xs : List String) (s : L.State) (c : String)
      → contains (L.addresses ns dev (add_any L order ns dev xs s)) c
        ≡ (contains (L.addresses ns dev s) c || contains xs c)
  contains-add_any [] s c = ground arith
  contains-add_any (x ∷ xs) s c = lawful.contains-add (x ∷ xs) s c

  diff_law :
      (p old new : Bool)
      → ((old && not ((old && p) && not (new && p))) || ((new && p) && not (old && p)))
        ≡ (if p then new else old)
  diff_law true true true = refl
  diff_law true true false = refl
  diff_law true false true = refl
  diff_law true false false = refl
  diff_law false true true = refl
  diff_law false true false = refl
  diff_law false false true = refl
  diff_law false false false = refl

  contains-visit_minus :
      (passes : String → Bool) (xs ys : List String) (c : String)
      → contains (order.visit (minus (filter passes xs) (filter passes ys))) c
        ≡ ((contains xs c && passes c) && not (contains ys c && passes c))
  contains-visit_minus passes xs ys c =
      rw (order.contains-visit, contains-filter)
        (rw (contains-filter passes xs c, contains-filter passes ys c) refl)

  contains-update :
      (passes : String → Bool) (wanted : List String) (s : L.State) (c : String)
      → contains (L.addresses ns dev (update_addresses L order ns dev passes wanted s)) c
        ≡ (if passes c then contains wanted c else contains (L.addresses ns dev s) c)
  unfolding update_addresses
  contains-update passes wanted s c =
      rw
        (
          contains-add_any,
          contains-delete_any,
          contains-visit_minus passes wanted (L.addresses ns dev s) c,
          contains-visit_minus passes (L.addresses ns dev s) wanted c,
        )
        (diff_law (passes c) (contains (L.addresses ns dev s) c) (contains wanted c))

swap_law :
    (vip sub a b d : Bool)
    → (vip ≡ true → sub ≡ false)
    → (if sub then a else if vip then b else d) ≡ (if vip then b else if sub then a else d)
swap_law true true a b d h = absurd (absurd_of (h refl))
  where
    absurd_of : true ≡ false → ⊥
    absurd_of e = cc
swap_law true false a b d h = refl
swap_law false sub a b d h = refl

module _ (L : IpLib) (order : SetOrder String) (network_id : String) where
  abbrev pub ns : String
  ns = netns_name network_id

  abbrev pub dev : String
  dev = (veth_names network_id).1

  -- The namespace and its end of the veth pair are there.
  abbrev pub IsUp : L.State → Type 0
  IsUp s = (L.namespace_exists ns s ≡ true) × (L.device_exists dev ns s ≡ true)

  reconcile_vips_up :
      (vips : List String) (s : L.State)
      → IsUp s
      → (reconcile_vips L order network_id vips s).1
        ≡ update_addresses L order ns dev is_vip_cidr vips s
  unfolding reconcile_vips
  reconcile_vips_up vips s (n, d) = rw (n, d) refl

  -- If the namespace and the device are there, the VIPs on the device are the desired ones
  -- afterwards, and every other address is as it was.
  pub contains-reconcile_vips :
      (vips : List String) (s : L.State) (c : String)
      → IsLawful L ns dev
      → IsUp s
      → contains (L.addresses ns dev (reconcile_vips L order network_id vips s).1) c
        ≡ (if is_vip_cidr c then contains vips c else contains (L.addresses ns dev s) c)
  contains-reconcile_vips vips s c lawful up =
      rw (reconcile_vips_up vips s up) (contains-update L order ns dev lawful is_vip_cidr vips s c)

  -- The addresses in a subnet are the desired ones after `provision` has set them.
  pub contains-provision :
      (cidrs : List String) (s : L.State) (c : String)
      → IsLawful L ns dev
      → contains (L.addresses ns dev (provision_addresses L order network_id cidrs s)) c
        ≡ (if is_on_subnet_cidr c then contains cidrs c else contains (L.addresses ns dev s) c)
  unfolding provision_addresses
  contains-provision cidrs s c lawful =
      contains-update L order ns dev lawful is_on_subnet_cidr cidrs s c

  -- The two reconcilers do not undo one another: whichever of them runs last, the VIPs are the
  -- desired VIPs, the addresses in a subnet are the desired ones, and the rest is as it was.
  pub reconcilers_independent :
      (cidrs vips : List String) (s : L.State) (c : String)
      → IsLawful L ns dev
      → IsUp s
      → IsUp (provision_addresses L order network_id cidrs s)
      → let both =
          if is_vip_cidr c
          then contains vips c
          else if is_on_subnet_cidr c
          then contains cidrs c
          else contains (L.addresses ns dev s) c in
        (contains
            (L.addresses ns dev
              (reconcile_vips L order network_id vips
                (provision_addresses L order network_id cidrs s)).1)
            c
          ≡ both)
        × (contains
              (L.addresses ns dev (
                provision_addresses L order network_id cidrs
                  (reconcile_vips L order network_id vips s).1))
              c
            ≡ both)
  reconcilers_independent cidrs vips s c lawful up still = (
    contains-reconcile_vips vips _ c lawful still ∙ rw (contains-provision cidrs s c lawful) refl,
    contains-provision cidrs _ c lawful
        ∙ rw (contains-reconcile_vips vips s c lawful up)
            (swap_law (is_vip_cidr c) (is_on_subnet_cidr c) _ _ _ (vip_not_on_subnet c)),
  )
