-- ===== src/Netns/Partition.antt =====
-- No address is managed by both reconcilers.
use neutron_local_services_p.Base.{
  String, ◌≡◌, refl, subst, sym, true, false, some, string_eq, nat_eq, arith, inl, inr, Bool-cases,
}
use neutron_local_services_p.Netns.{
  is_ipv4, after_slash, digits_from, parse_int, is_on_subnet_cidr, ends_with, is_vip_cidr,
}

after_slash-vip : (s : String) → ends_with "/32" s ≡ true → after_slash s ≡ some "32"
unfolding ends_with after_slash string_eq nat_eq
after_slash-vip String.[] h = cc
after_slash-vip (String.◌∷◌ c s) h = elim (string_eq.dec (String.◌∷◌ c s) "/32") [
  | yes p ↦ subst (λ t. after_slash t ≡ some "32") (sym p) refl
  | no p ↦ rw (after_slash-vip s (ground arith)) refl
]

-- A /32 is a VIP and never an address of the localport's subnet.
pub vip_not_on_subnet : (cidr : String) → is_vip_cidr cidr ≡ true → is_on_subnet_cidr cidr ≡ false
unfolding is_vip_cidr is_on_subnet_cidr parse_int digits_from nat_eq
vip_not_on_subnet cidr h = elim (Bool-cases (is_ipv4 cidr)) [
  | inl e ↦ rw (e, after_slash-vip cidr (ground arith)) refl
  | inr e ↦ rw e refl
]
