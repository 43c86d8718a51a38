-- ===== src/Db/Vip.antt =====
-- `_ip_in_any_cidr`, `_validate_vip` and `_validate_service_payload`, over netaddr and the two
-- options `allowed_vip_cidrs` and `vip_denylist`.
use neutron_local_services_p.Base.{
  String, ◌<>◌, Bool, true, false, not, ◌||◌, Option, none, some, List, [], ◌∷◌, ◌==◌, nat_eq,
  string_eq, if◌then◌else◌, contains, truthy,
}
use neutron_local_services_p.Netaddr.{Netaddr}
use neutron_local_services_p.Errors.{Result, ok, err, invalid_input, ◌>>◌, require}

pub record VipOptions : Type 0 where
  pub allowed_vip_cidrs : List String
  pub vip_denylist : List String

abbrev join : List String → String
join [] = ""
join (s ∷ []) = s
join (s ∷ t ∷ rest) = s <> ", " <> join (t ∷ rest)

unfoldable pub has_vip : Option String → Option String → Bool
has_vip local_ipv4 local_ipv6 = elim (truthy local_ipv4) [
  | some _ ↦ true
  | none ↦ elim (truthy local_ipv6) [ some _ ↦ true | none ↦ false ]
]

module _ (N : Netaddr) where
  -- A malformed CIDR is skipped, and so is one of the other IP version.
  unfoldable pub ip_in_any_cidr : N.Address → List String → Bool
  ip_in_any_cidr ip [] = false
  ip_in_any_cidr ip (c ∷ cidrs) =
      let rest = ip_in_any_cidr ip cidrs in
      elim (N.parse_network c) [
        | none ↦ rest
        | some net ↦
            if not (N.address_version ip == N.network_version net)
            then rest
            else if N.within ip net
            then true
            else rest
      ]

  unfoldable pub is_junk : N.Address → Bool
  is_junk ip =
      N.value ip == 0
      || N.is_loopback ip
      || N.is_multicast ip
      || N.is_reserved ip
      || N.is_netmask ip
      || N.is_hostmask ip

  -- The checks on an address that parses.
  unfoldable pub validate_address : VipOptions → String → N.Address → Result (Unit {0})
  unfolding is_junk ip_in_any_cidr
  validate_address conf addr ip =
      if is_junk ip
      then err (invalid_input ("VIP " <> addr <> " is not a valid unicast address"))
      else if not (ip_in_any_cidr ip conf.allowed_vip_cidrs)
      then err (
          invalid_input (
            "VIP "
            <> addr
            <> " is not inside any allowed_vip_cidrs entry ("
            <> join conf.allowed_vip_cidrs
            <> ")"))
      else if contains conf.vip_denylist (N.print_address ip)
      then err (invalid_input ("VIP " <> addr <> " is in the configured denylist"))
      else ok tt

  unfoldable pub validate_vip : VipOptions → Option String → Result (Unit {0})
  unfolding validate_address
  validate_vip conf none = ok tt
  validate_vip conf (some addr) = elim (N.parse_address addr) [
    | none ↦ err (invalid_input ("invalid IP address: " <> addr))
    | some ip ↦ validate_address conf addr ip
  ]

  unfoldable pub validate_service_payload :
      VipOptions → Option String → Option String → Result (Unit {0})
  unfolding validate_vip has_vip
  validate_service_payload conf local_ipv4 local_ipv6 = do
    require (has_vip local_ipv4 local_ipv6)
        (invalid_input "at least one of local_ipv4 or local_ipv6 must be provided")
    validate_vip conf local_ipv4
    validate_vip conf local_ipv6
