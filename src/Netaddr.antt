-- ===== src/Netaddr.antt =====
-- The third-party `netaddr` package, of which the code constructs addresses and networks, compares
-- versions, tests membership, and asks for a few classes of addresses. A constructor gives `none`
-- where it raises `AddrFormatError` or `ValueError`.
use neutron_local_services_p.Base.{ℕ, String, Bool, Option}

pub record Netaddr : Type 1 where
  pub Address : Type 0
  pub Network : Type 0
  pub parse_address : String → Option Address
  pub parse_network : String → Option Network
  pub address_version : Address → ℕ
  pub network_version : Network → ℕ
  -- `ip in net`
  pub within : Address → Network → Bool
  -- `int(ip)` and `str(ip)`
  pub value : Address → ℕ
  pub print_address : Address → String
  pub is_loopback : Address → Bool
  pub is_multicast : Address → Bool
  pub is_reserved : Address → Bool
  pub is_netmask : Address → Bool
  pub is_hostmask : Address → Bool
