-- ===== src/Netns.antt =====
-- agent/netns.py: the names of a network's namespace and veth pair, and the two reconcilers of the
-- addresses on its namespace side, over the `ip_lib` of Neutron.
pub mod Partition
pub mod Reconcile
pub mod Lifecycle
pub mod Provision
use neutron_local_services_p.Base.{
  ℕ, zero, suc, ◌+◌, ◌-◌, ◌*◌, String, ◌<>◌, Bool, true, false, not, ◌&&◌, ◌||◌, Option, none, some,
  List, [], ◌∷◌, ◌==◌, string_eq, nat_eq, ltb, leb, if◌then◌else◌, contains, filter,
}
use Prim.Native.Char.{Char, code}
use neutron_local_services_p.Base.Text.{substring_of, take_chars}
use neutron_local_services_p.Base.Sets.{SetOrder}
use neutron_local_services_p.Constants.{netns_prefix}

-- What the code uses of `neutron.agent.linux.ip_lib`, for calls that do not raise.
pub record IpLib : Type 1 where
  pub State : Type 0
  pub namespace_exists : String → State → Bool
  -- a device in a namespace, the addresses on it, and the two changes of them
  pub device_exists : String → String → State → Bool
  pub addresses : String → String → State → List String
  pub delete_multiple : String → String → List String → State → State
  pub add_multiple : String → String → List String → State → State

unfoldable pub is_ipv4 : String → Bool
unfolding substring_of
is_ipv4 cidr = not (substring_of ":" cidr)

-- `cidr.rsplit('/', 1)[1]`, or `none` without a slash.
unfoldable pub after_slash : String → Option String
after_slash String.[] = none
after_slash (String.◌∷◌ c s) =
    let rest = after_slash s in
    elim rest [ some t ↦ some t | none ↦ if code c == 47 then some s else none ]

-- The value of a digit.
abbrev pub digit : Char → Option ℕ
digit c = if leb 48 (code c) && leb (code c) 57 then some (code c - 48) else none

-- Digits after those that make up `acc`.
unfoldable pub digits_from : ℕ → String → Option ℕ
digits_from acc String.[] = some acc
digits_from acc (String.◌∷◌ c s) = elim (digit c) [
  | none ↦ none
  | some n ↦ digits_from (acc * 10 + n) s
]

-- `int(text)`, `none` for its `ValueError`. Of what `int` reads, only plain digits: a prefix length
-- is written so.
unfoldable pub parse_int : String → Option ℕ
unfolding digits_from
parse_int String.[] = none
parse_int (String.◌∷◌ c s) = digits_from 0 (String.◌∷◌ c s)

unfoldable pub is_on_subnet_cidr : String → Bool
unfolding is_ipv4 after_slash parse_int
is_on_subnet_cidr cidr = is_ipv4 cidr && elim (after_slash cidr) [
  | none ↦ false
  | some text ↦ elim (parse_int text) [ none ↦ false | some prefix ↦ ltb prefix 32 ]
]

-- `cidr.endswith(suffix)`
unfoldable pub ends_with : String → String → Bool
ends_with suffix String.[] = String.[] == suffix
ends_with suffix (String.◌∷◌ c s) = String.◌∷◌ c s == suffix || ends_with suffix s

unfoldable pub is_vip_cidr : String → Bool
unfolding is_ipv4 ends_with
is_vip_cidr cidr = is_ipv4 cidr && ends_with "/32" cidr

unfoldable pub netns_name : String → String
netns_name network_id = netns_prefix <> network_id

unfoldable pub veth_names : String → String × String
unfolding take_chars
veth_names network_id =
    let short = take_chars 10 network_id in ("tls" <> (short <> "0"), "tls" <> (short <> "1"))

-- `a - b` on sets.
abbrev pub minus : List String → List String → List String
minus xs ys = filter (λ c. not (contains ys c)) xs

module _ (L : IpLib) (order : SetOrder String) (ns dev : String) where
  abbrev delete_any : List String → L.State → L.State
  delete_any [] s = s
  delete_any (c ∷ cs) s = L.delete_multiple ns dev (c ∷ cs) s

  abbrev add_any : List String → L.State → L.State
  add_any [] s = s
  add_any (c ∷ cs) s = L.add_multiple ns dev (c ∷ cs) s

  -- From the addresses that pass the filter to the desired ones that pass it.
  unfoldable pub update_addresses : (String → Bool) → List String → L.State → L.State
  update_addresses passes wanted s =
      let current = filter passes (L.addresses ns dev s) in
      let desired = filter passes wanted in
      add_any (order.visit (minus desired current))
        (delete_any (order.visit (minus current desired)) s)

module _ (L : IpLib) (order : SetOrder String) where
  -- The part of `provision` that sets the addresses of the localport's own subnets.
  unfoldable pub provision_addresses : String → List String → L.State → L.State
  unfolding update_addresses is_on_subnet_cidr netns_name veth_names
  provision_addresses network_id ipv4_cidrs s =
      update_addresses L order (netns_name network_id) (veth_names network_id).1 is_on_subnet_cidr
        ipv4_cidrs s

  unfoldable pub reconcile_vips :
      String → List String → L.State → (List String × List String) × L.State
  unfolding update_addresses is_vip_cidr netns_name veth_names
  reconcile_vips network_id desired_vips s =
      let ns = netns_name network_id in
      let dev = (veth_names network_id).1 in
      if not (L.namespace_exists ns s)
      then (([], []), s)
      else if not (L.device_exists dev ns s)
      then (([], []), s)
      else (let desired = filter is_vip_cidr desired_vips in
          let current = filter is_vip_cidr (L.addresses ns dev s) in
          (
            (minus desired current, minus current desired),
            update_addresses L order ns dev is_vip_cidr desired_vips s,
          ))
