-- ===== src/Underlay/Firewall.antt =====
-- The iptables part of agent/underlay.py: the helpers, the chassis-wide chain, and the destination
-- ACL of a network. A call returns, with `true`, or raises, and leaves some state of the kernel.
pub mod Acl
use neutron_local_services_p.Base.{
  ℕ, String, ◌<>◌, Bool, true, false, Option, none, some, List, [], ◌∷◌, ◌++◌, nat_eq, string_eq,
  Eq, String-discrete, ℕ_discrete, if◌then◌else◌, dedup,
}
use neutron_local_services_p.Base.Text.{decimal}
use neutron_local_services_p.Base.Sorting.{sort}
use neutron_local_services_p.Base.Orders.{text_order, nat_order, pair_order}
use neutron_local_services_p.Constants.{underlay_veth_prefix, underlay_host_chain}
use neutron_local_services_p.Records.{AttachedService}
use neutron_local_services_p.Underlay.Names.{per_net_chain_name}
use neutron_local_services_p.Underlay.Endpoints.{Endpoint, backend_endpoints}

-- What `dev.addr.add` does.
pub data Added : Type 0 where
  added already_exists add_failed : Added

-- Neutron's `ip_lib` and the commands, in a namespace or in the host's root namespace.
pub record Kernel : Type 1 where
  pub State : Type 0
  pub run : Option String → List String → State → Bool × State
  pub namespace_exists : String → State → Bool
  pub device_exists : String → Option String → State → Bool
  pub add_veth : String → String → String → State → Bool × State
  pub del_veth : String → State → Bool × State
  pub set_up : String → Option String → State → Bool × State
  pub addresses : String → Option String → State → List String
  pub add_address : String → Option String → String → State → Added × State

-- What follows a call that returned.
infixl 5 ◌>>>◌
abbrev pub ◌>>>◌ : {S : Type 0} → Bool × S → (S → Bool × S) → Bool × S
(true, s) >>> next = next s
(false, s) >>> next = (false, s)

abbrev pub iptables : String → String → String → List String → List String
iptables table mode chain args = "iptables" ∷ "-t" ∷ table ∷ mode ∷ chain ∷ args

abbrev pub drop_rule : List String
drop_rule = "-j" ∷ "DROP" ∷ []

-- The rule of one endpoint.
unfoldable pub accept_rule : Endpoint → List String
accept_rule (proto, (addr, port)) =
    "-d"
    ∷ addr
    ∷ "-p"
    ∷ proto
    ∷ "--dport"
    ∷ decimal port
    ∷ "-m"
    ∷ "conntrack"
    ∷ "--ctstate"
    ∷ "NEW"
    ∷ "-j"
    ∷ "ACCEPT"
    ∷ []

endpoint_dec : Discrete Endpoint
endpoint_dec = hlevel (String-discrete, ℕ_discrete)

instance pub endpoint_eq : Eq Endpoint
endpoint_eq = record { dec = endpoint_dec }

-- `sorted(set(endpoints))`
unfoldable pub sorted_set : List Endpoint → List Endpoint
sorted_set endpoints =
    sort ⦃e = endpoint_eq⦄ (pair_order text_order (pair_order text_order nat_order))
      (dedup ⦃e = endpoint_eq⦄ endpoints)

module _ (K : Kernel) where
  unfoldable pub iptables_chain_exists : Option String → String → String → K.State → Bool × K.State
  iptables_chain_exists netns table chain s =
      K.run netns ("iptables" ∷ "-t" ∷ table ∷ "-n" ∷ "-L" ∷ chain ∷ []) s

  unfoldable pub ensure_chain : Option String → String → String → K.State → Bool × K.State
  unfolding iptables_chain_exists
  ensure_chain netns table chain s =
      let found = iptables_chain_exists netns table chain s in
      if found.0 then found else K.run netns (iptables table "-N" chain []) found.1

  unfoldable pub ensure_rule :
      Option String → String → String → List String → K.State → Bool × K.State
  ensure_rule netns table chain rule_args s =
      let checked = K.run netns (iptables table "-C" chain rule_args) s in
      if checked.0 then checked else K.run netns (iptables table "-A" chain rule_args) checked.1

  unfoldable pub delete_rule_if_present :
      Option String → String → String → List String → K.State → K.State
  delete_rule_if_present netns table chain rule_args s =
      (K.run netns (iptables table "-D" chain rule_args) s).1

  abbrev any_veth : String
  any_veth = underlay_veth_prefix <> "+"

  unfoldable pub install_chassis_chain : String → K.State → Bool × K.State
  unfolding ensure_chain ensure_rule
  install_chassis_chain pool_cidr s =
      ensure_chain none "filter" underlay_host_chain s
      >>> ensure_rule none "filter" "FORWARD" ("-j" ∷ underlay_host_chain ∷ [])
      >>> ensure_rule none "filter" "INPUT" ("-i" ∷ any_veth ∷ "-j" ∷ underlay_host_chain ∷ [])
      >>> ensure_rule none "filter" underlay_host_chain
          ("-m" ∷ "conntrack" ∷ "--ctstate" ∷ "ESTABLISHED,RELATED" ∷ "-j" ∷ "ACCEPT" ∷ [])
      >>> ensure_rule none "filter" underlay_host_chain
          ("-i" ∷ any_veth ∷ "-o" ∷ any_veth ∷ "-j" ∷ "DROP" ∷ [])
      >>> ensure_rule none "nat" "POSTROUTING"
          ("-s" ∷ pool_cidr ∷ "!" ∷ "-o" ∷ any_veth ∷ "-j" ∷ "MASQUERADE" ∷ [])

  -- The loop over the endpoints.
  unfoldable pub append_accepts : String → List Endpoint → K.State → Bool × K.State
  unfolding accept_rule
  append_accepts chain [] s = (true, s)
  append_accepts chain (e ∷ endpoints) s =
      K.run none (iptables "filter" "-A" chain (accept_rule e)) s >>> append_accepts chain endpoints

  -- The chain is flushed, filled, and closed by a default DROP.
  unfoldable pub refill : String → List Endpoint → K.State → Bool × K.State
  unfolding append_accepts
  refill chain endpoints s =
      K.run none (iptables "filter" "-F" chain []) s
      >>> append_accepts chain endpoints
      >>> K.run none (iptables "filter" "-A" chain drop_rule)

  unfoldable pub reconcile_destination_acl :
      String → List AttachedService → K.State → Bool × K.State
  unfolding refill ensure_chain sorted_set
  reconcile_destination_acl network_id services s =
      let chain = per_net_chain_name network_id in
      ensure_chain none "filter" chain s >>> λ s'. elim (backend_endpoints services) [
        | none ↦ (false, s')
        | some endpoints ↦ refill chain (sorted_set endpoints) s'
      ]
