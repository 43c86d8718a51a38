-- ===== src/Underlay/Provision.antt =====
-- `provision_for_network` and `teardown_for_network`: the veth pair, its addresses and routes, and
-- the rules around it. `dotted` prints an address.
use neutron_local_services_p.Base.{
  ℕ, String, ◌<>◌, Bool, true, false, not, Option, none, some, List, [], ◌∷◌, string_eq,
  if◌then◌else◌, contains,
}
use neutron_local_services_p.Base.Text.{take_chars}
use neutron_local_services_p.Constants.{netns_prefix, underlay_host_chain}
use neutron_local_services_p.Underlay.Names.{underlay_veth_names, per_net_chain_name}
use neutron_local_services_p.Underlay.Allocator.{Allocator, Result, ok, raise, addresses, free}
use neutron_local_services_p.Underlay.Firewall.{
  Kernel, Added, added, already_exists, add_failed, ◌>>>◌, iptables, drop_rule, ensure_chain,
  ensure_rule, delete_rule_if_present, iptables_chain_exists,
}

module _ (K : Kernel) where
  abbrev added_ok : Added × K.State → Bool × K.State
  added_ok (added, s) = (true, s)
  added_ok (already_exists, s) = (true, s)
  added_ok (add_failed, s) = (false, s)

  unfoldable pub ensure_addr : String → Option String → String → K.State → Bool × K.State
  ensure_addr dev netns cidr s =
      if contains (K.addresses dev netns s) cidr
      then (true, s)
      else added_ok (K.add_address dev netns cidr s)

  unfoldable pub ensure_default_route : String → String → K.State → Bool × K.State
  ensure_default_route netns gateway s =
      K.run (some netns) ("ip" ∷ "route" ∷ "replace" ∷ "default" ∷ "via" ∷ gateway ∷ []) s

  -- What the command raises is logged.
  unfoldable pub set_rp_filter : String → Option String → K.State → Bool × K.State
  set_rp_filter iface netns s = (
    true,
    (K.run netns ("sysctl" ∷ "-w" ∷ ("net.ipv4.conf." <> (iface <> ".rp_filter=1")) ∷ []) s).1,
  )

  abbrev via : String → String → List String → List String
  via from to rest = "-i" ∷ from ∷ "-o" ∷ to ∷ rest

  abbrev conntrack : String → List String
  conntrack states = "-m" ∷ "conntrack" ∷ "--ctstate" ∷ states ∷ "-j" ∷ "ACCEPT" ∷ []

  unfoldable pub install_in_netns_forward : String → String → String → K.State → Bool × K.State
  install_in_netns_forward netns tenant underlay s =
      ensure_rule K (some netns) "filter" "FORWARD"
        (via tenant underlay (conntrack "NEW,ESTABLISHED,RELATED")) s
      >>> ensure_rule K (some netns) "filter" "FORWARD" (via tenant underlay drop_rule)
      >>> ensure_rule K (some netns) "filter" "FORWARD"
          (via underlay tenant (conntrack "ESTABLISHED,RELATED"))
      >>> ensure_rule K (some netns) "filter" "FORWARD" (via underlay tenant drop_rule)

  -- The pair, unless the end in the namespace is there.
  unfoldable pub ensure_veth : String → String → String → K.State → Bool × K.State
  ensure_veth root_veth ns_veth ns_name s =
      let cleared =
        if K.device_exists root_veth none s then K.del_veth root_veth s else (true, s) in
      if K.device_exists ns_veth (some ns_name) s
      then (true, s)
      else (cleared >>> K.add_veth root_veth ns_veth ns_name)

  -- The part after the addresses are known.
  unfoldable pub plumb : String → String → String → K.State → Bool × K.State
  unfolding ensure_veth ensure_addr ensure_default_route set_rp_filter install_in_netns_forward
  plumb network_id host_ip ns_ip s =
      let ns_name = netns_prefix <> network_id in
      let root_veth = (underlay_veth_names network_id).0 in
      let ns_veth = (underlay_veth_names network_id).1 in
      let tenant_ns_veth = "tls" <> (take_chars 10 network_id <> "1") in
      let chain = per_net_chain_name network_id in
      ensure_veth root_veth ns_veth ns_name s
      >>> K.set_up root_veth none
      >>> K.set_up ns_veth (some ns_name)
      >>> ensure_addr root_veth none (host_ip <> "/30")
      >>> ensure_addr ns_veth (some ns_name) (ns_ip <> "/30")
      >>> ensure_default_route ns_name host_ip
      >>> set_rp_filter root_veth none
      >>> set_rp_filter ns_veth (some ns_name)
      >>> install_in_netns_forward ns_name tenant_ns_veth ns_veth
      >>> ensure_chain K none "filter" chain
      >>> ensure_rule K none "filter" chain drop_rule
      >>> ensure_rule K none "filter" underlay_host_chain ("-i" ∷ root_veth ∷ "-j" ∷ chain ∷ [])

  -- The kernel and the allocator after the call, and the addresses where it gives some. The call
  -- raises where its first component is `false`; `writable` says whether the allocator's file is.
  unfoldable pub addressed :
      (ℕ → String)
      → String
      → Result (ℕ × ℕ) × Allocator
      → K.State
      → Bool × (Option (ℕ × ℕ) × (K.State × Allocator))
  unfolding plumb
  addressed dotted network_id (raise e, a) s = (false, (none, (s, a)))
  addressed dotted network_id (ok (host_ip, ns_ip), a) s =
      let plumbed = plumb network_id (dotted host_ip) (dotted ns_ip) s in
      (plumbed.0, (some (host_ip, ns_ip), (plumbed.1, a)))

  unfoldable pub provision_for_network :
      (ℕ → String)
      → Bool
      → String
      → K.State × Allocator
      → Bool × (Option (ℕ × ℕ) × (K.State × Allocator))
  unfolding addressed
  provision_for_network dotted writable network_id (s, a) =
      if not (K.namespace_exists (netns_prefix <> network_id) s)
      then (true, (none, (s, a)))
      else addressed dotted network_id (addresses writable network_id a) s

  -- The chain goes if it is there; what that raises is logged.
  unfoldable pub remove_chain : String → K.State → K.State
  remove_chain chain s =
      let found = iptables_chain_exists K none "filter" chain s in
      let removed =
        K.run none (iptables "filter" "-F" chain []) found.1
        >>> K.run none (iptables "filter" "-X" chain []) in
      if found.0 then removed.1 else found.1

  unfoldable pub remove_veth : String → K.State → K.State
  remove_veth root_veth s =
      if K.device_exists root_veth none s then (K.del_veth root_veth s).1 else s

  unfoldable pub teardown_for_network :
      Bool → String → K.State × Allocator → Result (Unit {0}) × (K.State × Allocator)
  unfolding remove_chain remove_veth
  teardown_for_network writable network_id (s, a) =
      let root_veth = (underlay_veth_names network_id).0 in
      let chain = per_net_chain_name network_id in
      let unjumped =
        delete_rule_if_present K none "filter" underlay_host_chain
          ("-i" ∷ root_veth ∷ "-j" ∷ chain ∷ []) s in
      let freed = free writable network_id a in
      (freed.0, (remove_veth root_veth (remove_chain chain unjumped), freed.1))
