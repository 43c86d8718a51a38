-- ===== src/Proxy.antt =====
-- agent/plugins/proxy.py: the entries of the catalog that the proxy's worker reads. Catalog is the
-- file and how the passes write it, Worker what the plugin and the worker tell each other.
pub mod Entries
pub mod Catalog
pub mod Socket
pub mod Secrets
pub mod Worker
use neutron_local_services_p.Base.{
  ℕ, zero, suc, String, Bool, true, false, not, Option, none, some, List, [], ◌∷◌, ◌++◌, ◌==◌,
  string_eq, if◌then◌else◌, filter, truthy, nonzero, default_true,
}
use neutron_local_services_p.Constants.{
  dist_least_connection, proto_tcp, proto_udp, proto_tcp_udp, hc_none, hc_http, hc_https, hc_tcp,
  hc_dns, hc_ntp,
}
use neutron_local_services_p.Records.{Backend, AttachedService}

pub data HealthCheck : Type 0 where
  no_check tcp_connect udp_dns_query udp_ntp_query : HealthCheck
  http_get https_get : String → HealthCheck

unfoldable pub hc_for_service : AttachedService → HealthCheck
hc_for_service svc = elim (truthy svc.health_check_type) [
  | none ↦ no_check
  | some hc_type ↦
      if hc_type == hc_none
      then no_check
      else if hc_type == hc_tcp
      then tcp_connect
      else if hc_type == hc_http
      then http_get "/"
      else if hc_type == hc_https
      then https_get "/"
      else if hc_type == hc_dns
      then udp_dns_query
      else if hc_type == hc_ntp
      then udp_ntp_query
      else no_check
]

unfoldable pub expand_protocols : AttachedService → List String
expand_protocols svc = elim svc.protocol [
  | none ↦ []
  | some proto ↦
      if proto == proto_tcp_udp
      then proto_tcp ∷ proto_udp ∷ []
      else if proto == proto_tcp
      then proto ∷ []
      else if proto == proto_udp
      then proto ∷ []
      else []
]

-- `_LB_ALGO.get(svc.get('distribution_policy') or lsc.DIST_ROUND_ROBIN, 'wrr')`
unfoldable pub lb_algo : AttachedService → String
lb_algo svc = elim (truthy svc.distribution_policy) [
  | none ↦ "wrr"
  | some policy ↦ if policy == dist_least_connection then "least_conn" else "wrr"
]

pub record Target : Type 0 where
  pub addr : String
  pub port : ℕ
  pub weight : ℕ

-- The two limits, which are constants, are left out.
pub record Entry : Type 0 where
  pub net_id : String
  pub service_id : String
  pub nonce : String
  pub nonce_path : String
  pub vip : String
  pub port : ℕ
  pub proto : String
  pub backends : List Target
  pub health_check : HealthCheck
  pub lb_algo : String

abbrev weight_of : Option ℕ → ℕ
weight_of none = 1
weight_of (some zero) = 1
weight_of (some (suc w)) = suc w

-- What one backend adds to the entry.
unfoldable pub target_of : Backend → List Target
target_of b = if not (default_true b.enabled) then [] else elim (truthy b.address) [
  | none ↦ []
  | some addr ↦ elim (nonzero b.port) [
    | none ↦ []
    | some port ↦ record { addr = addr; port = port; weight = weight_of b.weight } ∷ []
  ]
]

unfoldable pub targets : List Backend → List Target
unfolding target_of
targets [] = []
targets (b ∷ backends) = target_of b ++ targets backends

-- The file and the contents of a network's nonce.
pub record Nonce : Type 0 where
  pub path : String
  pub contents : String

module _ (network_id : String) (n : Nonce) where
  unfoldable pub entry_for : AttachedService → String → ℕ → String → Entry
  unfolding targets hc_for_service lb_algo
  entry_for svc vip port proto = record {
    net_id = network_id;
    service_id = svc.id;
    nonce = n.contents;
    nonce_path = n.path;
    vip = vip;
    port = port;
    proto = proto;
    backends = targets svc.backends;
    health_check = hc_for_service svc;
    lb_algo = lb_algo svc;
  }

  unfoldable pub entries_over : AttachedService → String → ℕ → List String → List Entry
  unfolding entry_for
  entries_over svc vip port [] = []
  entries_over svc vip port (proto ∷ protos) =
      entry_for svc vip port proto ∷ entries_over svc vip port protos

  abbrev pub enabled_backends : AttachedService → List Backend
  enabled_backends svc = filter (λ b. default_true b.enabled) svc.backends

  -- A service without an enabled backend is skipped.
  unfoldable pub with_backends : AttachedService → String → ℕ → List Backend → List Entry
  unfolding entries_over expand_protocols
  with_backends svc vip port [] = []
  with_backends svc vip port (b ∷ backends) = entries_over svc vip port (expand_protocols svc)

  unfoldable pub service_entries : AttachedService → List Entry
  unfolding with_backends
  service_entries svc =
      if not (default_true svc.enabled) then [] else elim (truthy svc.local_ipv4) [
        | none ↦ []
        | some vip ↦ elim (nonzero svc.port) [
          | none ↦ []
          | some port ↦ with_backends svc vip port (enabled_backends svc)
        ]
      ]

  -- The loop of `_apply_locked`.
  unfoldable pub entries_for : List AttachedService → List Entry
  unfolding service_entries
  entries_for [] = []
  entries_for (svc ∷ services) = service_entries svc ++ entries_for services
