-- ===== src/Nat.antt =====
-- agent/plugins/nat.py: the configuration that the plugin renders for keepalived. Rendering is what
-- the text does and does not depend on, Lifecycle how the plugin runs keepalived.
pub mod Rendering
pub mod Lifecycle
use neutron_local_services_p.Base.{
  ℕ, String, ◌<>◌, Bool, true, false, not, Option, none, some, List, [], ◌∷◌, ◌++◌, ◌==◌, string_eq,
  if◌then◌else◌, filter, truthy, nonzero, or_else, default_true,
}
use neutron_local_services_p.Base.Text.{take_chars, decimal, join}
use neutron_local_services_p.Constants.{
  dist_round_robin, dist_least_connection, dist_active_backup, proto_tcp, proto_udp, proto_tcp_udp,
  hc_none, hc_http, hc_https, hc_tcp, hc_dns, hc_ntp,
}
use neutron_local_services_p.Records.{Backend, AttachedService}

-- `_LB_ALGO.get(svc.get('distribution_policy') or lsc.DIST_ROUND_ROBIN, 'wrr')`
unfoldable pub lb_algo : AttachedService → String
lb_algo svc = elim (truthy svc.distribution_policy) [
  | none ↦ "wrr"
  | some policy ↦ if policy == dist_least_connection then "wlc" else "wrr"
]

unfoldable pub expand_protocols : AttachedService → List String
expand_protocols svc = elim svc.protocol [
  | none ↦ []
  | some proto ↦
      if proto == proto_tcp_udp
      then proto_tcp ∷ proto_udp ∷ []
      else if proto == proto_tcp
      then proto ∷ []
      else if proto == proto_udp
      then proto ∷ []
      else []
]

unfoldable pub proto_keepalived : String → Option String
proto_keepalived proto =
    if proto == proto_tcp then some "TCP" else if proto == proto_udp then some "UDP" else none

abbrev text_of : Option String → String
text_of none = "None"
text_of (some s) = s

abbrev port_text : Option ℕ → String
port_text none = ""
port_text (some n) = decimal n

-- The three checks that keepalived makes itself, without the last newline, which is stripped.
unfoldable pub native_check : String → String → String → String → String
native_check kind url addr port =
    "        "
    <> (kind
        <> (" {\n"
            <> (url
                <> ("            connect_ip "
                    <> (addr
                        <> ("\n"
                            <> ("            connect_port "
                                <> (port
                                    <> ("\n"
                                        <> ("            connect_timeout 3\n"
                                            <> "        }"))))))))))

unfoldable pub misc_check : String → String → String → String
misc_check script addr port =
    "        MISC_CHECK {\n"
    <> ("            misc_path \""
        <> (script
            <> (" "
                <> (addr
                    <> (" "
                        <> (port
                            <> ("\"\n" <> ("            misc_timeout 3\n" <> "        }"))))))))

abbrev status_url : String
status_url = "            url { path / status_code 200 }\n"

-- `_CHECK_SCRIPT_NAMES`
unfoldable pub check_script_name : String → String
check_script_name hc_type = if hc_type == hc_dns then "check_dns.sh" else "check_ntp.sh"

-- `resolve` is `_resolve_check_script`, which looks for a script on the disk.
module _ (resolve : String → Option String) where
  unfoldable pub script_check : String → String → String → String
  unfolding misc_check check_script_name
  script_check hc_type addr port = elim (truthy (resolve (check_script_name hc_type))) [
    | none ↦ ""
    | some script ↦ misc_check script addr port
  ]

  unfoldable pub check_of : String → String → String → String
  unfolding native_check script_check
  check_of hc_type addr port =
      if hc_type == hc_none
      then ""
      else if hc_type == hc_tcp
      then native_check "TCP_CHECK" "" addr port
      else if hc_type == hc_http
      then native_check "HTTP_GET" status_url addr port
      else if hc_type == hc_https
      then native_check "SSL_GET" status_url addr port
      else if hc_type == hc_dns
      then script_check hc_type addr port
      else if hc_type == hc_ntp
      then script_check hc_type addr port
      else ""

  -- The text is taken without its trailing newline, as the caller strips it.
  unfoldable pub render_health_check : AttachedService → Backend → String
  unfolding check_of
  render_health_check svc backend = elim (truthy svc.health_check_type) [
    | none ↦ ""
    | some hc_type ↦
        check_of hc_type (text_of (or_else (truthy backend.health_check_address) backend.address))
          (port_text (or_else (nonzero backend.health_check_port) backend.port))
  ]

  -- `none` is a weight that is not set.
  abbrev weight_of : Option ℕ → ℕ
  weight_of none = 1
  weight_of (some w) = w

  -- The lines of one backend, none where it lacks an address or a port.
  unfoldable pub real_server : AttachedService → Backend → List String
  unfolding render_health_check
  real_server svc b = elim (truthy b.address) [
    | none ↦ []
    | some addr ↦ elim (nonzero b.port) [
      | none ↦ []
      | some port ↦
          ("    real_server " <> (addr <> (" " <> (decimal port <> " {"))))
          ∷ ("        weight " <> decimal (weight_of b.weight))
          ∷ render_health_check svc b
          ∷ "    }"
          ∷ []
    ]
  ]

  unfoldable pub real_servers : AttachedService → List Backend → List String
  unfolding real_server
  real_servers svc [] = []
  real_servers svc (b ∷ backends) = real_server svc b ++ real_servers svc backends

  unfoldable pub virtual_server : AttachedService → String → ℕ → String → String
  unfolding real_servers lb_algo
  virtual_server svc vip port kp_proto =
      join "\n" (
        ("virtual_server " <> (vip <> (" " <> (decimal port <> " {"))))
        ∷ "    delay_loop 6"
        ∷ ("    lb_algo " <> lb_algo svc)
        ∷ "    lb_kind NAT"
        ∷ ("    protocol " <> kp_proto)
        ∷ ("    # service: " <> (svc.name <> (" (" <> (svc.id <> ")"))))
        ∷ (real_servers svc (filter (λ b. default_true b.enabled) svc.backends) ++ "}" ∷ []))
      <> "\n"

  -- The inner loop, over the protocols.
  unfoldable pub protocol_blocks : AttachedService → String → ℕ → List String → List String
  unfolding virtual_server proto_keepalived
  protocol_blocks svc vip port [] = []
  protocol_blocks svc vip port (proto ∷ protos) =
      let rest = protocol_blocks svc vip port protos in
      elim (proto_keepalived proto) [
        | none ↦ rest
        | some kp_proto ↦ virtual_server svc vip port kp_proto ∷ rest
      ]

  -- What one service adds to the blocks.
  unfoldable pub service_blocks : AttachedService → List String
  unfolding protocol_blocks expand_protocols
  service_blocks svc = if not (default_true svc.enabled) then [] else elim (truthy svc.local_ipv4) [
    | none ↦ []
    | some vip ↦ elim (nonzero svc.port) [
      | none ↦ []
      | some port ↦ protocol_blocks svc vip port (expand_protocols svc)
    ]
  ]

  unfoldable pub blocks : List AttachedService → List String
  unfolding service_blocks
  blocks [] = []
  blocks (svc ∷ services) = service_blocks svc ++ blocks services

  unfoldable pub global_defs : String → String
  global_defs network_id =
      "global_defs {\n"
      <> ("    router_id ls-"
          <> (take_chars 8 network_id
              <> ("\n" <> ("    enable_script_security\n" <> ("    script_user root\n" <> "}\n")))))

  unfoldable pub render_keepalived_conf : String → List AttachedService → String
  unfolding blocks global_defs
  render_keepalived_conf network_id services = join "\n" (global_defs network_id ∷ blocks services)
