-- ===== src/Constants.antt =====
-- constants.py: the strings on which the plugin and the agent agree.
use neutron_local_services_p.Base.{ℕ, String, ◌<>◌, List, [], ◌∷◌}

abbrev pub device_id_marker : String
device_id_marker = "localsvc-"

abbrev pub device_id_prefix : String
device_id_prefix = "ovn-lb-hm-" <> device_id_marker

abbrev pub netns_prefix : String
netns_prefix = "localsvc-"

abbrev pub attach_opt_in : String
attach_opt_in = "opt-in"

abbrev pub attach_opt_out : String
attach_opt_out = "opt-out"

abbrev pub dist_round_robin : String
dist_round_robin = "round-robin"

abbrev pub dist_least_connection : String
dist_least_connection = "least-connection"

abbrev pub dist_active_backup : String
dist_active_backup = "active-backup"

abbrev pub hc_none : String
hc_none = "none"

abbrev pub hc_http : String
hc_http = "http"

abbrev pub hc_https : String
hc_https = "https"

abbrev pub hc_tcp : String
hc_tcp = "tcp"

abbrev pub hc_dns : String
hc_dns = "dns"

abbrev pub hc_ntp : String
hc_ntp = "ntp"

abbrev pub exposure_nat : String
exposure_nat = "nat"

abbrev pub exposure_proxy : String
exposure_proxy = "proxy"

abbrev pub exposure_plugins : List String
exposure_plugins = exposure_nat ∷ exposure_proxy ∷ []

abbrev pub proto_tcp : String
proto_tcp = "tcp"

abbrev pub proto_udp : String
proto_udp = "udp"

abbrev pub proto_tcp_udp : String
proto_tcp_udp = "tcp-udp"

abbrev pub underlay_veth_prefix : String
underlay_veth_prefix = "nls"

abbrev pub underlay_veth_net_len : ℕ
underlay_veth_net_len = 10

abbrev pub underlay_host_chain : String
underlay_host_chain = "NEUTRON_LOCAL_SVC_UNDERLAY"

abbrev pub underlay_per_net_chain_prefix : String
underlay_per_net_chain_prefix = "NLS_UND_"
