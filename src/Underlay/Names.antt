-- ===== src/Underlay/Names.antt =====
-- The names that are derived from a network's id.

use neutron_local_services_p.Base.{String, ◌<>◌}
use neutron_local_services_p.Base.Text.{take_chars}
use neutron_local_services_p.Constants.{
  underlay_veth_prefix, underlay_veth_net_len, underlay_per_net_chain_prefix,
}

unfoldable pub underlay_veth_names : String → String × String
underlay_veth_names network_id =
    let short = take_chars underlay_veth_net_len network_id in
    (underlay_veth_prefix <> (short <> "0"), underlay_veth_prefix <> (short <> "1"))

unfoldable pub per_net_chain_name : String → String
per_net_chain_name network_id =
    underlay_per_net_chain_prefix <> take_chars underlay_veth_net_len network_id
