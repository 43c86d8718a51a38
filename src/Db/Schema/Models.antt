-- ===== src/Db/Schema/Models.antt =====
-- The classes of db/models.py, over the columns that the classes of neutron_lib bring.
use neutron_local_services_p.Base.{true, false, some, [], ◌∷◌, ◌++◌}
use neutron_local_services_p.Api.{protocols, attach_policies, distribution_policies, hc_types}
use neutron_local_services_p.Constants.{
  attach_opt_in, dist_round_robin, hc_none, exposure_nat, exposure_plugins,
}
use neutron_local_services_p.Db.Schema.{
  varchar, long_text, integer, boolean, enum, flag, Table, plain, needed, preset, owner, Mixins,
}

abbrev pub local_service : Mixins → Table
local_service mixins = record {
  columns =
      mixins.has_standard_attributes
      ++ mixins.has_id
      ++ mixins.has_project
      ++ ("name", needed (varchar 64))
        ∷ ("description", plain (varchar 255))
        ∷ ("local_ipv4", plain (varchar 64))
        ∷ ("local_ipv6", plain (varchar 64))
        ∷ ("protocol", needed (enum protocols))
        ∷ ("port", needed integer)
        ∷ ("attachment_policy", preset (enum attach_policies) attach_opt_in)
        ∷ ("distribution_policy", preset (enum distribution_policies) dist_round_robin)
        ∷ ("exposure_plugin", preset (enum exposure_plugins) exposure_nat)
        ∷ ("health_check_type", preset (enum hc_types) hc_none)
        ∷ ("health_check_config", plain long_text)
        ∷ ("enabled", record (needed boolean) { default = some (flag true) })
        ∷ [];
  unique_together = "project_id" ∷ "name" ∷ [];
  port_checked = true;
}

abbrev pub local_service_backend : Mixins → Table
local_service_backend mixins = record {
  columns =
      mixins.has_standard_attributes
      ++ mixins.has_id
      ++ ("service_id", owner "local_services.id")
        ∷ ("name", needed (varchar 64))
        ∷ ("availability_zone", plain (varchar 255))
        ∷ ("weight", plain integer)
        ∷ ("address", needed (varchar 64))
        ∷ ("port", needed integer)
        ∷ ("health_check_address", plain (varchar 64))
        ∷ ("health_check_port", plain integer)
        ∷ ("enabled", record (needed boolean) { default = some (flag true) })
        ∷ [];
  unique_together = "service_id" ∷ "name" ∷ [];
  port_checked = true;
}

abbrev pub local_service_binding : Mixins → Table
local_service_binding mixins = record {
  columns =
      mixins.has_standard_attributes
      ++ mixins.has_id
      ++ mixins.has_project
      ++ ("service_id", owner "local_services.id")
        ∷ ("network_id", owner "networks.id")
        ∷ ("enabled", record (needed boolean) { default = some (flag true) })
        ∷ [];
  unique_together = "service_id" ∷ "network_id" ∷ [];
  port_checked = false;
}
