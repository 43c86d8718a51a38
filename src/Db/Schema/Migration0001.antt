-- ===== src/Db/Schema/Migration0001.antt =====
-- `upgrade` of db/migration/alembic_migrations/versions/0001_initial.py.
use neutron_local_services_p.Base.{true, false, some, [], ◌∷◌}
use neutron_local_services_p.Api.{protocols, attach_policies, distribution_policies, hc_types}
use neutron_local_services_p.Constants.{exposure_plugins}
use neutron_local_services_p.Db.Schema.{
  varchar, long_text, integer, big_integer, boolean, enum, flag, Column, Table, plain, needed,
  owner,
}

abbrev pub id : Column
id = record (needed (varchar 36)) { primary_key = true }

abbrev pub project_id : Column
project_id = record (plain (varchar 255)) { index = true }

abbrev pub standard_attr_id : Column
standard_attr_id = record (needed big_integer) {
  unique = true;
  foreign_key = some "standardattributes.id";
}

abbrev pub enabled : Column
enabled = record (needed boolean) { server_default = some (flag true) }

abbrev pub local_services : Table
local_services = record {
  columns =
      ("id", id)
      ∷ ("project_id", project_id)
      ∷ ("standard_attr_id", standard_attr_id)
      ∷ ("name", needed (varchar 64))
      ∷ ("description", plain (varchar 255))
      ∷ ("local_ipv4", plain (varchar 64))
      ∷ ("local_ipv6", plain (varchar 64))
      ∷ ("protocol", needed (enum protocols))
      ∷ ("port", needed integer)
      ∷ ("attachment_policy", needed (enum attach_policies))
      ∷ ("distribution_policy", needed (enum distribution_policies))
      ∷ ("exposure_plugin", needed (enum exposure_plugins))
      ∷ ("health_check_type", needed (enum hc_types))
      ∷ ("health_check_config", plain long_text)
      ∷ ("enabled", enabled)
      ∷ [];
  unique_together = "project_id" ∷ "name" ∷ [];
  port_checked = true;
}

abbrev pub local_service_backends : Table
local_service_backends = record {
  columns =
      ("id", id)
      ∷ ("standard_attr_id", standard_attr_id)
      ∷ ("service_id", owner "local_services.id")
      ∷ ("name", needed (varchar 64))
      ∷ ("availability_zone", plain (varchar 255))
      ∷ ("weight", plain integer)
      ∷ ("address", needed (varchar 64))
      ∷ ("port", needed integer)
      ∷ ("health_check_address", plain (varchar 64))
      ∷ ("health_check_port", plain integer)
      ∷ ("enabled", enabled)
      ∷ [];
  unique_together = "service_id" ∷ "name" ∷ [];
  port_checked = true;
}

abbrev pub local_service_bindings : Table
local_service_bindings = record {
  columns =
      ("id", id)
      ∷ ("project_id", project_id)
      ∷ ("standard_attr_id", standard_attr_id)
      ∷ ("service_id", owner "local_services.id")
      ∷ ("network_id", owner "networks.id")
      ∷ ("enabled", enabled)
      ∷ [];
  unique_together = "service_id" ∷ "network_id" ∷ [];
  port_checked = false;
}
