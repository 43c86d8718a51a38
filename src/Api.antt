-- ===== src/Api.antt =====
-- api/local_services.py: the attributes of the three resources, as Neutron's API reads them. The
-- sizes of neutron_lib are parameters.
use neutron_local_services_p.Base.{
  ℕ, ◌*◌, String, Bool, true, false, ◌&&◌, Option, none, some, List, [], ◌∷◌, ◌==◌, string_eq, any,
}
use neutron_local_services_p.Base.Dict.{Dict}
use neutron_local_services_p.Constants.{
  attach_opt_in, attach_opt_out, dist_round_robin, dist_least_connection, dist_active_backup,
  hc_none, hc_http, hc_https, hc_tcp, hc_dns, hc_ntp, exposure_nat, exposure_plugins, proto_tcp,
  proto_udp, proto_tcp_udp,
}

pub data Validator : Type 0 where
  range : ℕ → ℕ → Validator
  string string_or_none : ℕ → Validator
  uuid ip_address ip_address_or_none : Validator
  values : List String → Validator

pub data Default : Type 0 where
  null not_specified : Default
  text : String → Default
  flag : Bool → Default

-- `int`, the same with `None` left alone, and `converters.convert_to_boolean`.
pub data Converter : Type 0 where
  to_int to_int_or_none to_boolean : Converter

-- An attribute; a key that is missing counts as false, or as none.
pub record Attribute : Type 0 where
  pub allow_post : Bool
  pub allow_put : Bool
  pub default : Option Default
  pub convert_to : Option Converter
  pub validate : Option Validator
  pub is_filter : Bool
  pub is_sort_key : Bool
  pub is_visible : Bool
  pub required_by_policy : Bool
  pub primary_key : Bool

-- `neutron_lib.db.constants`
pub record Sizes : Type 0 where
  pub name_field_size : ℕ
  pub long_description_field_size : ℕ
  pub project_id_field_size : ℕ

abbrev pub protocols : List String
protocols = proto_tcp ∷ proto_udp ∷ proto_tcp_udp ∷ []

abbrev pub attach_policies : List String
attach_policies = attach_opt_in ∷ attach_opt_out ∷ []

abbrev pub distribution_policies : List String
distribution_policies = dist_round_robin ∷ dist_least_connection ∷ dist_active_backup ∷ []

abbrev pub hc_types : List String
hc_types = hc_none ∷ hc_http ∷ hc_https ∷ hc_tcp ∷ hc_dns ∷ hc_ntp ∷ []

-- Visible, and nothing else unless it is changed.
abbrev base : Attribute
base = record {
  allow_post = true;
  allow_put = true;
  default = none;
  convert_to = none;
  validate = none;
  is_filter = false;
  is_sort_key = false;
  is_visible = true;
  required_by_policy = false;
  primary_key = false;
}

abbrev pub port_attribute : Attribute
port_attribute = record base {
  convert_to = some to_int;
  validate = some (range 1 65535);
  is_filter = true;
  is_sort_key = true;
}

abbrev pub id_attribute : Attribute
id_attribute = record base {
  allow_post = false;
  allow_put = false;
  validate = some uuid;
  is_filter = true;
  is_sort_key = true;
  primary_key = true;
}

abbrev pub enabled_attribute : Attribute
enabled_attribute = record base {
  default = some (flag true);
  convert_to = some to_boolean;
  is_filter = true;
}

-- An id that a POST sets and a PUT leaves alone.
abbrev pub reference : Attribute
reference = record base { allow_put = false; validate = some uuid; is_filter = true }

abbrev pub choice : String → List String → Attribute
choice initial allowed = record base {
  default = some (text initial);
  validate = some (values allowed);
}

abbrev pub optional : Validator → Attribute
optional v = record base { default = some null; validate = some v }

module _ (sizes : Sizes) where
  abbrev pub name_attribute : Attribute
  name_attribute = record base {
    default = some (text "");
    validate = some (string sizes.name_field_size);
    is_filter = true;
    is_sort_key = true;
  }

  abbrev pub description_attribute : Attribute
  description_attribute = record base {
    default = some (text "");
    validate = some (string sizes.long_description_field_size);
  }

  abbrev pub project_id_attribute : Attribute
  project_id_attribute = record base {
    allow_put = false;
    validate = some (string sizes.project_id_field_size);
    is_filter = true;
    is_sort_key = true;
    required_by_policy = true;
  }

  abbrev pub service_attributes : Dict String Attribute
  service_attributes =
      ("id", id_attribute)
      ∷ ("project_id", project_id_attribute)
      ∷ ("name", name_attribute)
      ∷ ("description", description_attribute)
      ∷ ("local_ipv4", record (optional ip_address_or_none) { is_filter = true })
      ∷ ("local_ipv6", record (optional ip_address_or_none) { is_filter = true })
      ∷ (
        "protocol",
        record base { allow_put = false; validate = some (values protocols); is_filter = true },
      )
      ∷ ("port", record port_attribute { allow_put = false })
      ∷ ("attachment_policy", record (choice attach_opt_in attach_policies) { is_filter = true })
      ∷ ("distribution_policy", choice dist_round_robin distribution_policies)
      ∷ (
        "exposure_plugin",
        record (choice exposure_nat exposure_plugins) { allow_put = false; is_filter = true },
      )
      ∷ ("health_check_type", choice hc_none hc_types)
      ∷ ("health_check_config", optional (string_or_none (sizes.long_description_field_size * 4)))
      ∷ ("enabled", enabled_attribute)
      ∷ []

  abbrev pub backend_attributes : Dict String Attribute
  backend_attributes =
      ("id", id_attribute)
      ∷ ("service_id", reference)
      ∷ ("name", name_attribute)
      ∷ (
        "availability_zone",
        record (optional (string_or_none sizes.name_field_size)) { is_filter = true },
      )
      ∷ ("weight", record base { default = some not_specified; convert_to = some to_int_or_none })
      ∷ ("address", record base { validate = some ip_address; is_filter = true })
      ∷ ("port", port_attribute)
      ∷ ("health_check_address", optional ip_address_or_none)
      ∷ ("health_check_port", record base { default = some null; convert_to = some to_int_or_none })
      ∷ ("enabled", enabled_attribute)
      ∷ []

  abbrev pub binding_attributes : Dict String Attribute
  binding_attributes =
      ("id", id_attribute)
      ∷ ("project_id", project_id_attribute)
      ∷ ("service_id", reference)
      ∷ ("network_id", reference)
      ∷ ("enabled", enabled_attribute)
      ∷ []

-- Whether there is an attribute of the name that a test admits.
abbrev pub admits : (String → Attribute → Bool) → Dict String Attribute → String → Bool
admits test attributes field = any (λ kv. field == kv.0 && test kv.0 kv.1) attributes
