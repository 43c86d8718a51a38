-- ===== src/Tests/Database.antt =====
-- The tables and the attachment rule at concrete rows.
use neutron_local_services_p.Base.{
  String, ◌≡◌, refl, none, some, List, [], ◌∷◌, ◌||◌, string_eq, nat_eq, option_eq, contains, Nodup,
  find?, any,
}
use neutron_local_services_p.Base.Sets.{by_insertion}
use neutron_local_services_p.Db.Rows.{ids, by_key}
use neutron_local_services_p.Db.Tables.{
  Tables, admin, get_service, port_in_range, same_project_name, same_service_network,
}
use neutron_local_services_p.Db.Vip.{
  validate_service_payload, has_vip, validate_vip, validate_address, is_junk, ip_in_any_cidr,
}
use neutron_local_services_p.Db.Services.{
  ServiceBody, create_local_service, new_service, check_service,
}
use neutron_local_services_p.Db.Bindings.{
  BindingBody, create_local_service_binding, new_binding, check_binding,
}
use neutron_local_services_p.Db.Consistency.{IsConsistent}
use neutron_local_services_p.Db.Consistency.Methods.{
  Request, create_service, create_binding, commit,
}
use neutron_local_services_p.Db.Consistency.Preservation.{
  Run, done, step, no_rows, requests-IsConsistent,
}
use neutron_local_services_p.HostRoutes.Effective.{enabled_services_for_network}
use neutron_local_services_p.HostRoutes.Effective.Members.{
  attached_ids, is_bound, is_implied, enabled_services_members,
}
use neutron_local_services_p.Registry.{got, desired_state_for_network}
use neutron_local_services_p.Registry.Agreement.{served, all_with_backends}
use neutron_local_services_p.Registry.Refinement.{desired-eq-enabled_services}
use neutron_local_services_p.Tests.{sample_netaddr, sample_options, sample}

abbrev body : ServiceBody
body = record {
  project_id = some "p";
  name = "dns";
  description = none;
  local_ipv4 = some "169.254.169.5";
  local_ipv6 = none;
  protocol = "udp";
  port = 53;
  attachment_policy = none;
  distribution_policy = none;
  exposure_plugin = none;
  health_check_type = none;
  health_check_config = none;
  enabled = none;
}

abbrev binding_body : BindingBody
binding_body = record {
  project_id = some "p";
  service_id = "s1";
  network_id = "net-1";
  enabled = none;
}

-- The second binding breaks the unique constraint and is not committed.
abbrev requests : List Request
requests =
    create_service "s1" body
    ∷ create_binding "b1" binding_body
    ∷ create_binding "b2" binding_body
    ∷ []

after : Tables
unfolding commit create_local_service create_local_service_binding validate_service_payload
    new_service check_service new_binding check_binding get_service by_key find? any has_vip
    validate_vip validate_address is_junk ip_in_any_cidr port_in_range same_project_name
    same_service_network
after = commit sample_netaddr sample_options (create_binding "b2" binding_body) (
    commit sample_netaddr sample_options (create_binding "b1" binding_body)
      (commit sample_netaddr sample_options (create_service "s1" body) no_rows))

after-Run : Run sample_netaddr sample_options no_rows requests after
unfolding after string_eq nat_eq
after-Run = step refl (step refl (step refl done))

requests-IsConsistent_example : IsConsistent after
requests-IsConsistent_example =
    requests-IsConsistent sample_netaddr sample_options requests after after-Run

one_binding : ids (λ b. b.id) after.bindings ≡ "b1" ∷ []
unfolding after string_eq nat_eq
one_binding = refl

pub sample-IsConsistent : IsConsistent sample
unfolding string_eq has_vip port_in_range same_service_network any
sample-IsConsistent = record {
  service_keys = (refl, (refl, (refl, tt)));
  binding_keys = (refl, (refl, tt));
  services = ((refl, refl), ((refl, refl), ((refl, refl), tt)));
  backends = ((refl, refl), ((refl, refl), ((refl, refl), tt)));
  bindings = (refl, (refl, tt));
  binding_pairs = (refl, (refl, tt));
}

enabled_services_members_example :
    Nodup (attached_ids (enabled_services_for_network by_insertion sample admin "net-1"))
    × ((k : String)
        → contains (attached_ids (enabled_services_for_network by_insertion sample admin "net-1")) k
          ≡ (is_bound by_insertion sample admin "net-1" k
              || is_implied by_insertion sample admin "net-1" k))
enabled_services_members_example = enabled_services_members by_insertion sample admin "net-1"

desired-eq-enabled_services_example :
    desired_state_for_network (served sample) by_insertion "net-1"
    ≡ got
        (all_with_backends sample (enabled_services_for_network by_insertion sample admin "net-1"))
desired-eq-enabled_services_example =
    desired-eq-enabled_services by_insertion sample "net-1" sample-IsConsistent
      (refl, (refl, (refl, tt)))
