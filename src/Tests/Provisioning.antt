-- ===== src/Tests/Provisioning.antt =====
-- A host with one pair: whether it is there, and the addresses on its end in the namespace.
use neutron_local_services_p.Base.Text.{split_after}
use neutron_local_services_p.Base.{
  dedup, String, ◌≡◌, refl, Bool, true, false, not, none, some, List, [], ◌∷◌, ◌++◌, string_eq,
  nat_eq, if◌then◌else◌, contains, contains-append, contains-filter, filter,
}
use neutron_local_services_p.Base.Sets.{by_insertion}
use neutron_local_services_p.Netns.{
  provision_addresses, IpLib, is_on_subnet_cidr, is_vip_cidr, netns_name, reconcile_vips,
}
use neutron_local_services_p.Netns.Provision.{
  PortBinding, Links, parse_port_binding, ensure_veth, provision,
}
use neutron_local_services_p.Netns.Provision.Composed.{
  IsPlumbing, KeepsDevice, provision-then-reconcile_vips,
}

abbrev host : IpLib
host = record {
  State = Bool × List String;
  namespace_exists = λ _ s. s.0;
  device_exists = λ _ _ s. s.0;
  addresses = λ _ _ s. s.1;
  delete_multiple = λ _ _ xs s. (s.0, filter (λ c. not (contains xs c)) s.1);
  add_multiple = λ _ _ xs s. (s.0, s.1 ++ xs);
}

abbrev links : Links host
links = record {
  root_exists = λ _ s. s.0;
  delete_root = λ _ s. (false, []);
  add_veth = λ _ _ _ s. (true, []);
  set_address = λ _ _ _ s. s;
  set_mtu = λ _ _ _ s. s;
  set_up = λ _ _ s. s;
  add_port = λ _ _ s. s;
  set_iface_id = λ _ _ s. s;
}

abbrev row : PortBinding
row = record {
  device_id = "ovn-lb-hm-localsvc-net-1";
  mac = some "fa:16:3e:00:00:01";
  cidrs = some "10.0.0.2/24 fd00::2/64";
  mtu = some "1442";
  logical_port = "port-1";
}

row_parsed : parse_port_binding row ≡ record {
  mac = some "fa:16:3e:00:00:01";
  ipv4_cidrs = "10.0.0.2/24" ∷ [];
  logical_port = "port-1";
  mtu = 1442;
}
unfolding parse_port_binding filter
row_parsed = refl

row_provisioned :
    provision host links by_insertion "br-int" row (false, [])
    ≡ (some "localsvc-net-1", (true, "10.0.0.2/24" ∷ []))
unfolding provision filter provision_addresses dedup
row_provisioned = refl

unmarked_row_skipped :
    provision host links by_insertion "br-int" (record row { device_id = "dhcp-net-1" }) (false, [])
    ≡ (none, (false, []))
unfolding provision
unmarked_row_skipped = refl

keeps : KeepsDevice host links by_insertion "net-1" (λ s. s)
keeps = record { up = λ s u. u; addresses = λ s. refl }

links-IsPlumbing : IsPlumbing host links by_insertion "net-1"
links-IsPlumbing = record {
  lawful = record {
    contains-delete = λ xs s c. contains-filter (λ a. not (contains xs a)) s.1 c;
    contains-add = λ xs s c. contains-append s.1 xs c;
  };
  up-delete = λ xs s u. u;
  up-add = λ xs s u. u;
  in_namespace = λ s e. e;
  created = λ root s. (refl, refl);
  set_address = λ at name mac. keeps;
  set_mtu = λ at name mtu. keeps;
  set_up = λ at name. keeps;
  add_port = λ bridge name. keeps;
  set_iface_id = λ name port. keeps;
}

provision-then-reconcile_vips_example :
    ((provision host links by_insertion "br-int" row (false, [])).0 ≡ some (netns_name "net-1"))
    × (contains {A = String}
          (reconcile_vips host by_insertion "net-1"
            ("169.254.169.5/32" ∷ [])
            (provision host links by_insertion "br-int" row (false, [])).1).1.1
          "10.0.0.2/24"
        ≡ (if is_vip_cidr "10.0.0.2/24"
            then contains {A = String} ("169.254.169.5/32" ∷ []) "10.0.0.2/24"
            else if is_on_subnet_cidr "10.0.0.2/24"
            then contains {A = String} (parse_port_binding row).ipv4_cidrs "10.0.0.2/24"
            else contains {A = String}
                (ensure_veth host links "net-1" (false, [])).1
                "10.0.0.2/24"))
unfolding split_after nat_eq parse_port_binding filter
provision-then-reconcile_vips_example =
    provision-then-reconcile_vips host links by_insertion "net-1" links-IsPlumbing "br-int" row
      "fa:16:3e:00:00:01" ("169.254.169.5/32" ∷ []) (false, []) "10.0.0.2/24" refl refl refl refl
