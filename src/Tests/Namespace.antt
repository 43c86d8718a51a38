-- ===== src/Tests/Namespace.antt =====
-- The address reconcilers over a list of addresses.
use neutron_local_services_p.Base.{
  String, ◌≡◌, refl, Bool, true, not, List, [], ◌∷◌, ◌++◌, string_eq, nat_eq, if◌then◌else◌,
  contains, contains-append, contains-filter, filter, dedup, any,
}
use neutron_local_services_p.Base.Sets.{by_insertion}
use neutron_local_services_p.Netns.{
  IpLib, is_on_subnet_cidr, is_vip_cidr, provision_addresses, reconcile_vips, update_addresses,
  netns_name, veth_names,
}
use neutron_local_services_p.Netns.Reconcile.{IsLawful}
use neutron_local_services_p.Db.Tables.{admin}
use neutron_local_services_p.HostRoutes.Effective.{enabled_services_for_network}
use neutron_local_services_p.Registry.{got, desired_vips_for_network}
use neutron_local_services_p.Registry.Agreement.{served}
use neutron_local_services_p.Registry.Vips.{has_cidr, desired, device_has_attached_vips}
use neutron_local_services_p.Tests.{sample}
use neutron_local_services_p.Tests.Database.{sample-IsConsistent}

abbrev pub kernel : IpLib
kernel = record {
  State = List String;
  namespace_exists = λ _ s. true;
  device_exists = λ _ _ s. true;
  addresses = λ _ _ s. s;
  delete_multiple = λ _ _ xs s. filter (λ c. not (contains xs c)) s;
  add_multiple = λ _ _ xs s. s ++ xs;
}

kernel-IsLawful : (namespace device : String) → IsLawful kernel namespace device
kernel-IsLawful namespace device = record {
  contains-delete = λ xs s c. contains-filter (λ a. not (contains xs a)) s c;
  contains-add = λ xs s c. contains-append s xs c;
}

abbrev before : List String
before = "10.0.0.2/24" ∷ "169.254.169.9/32" ∷ "fe80::1/64" ∷ []

abbrev cidrs : List String
cidrs = "10.0.0.3/24" ∷ []

abbrev vips : List String
vips = "169.254.169.5/32" ∷ []

after : List String
unfolding reconcile_vips provision_addresses update_addresses is_vip_cidr is_on_subnet_cidr filter
    dedup string_eq nat_eq netns_name veth_names
after =
    (reconcile_vips kernel by_insertion "net-1" vips
      (provision_addresses kernel by_insertion "net-1" cidrs before)).1

both_reconciled : after ≡ "fe80::1/64" ∷ "10.0.0.3/24" ∷ "169.254.169.5/32" ∷ []
unfolding after
both_reconciled = refl

abbrev wanted : Bool
wanted =
    if is_vip_cidr "fe80::1/64"
    then contains vips "fe80::1/64"
    else if is_on_subnet_cidr "fe80::1/64"
    then contains cidrs "fe80::1/64"
    else contains before "fe80::1/64"

device_has_attached_vips_example :
    (desired_vips_for_network (served sample) by_insertion "net-1"
      ≡ got (desired kernel by_insertion sample "net-1"))
    × (contains
          (reconcile_vips kernel by_insertion "net-1"
            (desired kernel by_insertion sample "net-1")
            before).1
          "169.254.169.6/32"
        ≡ (if is_vip_cidr "169.254.169.6/32"
            then any
                (has_cidr "169.254.169.6/32")
                (enabled_services_for_network by_insertion sample admin "net-1")
            else contains before "169.254.169.6/32"))
unfolding string_eq
device_has_attached_vips_example =
    device_has_attached_vips kernel by_insertion sample "net-1" before "169.254.169.6/32"
      sample-IsConsistent (refl, (refl, (refl, tt))) (kernel-IsLawful _ _) (refl, refl)
