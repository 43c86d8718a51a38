-- ===== src/Tests/Events.antt =====
-- The end of a localport, with a log as the world.
use neutron_local_services_p.Base.{String, true, some, List, [], ◌∷◌, ◌++◌, string_eq}
use neutron_local_services_p.Registry.{fetch_error}
use neutron_local_services_p.Netns.Lifecycle.{Row}
use neutron_local_services_p.Extension.{Effects, Cache}
use neutron_local_services_p.Extension.Events.{Parts}

abbrev journal : Effects
journal = record {
  World = List String;
  reconcile_vips = λ n vips w. w ++ vips;
  apply_config = λ name ns services w. w ++ name ∷ ns ∷ [];
  reconcile_acl = λ n services w. w ++ n ∷ [];
}

abbrev noted_parts : Parts journal
noted_parts = record {
  provision_netns = λ row w. (true, w ++ "provision" ∷ []);
  provision_underlay = λ n w. w ++ n ∷ [];
  teardown_plugin = λ name ns w. w ++ name ∷ ns ∷ [];
  teardown_underlay = λ n w. w ++ n ∷ [];
  teardown_netns = λ n w. w ++ n ∷ [];
  install_chassis_chain = λ w. w;
  sync = λ w. w;
  namespaces = λ w. some w;
  fetch = λ n w. fetch_error;
  clock = λ w. 0;
}

abbrev port : Row
port = record { type = some "localport"; device_id = "ovn-lb-hm-localsvc-net-1" }

abbrev cached : Cache
cached = record { state = ("net-1", []) ∷ ("net-2", []) ∷ []; ts = ("net-1", 3) ∷ [] }

abbrev before : Cache × List String
before = (cached, [])
