-- ===== src/Tests/Registration.antt =====
-- A plugin and a worker of the proxy over two networks.
use neutron_local_services_p.Base.Text.{substring_of}
use neutron_local_services_p.Base.{
  nat_eq, ◌≡◌, refl, true, false, none, some, [], ◌∷◌, string_eq, option_eq, contains,
}
use neutron_local_services_p.Proxy.Worker.Registration.{
  check, System, pass, restart, Reach, begun, passed, restarted,
}
use neutron_local_services_p.Proxy.Worker.Registration.Recovery.{
  pass_all, IsRegistered, pass_all_registers,
}
use neutron_local_services_p.Proxy.Worker.Registration.Stale.{raced, stale_registration}

-- The plugin starts while the worker serves net-1 already.
abbrev fresh : System
fresh = record {
  cache = record { networks = []; boot_id = none };
  worker = record { boot = "1-10"; tenants = "net-1" ∷ [] };
}

abbrev used : System
used = restart "2-11" (pass "net-1" fresh)

used-Reach : Reach used
unfolding option_eq pass string_eq substring_of nat_eq
used-Reach = restarted "2-11" (passed "net-1" (begun fresh.worker)) refl

-- One round after the restart.
pass_all_registers_example : IsRegistered "net-1" (pass_all ("net-2" ∷ "net-1" ∷ []) used)
unfolding string_eq
pass_all_registers_example = pass_all_registers ("net-2" ∷ "net-1" ∷ []) "net-1" used-Reach refl

stale_registration_example :
    ((raced "net-2" "net-1" "2-11" fresh).cache.boot_id
      ≡ some (raced "net-2" "net-1" "2-11" fresh).worker.boot)
    × (contains (raced "net-2" "net-1" "2-11" fresh).cache.networks "net-2" ≡ true)
    × (contains (raced "net-2" "net-1" "2-11" fresh).worker.tenants "net-2" ≡ false)
    × (pass "net-2" (raced "net-2" "net-1" "2-11" fresh) ≡ raced "net-2" "net-1" "2-11" fresh)
unfolding string_eq check option_eq
stale_registration_example = stale_registration fresh "net-2" "net-1" "2-11" refl refl refl refl
