-- ===== src/Proxy/Worker/Registration/Stale.antt =====
-- The steps of `_ensure_registered` with those of other threads and a start of the worker between
-- them: the lock is not held during the request.
use neutron_local_services_p.Base.{
  String, ◌≡◌, refl, true, false, some, [], ◌∷◌, ◌==◌, string_eq, option_eq, contains, arith,
}
use neutron_local_services_p.Proxy.Worker.{
  Registered, answer, check_worker_restart, add_network, registered,
}
use neutron_local_services_p.Proxy.Worker.Registration.{
  Worker, add_netns, System, check, request, store, pass, restart,
}

-- The thread of one network has its answer when the worker starts anew; the thread of another
-- network makes a whole pass, and then the first goes on to store its answer.
abbrev pub raced : String → String → String → System → System
raced mine other boot s =
    store mine (add_netns mine (check s).worker).0
      (pass other (restart boot (request mine (check s))))

-- A pass of a plugin that has noted another start than the worker's, while the worker has no tenants.
pass_anew :
    (network_id boot : String) (c : Registered)
    → (c.boot_id == some boot) ≡ false
    → pass network_id (record { cache = c; worker = record { boot = boot; tenants = [] } })
      ≡ record {
        cache = record { networks = network_id ∷ []; boot_id = some boot };
        worker = record { boot = boot; tenants = network_id ∷ [] };
      }
unfolding pass check check_worker_restart request store registered add_network add_netns option_eq
    string_eq
pass_anew network_id boot c h = rw h refl

add_netns_new :
    (network_id : String) (w : Worker)
    → contains w.tenants network_id ≡ false
    → (add_netns network_id w).0 ≡ answer (some "ok") ""
unfolding add_netns
add_netns_new network_id w h = rw h refl

store_new :
    (network_id : String) (s : System)
    → contains s.cache.networks network_id ≡ false
    → store network_id (answer (some "ok") "") s
      ≡ record s { cache = record s.cache { networks = network_id ∷ s.cache.networks } }
unfolding store registered add_network option_eq string_eq
store_new network_id s h = rw h refl

check_boot : (s : System) → (check s).cache.boot_id ≡ some s.worker.boot
unfolding check check_worker_restart
check_boot s = ground arith

some_differs : (a b : String) → (a == b) ≡ false → (some b == some a) ≡ false
some_differs a b h = ground arith

raced_state :
    (s : System) (mine other boot : String)
    → contains s.worker.tenants mine ≡ false
    → (mine == other) ≡ false
    → (boot == s.worker.boot) ≡ false
    → raced mine other boot s ≡ record {
      cache = record { networks = mine ∷ other ∷ []; boot_id = some boot };
      worker = record { boot = boot; tenants = other ∷ [] };
    }
unfolding request check
raced_state s mine other boot u d f =
    rw
      (
        add_netns_new mine (check s).worker u,
        pass_anew other boot (check s).cache
            (rw (check_boot s) (some_differs boot s.worker.boot f)),
      )
      (store_new mine
        (record {
          cache = record { networks = other ∷ []; boot_id = some boot };
          worker = record { boot = boot; tenants = other ∷ [] };
        })
        (ground arith))

pass_noted :
    (network_id : String) (s : System)
    → s.cache.boot_id ≡ some s.worker.boot
    → contains s.cache.networks network_id ≡ true
    → pass network_id s ≡ s
unfolding pass check check_worker_restart
pass_noted network_id s e h = ground arith

-- Let a network be neither in the checked cache nor served, and let the worker start with another id
-- after its answer for that network, and a pass for another network come before the answer is
-- stored. Then the cache, under the id of the new start, holds a network that the worker does not
-- serve, and a further pass for it changes nothing.
pub stale_registration :
    (s : System) (mine other boot : String)
    → contains (check s).cache.networks mine ≡ false
    → contains s.worker.tenants mine ≡ false
    → (mine == other) ≡ false
    → (boot == s.worker.boot) ≡ false
    → ((raced mine other boot s).cache.boot_id ≡ some (raced mine other boot s).worker.boot)
      × (contains (raced mine other boot s).cache.networks mine ≡ true)
      × (contains (raced mine other boot s).worker.tenants mine ≡ false)
      × (pass mine (raced mine other boot s) ≡ raced mine other boot s)
stale_registration s mine other boot c u d f =
    rw (raced_state s mine other boot u d f)
      (refl, ground arith, ground arith, pass_noted mine _ refl (ground arith))
