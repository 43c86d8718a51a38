-- ===== src/Proxy/Worker/Registration.antt =====
-- `_ensure_registered` and `_ensure_deregistered` against the worker, whose side of the two requests
-- is `dispatch` in proxy/worker/src/dispatcher.rs, and which may start anew at any time.
pub mod Current
pub mod Recovery
pub mod Stale
use neutron_local_services_p.Base.{
  ℕ, String, ◌<>◌, ◌≡◌, Bool, true, false, not, Option, none, some, List, [], ◌∷◌, ◌==◌, string_eq,
  option_eq, if◌then◌else◌, contains, filter,
}
use neutron_local_services_p.Base.Text.{substring_of}
use neutron_local_services_p.Proxy.Worker.{
  Registered, Response, answer, check_worker_restart, registered, ensure_deregistered,
}

-- The worker: the id of its start, which it has written, and its tenants.
pub record Worker : Type 0 where
  pub boot : String
  pub tenants : List String

-- `ControlRequest::AddNetns`, with a descriptor, and `ControlRequest::RemoveNetns`.
unfoldable pub add_netns : String → Worker → Response × Worker
add_netns network_id w =
    if contains w.tenants network_id
    then (answer (some "error") ("AddNetns: net_id " <> (network_id <> " already registered")), w)
    else (answer (some "ok") "", record w { tenants = network_id ∷ w.tenants })

unfoldable pub remove_netns : String → Worker → Response × Worker
remove_netns network_id w =
    if contains w.tenants network_id
    then (
      answer (some "ok") "",
      record w { tenants = filter (λ n. not (n == network_id)) w.tenants },
    )
    else (answer (some "error") ("RemoveNetns: net_id " <> (network_id <> " not registered")), w)

-- The plugin's cache and the worker.
pub record System : Type 0 where
  pub cache : Registered
  pub worker : Worker

-- `_ensure_registered` up to the request, the request, and what follows it.
unfoldable pub check : System → System
unfolding check_worker_restart
check s = record s { cache = check_worker_restart (some s.worker.boot) s.cache }

unfoldable pub request : String → System → System
unfolding add_netns
request network_id s = record s { worker = (add_netns network_id s.worker).1 }

unfoldable pub store : String → Response → System → System
unfolding registered
store network_id response s = record s { cache = (registered network_id response s.cache).1 }

-- `_ensure_registered`, where nothing comes between its steps.
unfoldable pub pass : String → System → System
unfolding check request store add_netns
pass network_id s =
    if contains (check s).cache.networks network_id
    then check s
    else store network_id (add_netns network_id (check s).worker).0 (request network_id (check s))

-- `_ensure_deregistered`
unfoldable pub leave : String → System → System
unfolding remove_netns ensure_deregistered
leave network_id s = record {
  cache = (ensure_deregistered network_id (remove_netns network_id s.worker).0 s.cache).1;
  worker = (remove_netns network_id s.worker).1;
}

-- The worker starts, with a new id and no tenants.
abbrev pub restart : String → System → System
restart boot s = record s { worker = record { boot = boot; tenants = [] } }

-- What a plugin and a worker come to, from a plugin that has just started: passes and teardowns one
-- after the other, and starts of the worker between them with an id that the plugin has not noted.
pub data Reach : System → Type 0 where
  begun :
      (w : Worker) → Reach (record { cache = record { networks = []; boot_id = none }; worker = w })
  passed : {s : System} (network_id : String) → Reach s → Reach (pass network_id s)
  left : {s : System} (network_id : String) → Reach s → Reach (leave network_id s)
  restarted :
      {s : System} (boot : String)
      → Reach s
      → (s.cache.boot_id == some boot) ≡ false
      → Reach (restart boot s)
