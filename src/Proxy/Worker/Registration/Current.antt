-- ===== src/Proxy/Worker/Registration/Current.antt =====
-- What the cache is worth while no step of another thread comes between those of
-- `_ensure_registered`.
use neutron_local_services_p.Base.{
  String, ◌<>◌, ◌≡◌, refl, ap, subst, ◌∙◌, true, not, ◌&&◌, ◌||◌, some, ◌==◌, string_eq, option_eq,
  contains, contains-filter, filter, Bool-cases, inl, inr, arith,
}
use package.text.Mathlib.TextLemmas.{append_assoc}
use neutron_local_services_p.Base.Text.{substring_of, substring_of-append}
use neutron_local_services_p.Proxy.Worker.{
  Registered, Response, answer, check_worker_restart, add_network, registered, ensure_registered,
  ensure_deregistered,
}
use neutron_local_services_p.Proxy.Worker.Registration.{
  Worker, add_netns, remove_netns, System, check, request, store, pass, leave, Reach, begun, passed,
  left, restarted,
}

-- The worker serves every network that the cache holds under its id.
abbrev pub IsCurrent : System → Type 0
IsCurrent s =
    (s.cache.boot_id == some s.worker.boot) ≡ true
    → (n : String) → contains s.cache.networks n ≡ true
    → contains s.worker.tenants n ≡ true

check-IsCurrent : (s : System) → IsCurrent s → IsCurrent (check s)
unfolding check check_worker_restart
check-IsCurrent s h = elim (Bool-cases (s.cache.boot_id == some s.worker.boot)) [
  | inl same ↦ rw same (λ e n. h same n)
  | inr differ ↦ rw differ (λ e n k. absurd (ground arith))
]

check_boot : (s : System) → (check s).cache.boot_id ≡ some s.worker.boot
unfolding check check_worker_restart
check_boot s = ground arith

pub add_netns_tenants :
    (network_id n : String) (w : Worker)
    → contains (add_netns network_id w).1.tenants n ≡ (n == network_id || contains w.tenants n)
unfolding add_netns
add_netns_tenants network_id n w = ground arith

store_networks :
    (network_id n : String) (response : Response) (s : System)
    → contains (store network_id response s).cache.networks n ≡ true
    → (n == network_id || contains s.cache.networks n) ≡ true
unfolding store registered add_network
store_networks network_id n (answer result msg) s = ground arith
store_networks network_id n Response.not_listening s = ground arith
store_networks network_id n Response.failed s = ground arith

-- A pass is `ensure_registered` with the worker's answer.
pass-ensure_registered :
    (network_id : String) (s : System)
    → (pass network_id s).cache
      ≡ (ensure_registered
          (some s.worker.boot)
          network_id
          (add_netns network_id s.worker).0
          s.cache).1
unfolding pass check store request ensure_registered
pass-ensure_registered network_id s =
    elim (Bool-cases (contains (check s).cache.networks network_id)) [
      | inl known ↦ rw known refl
      | inr new ↦ rw new refl
    ]

-- What the cache holds once it is checked.
checked :
    (s : System)
    → IsCurrent s
    → (n : String) → contains (check s).cache.networks n ≡ true
    → contains s.worker.tenants n ≡ true
unfolding check
checked s h n = check-IsCurrent s h (rw (check_boot s) (ground arith)) n

store_tenants :
    (network_id : String) (response : Response) (s : System)
    → ((n : String) → contains s.cache.networks n ≡ true → contains s.worker.tenants n ≡ true)
    → (n : String)
    → contains (store network_id response (request network_id s)).cache.networks n ≡ true
    → contains (request network_id s).worker.tenants n ≡ true
unfolding request
store_tenants network_id response s h n k =
    rw (add_netns_tenants network_id n s.worker)
      (ground (arith, store_networks network_id n response (request network_id s) k, h n))

pass_tenants :
    (network_id : String) (s : System)
    → IsCurrent s
    → (n : String) → contains (pass network_id s).cache.networks n ≡ true
    → contains (pass network_id s).worker.tenants n ≡ true
unfolding pass check
pass_tenants network_id s h n = elim (Bool-cases (contains (check s).cache.networks network_id)) [
  | inl known ↦ rw known (checked s h n)
  | inr new ↦ rw new (store_tenants network_id _ (check s) (checked s h) n)
]

pass-IsCurrent : (network_id : String) (s : System) → IsCurrent s → IsCurrent (pass network_id s)
pass-IsCurrent network_id s h e = pass_tenants network_id s h

remove_netns_tenants :
    (network_id n : String) (w : Worker)
    → contains (remove_netns network_id w).1.tenants n
      ≡ (contains w.tenants n && not (n == network_id))
unfolding remove_netns
remove_netns_tenants network_id n w =
    ground (arith, contains-filter (λ m. not (m == network_id)) w.tenants n)

-- The worker always answers, so that the network leaves the cache.
leave_cache :
    (network_id : String) (s : System)
    → (leave network_id s).cache
      ≡ record s.cache { networks = filter (λ n. not (n == network_id)) s.cache.networks }
unfolding leave remove_netns ensure_deregistered
leave_cache network_id s = elim (Bool-cases (contains s.worker.tenants network_id)) [
  | inl h ↦ rw h refl
  | inr h ↦ rw h refl
]

leave_boot : (network_id : String) (s : System) → (leave network_id s).worker.boot ≡ s.worker.boot
unfolding leave remove_netns
leave_boot network_id s = ground arith

leave_tenants :
    (network_id n : String) (s : System)
    → contains (leave network_id s).worker.tenants n
      ≡ (contains s.worker.tenants n && not (n == network_id))
unfolding leave
leave_tenants network_id n s = remove_netns_tenants network_id n s.worker

leave-IsCurrent : (network_id : String) (s : System) → IsCurrent s → IsCurrent (leave network_id s)
leave-IsCurrent network_id s h =
    rw (leave_cache network_id s, leave_boot network_id s)
      (λ e n.
        rw
          (
            leave_tenants network_id n s,
            contains-filter (λ m. not (m == network_id)) s.cache.networks n,
          )
          (ground (arith, h e n)))

Reach-IsCurrent : {s : System} → Reach s → IsCurrent s
Reach-IsCurrent (begun w) e = absurd (ground arith)
Reach-IsCurrent (passed network_id r) e = pass-IsCurrent network_id _ (Reach-IsCurrent r) e
Reach-IsCurrent (left network_id r) e = leave-IsCurrent network_id _ (Reach-IsCurrent r) e
Reach-IsCurrent (restarted boot r fresh) e = absurd (ground arith)

pass_has :
    (network_id : String) (s : System)
    → IsCurrent s
    → contains (pass network_id s).worker.tenants network_id ≡ true
unfolding pass check store request
pass_has network_id s h = elim (Bool-cases (contains (check s).cache.networks network_id)) [
  | inl known ↦ rw known (checked s h network_id known)
  | inr new ↦ rw (new, add_netns_tenants network_id network_id s.worker) (ground arith)
]

store_boot :
    (network_id : String) (response : Response) (s : System)
    → (store network_id response s).cache.boot_id ≡ s.cache.boot_id
unfolding store registered add_network
store_boot network_id (answer result msg) s = ground arith
store_boot network_id Response.not_listening s = refl
store_boot network_id Response.failed s = refl

request_boot :
    (network_id : String) (s : System) → (request network_id s).worker.boot ≡ s.worker.boot
unfolding request add_netns
request_boot network_id s = ground arith

pub pass_boot :
    (network_id : String) (s : System)
    → (pass network_id s).cache.boot_id ≡ some (pass network_id s).worker.boot
unfolding pass
pass_boot network_id s = elim (Bool-cases (contains (check s).cache.networks network_id)) [
  | inl known ↦ rw known (check_boot s)
  | inr new ↦ rw new (
      ground (
        arith,
        store_boot network_id (add_netns network_id (check s).worker).0,
        request_boot network_id (check s),
        check_boot s,
      ))
]

-- The worker's refusal of a second `add_netns` is one that the plugin takes for a success.
refusal_names_cause :
    (network_id : String)
    → substring_of "already registered"
        ("AddNetns: net_id " <> (network_id <> " already registered"))
      ≡ true
refusal_names_cause network_id =
    subst (λ m. substring_of "already registered" m ≡ true)
      (append_assoc "AddNetns: net_id " (network_id <> " ") ("already registered" <> "")
        ∙ ap (λ m. "AddNetns: net_id " <> m)
            (append_assoc network_id " " ("already registered" <> "")))
      (substring_of-append "already registered" ("AddNetns: net_id " <> (network_id <> " ")) "")

request_accepted :
    (network_id : String) (w : Worker) (r : Registered)
    → registered network_id (add_netns network_id w).0 r ≡ (true, add_network network_id r)
unfolding registered add_netns option_eq string_eq
request_accepted network_id w r = elim (Bool-cases (contains w.tenants network_id)) [
  | inl h ↦ rw (h, refusal_names_cause network_id) refl
  | inr h ↦ rw h refl
]

add_network_has :
    (network_id : String) (r : Registered)
    → contains (add_network network_id r).networks network_id ≡ true
unfolding add_network
add_network_has network_id r = ground arith

pass_cached :
    (network_id : String) (s : System)
    → contains (pass network_id s).cache.networks network_id ≡ true
unfolding pass store request
pass_cached network_id s = elim (Bool-cases (contains (check s).cache.networks network_id)) [
  | inl known ↦ rw known known
  | inr new ↦
      rw (new, request_accepted network_id (check s).worker (check s).cache)
        (add_network_has network_id (check s).cache)
]

-- From every state that passes, teardowns and starts of the worker lead to, none of them inside
-- another, a pass for a network ends with the worker serving it and the cache holding it, under the
-- id of the worker's current start, and with the worker serving all else that the cache holds.
pub pass_registers :
    {s : System} (network_id : String)
    → Reach s
    → (contains (pass network_id s).worker.tenants network_id ≡ true)
      × (contains (pass network_id s).cache.networks network_id ≡ true)
      × ((pass network_id s).cache.boot_id ≡ some (pass network_id s).worker.boot)
      × ((n : String)
          → contains (pass network_id s).cache.networks n ≡ true
          → contains (pass network_id s).worker.tenants n ≡ true)
pass_registers network_id r = (
  pass_has network_id _ (Reach-IsCurrent r),
  pass_cached network_id _,
  pass_boot network_id _,
  pass_tenants network_id _ (Reach-IsCurrent r),
)
