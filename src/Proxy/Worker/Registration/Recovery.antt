-- ===== src/Proxy/Worker/Registration/Recovery.antt =====
-- What a round of passes over all networks brings about, as the agent's timer makes it.
use neutron_local_services_p.Base.{
  String, ◌≡◌, sym, subst, true, some, List, [], ◌∷◌, ◌==◌, ==_iff, string_eq, option_eq, contains,
  Bool-cases, inl, inr, arith,
}
use neutron_local_services_p.Proxy.Worker.{
  Response, answer, check_worker_restart, add_network, registered,
}
use neutron_local_services_p.Proxy.Worker.Registration.{
  System, check, request, store, pass, Reach, passed,
}
use neutron_local_services_p.Proxy.Worker.Registration.Current.{
  add_netns_tenants, pass_registers, pass_boot,
}

-- `_ensure_registered` for one network after the other.
unfoldable pub pass_all : List String → System → System
pass_all [] s = s
pass_all (network_id ∷ networks) s = pass_all networks (pass network_id s)

-- Served, and known to be served under the id of the worker's current start.
abbrev pub IsRegistered : String → System → Type 0
IsRegistered n s =
    (contains s.worker.tenants n ≡ true)
    × (contains s.cache.networks n ≡ true)
    × (s.cache.boot_id ≡ some s.worker.boot)

check_keeps :
    (n : String) (s : System)
    → s.cache.boot_id ≡ some s.worker.boot
    → contains s.cache.networks n ≡ true
    → contains (check s).cache.networks n ≡ true
unfolding check check_worker_restart
check_keeps n s noted h = ground arith

store_keeps :
    (network_id n : String) (response : Response) (s : System)
    → contains s.cache.networks n ≡ true
    → contains (store network_id response s).cache.networks n ≡ true
unfolding store registered add_network
store_keeps network_id n (answer result msg) s h = ground arith
store_keeps network_id n Response.not_listening s h = h
store_keeps network_id n Response.failed s h = h

pass_serves :
    (network_id n : String) (s : System)
    → contains s.worker.tenants n ≡ true
    → contains (pass network_id s).worker.tenants n ≡ true
unfolding pass check store request
pass_serves network_id n s h = elim (Bool-cases (contains (check s).cache.networks network_id)) [
  | inl known ↦ rw known h
  | inr new ↦ rw (new, add_netns_tenants network_id n s.worker) (ground arith)
]

pass_keeps :
    (network_id n : String) (s : System)
    → s.cache.boot_id ≡ some s.worker.boot
    → contains s.cache.networks n ≡ true
    → contains (pass network_id s).cache.networks n ≡ true
unfolding pass request
pass_keeps network_id n s noted h =
    elim (Bool-cases (contains (check s).cache.networks network_id)) [
      | inl known ↦ rw known (check_keeps n s noted h)
      | inr new ↦
          rw new
            (store_keeps network_id n _ (request network_id (check s)) (check_keeps n s noted h))
    ]

pass-IsRegistered :
    (network_id n : String) (s : System) → IsRegistered n s → IsRegistered n (pass network_id s)
pass-IsRegistered network_id n s (served, cached, noted) = (
  pass_serves network_id n s served,
  pass_keeps network_id n s noted cached,
  pass_boot network_id s,
)

pass_all-IsRegistered :
    (networks : List String) (n : String) (s : System)
    → IsRegistered n s
    → IsRegistered n (pass_all networks s)
unfolding pass_all
pass_all-IsRegistered [] n s r = r
pass_all-IsRegistered (m ∷ networks) n s r =
    pass_all-IsRegistered networks n (pass m s) (pass-IsRegistered m n s r)

passed-IsRegistered :
    (network_id : String) {s : System} → Reach s → IsRegistered network_id (pass network_id s)
passed-IsRegistered network_id r = let p = pass_registers network_id r in (p.0, p.1, p.2)

-- From every state that passes, teardowns and starts of the worker lead to, none of them inside
-- another, one round of passes registers each of its networks: the worker serves it, and the cache
-- holds it under the id of the worker's current start.
pub pass_all_registers :
    (networks : List String) (n : String) {s : System}
    → Reach s
    → contains networks n ≡ true
    → IsRegistered n (pass_all networks s)
unfolding pass_all
pass_all_registers [] n r h = absurd (ground arith)
pass_all_registers (m ∷ networks) n {s} r h = elim (Bool-cases (n == m)) [
  | inl e ↦
      pass_all-IsRegistered networks n (pass m s)
        (subst (λ k. IsRegistered k (pass m s)) (sym ((==_iff n m).0 e)) (passed-IsRegistered m r))
  | inr e ↦ pass_all_registers networks n (passed m r) (ground arith)
]
