-- ===== src/Underlay/Locks/Race.antt =====
-- What a teardown that drops the lock lets happen.
use neutron_local_services_p.Base.{ℕ, suc, ◌≡◌, refl, true, false, none, some, ◌==◌, nat_eq, arith}
use neutron_local_services_p.Underlay.Locks.{
  Body, ordinary, teardown, idle, leaving, waiting, inside, System, update, create, acquire,
  release, drop, Steps, here, later, is_inside,
}

-- While a teardown is in its body and a second thread waits for the lock, let a third one arrive
-- after the teardown has dropped the entry, and let the next lock object be new. Then there is an
-- order of the steps after which the second and the third thread are both in their bodies.
pub exclusion_lost :
    (s : System) (a b c l : ℕ) (body : Body)
    → s.pc a ≡ inside teardown l
    → s.pc b ≡ waiting body l
    → s.pc c ≡ idle
    → (a == b) ≡ false
    → (a == c) ≡ false
    → (b == c) ≡ false
    → (s.next == l) ≡ false
    → s.held s.next ≡ false
    → (t : System) × Steps s t × (is_inside (t.pc b) ≡ true) × (is_inside (t.pc c) ≡ true)
exclusion_lost s a b c l body pa pb pc ab ac bc new free =
    let s1 : System = record s { held = update s.held l false; pc = update s.pc a leaving } in
    let s2 : System = record s1 {
      held = update s1.held l true;
      pc = update s1.pc b (inside body l);
    } in
    let s3 : System = record s2 { entry = none; pc = update s2.pc a idle } in
    let s4 : System = record s3 {
      entry = some s3.next;
      next = suc s3.next;
      pc = update s3.pc c (waiting ordinary s3.next);
    } in
    let s5 : System = record s4 {
      held = update s4.held s3.next true;
      pc = update s4.pc c (inside ordinary s3.next);
    } in
    (
      s5,
      later
          (later
            (later
              (later (later here (release a l teardown pa))
                (acquire b l body (ground arith) (ground arith)))
              (drop a (ground arith)))
            (create c ordinary (ground arith) refl))
          (acquire c s3.next ordinary (ground arith) (ground arith)),
      ground arith,
      ground arith,
    )
