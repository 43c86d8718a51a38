-- ===== src/Tests/Locks.antt =====
-- The lock of one network: runs that the theorems about it speak of.
use neutron_local_services_p.Base.{ℕ, ◌≡◌, refl, true, some, nat_eq, ◌==◌, if◌then◌else◌, arith}
use neutron_local_services_p.Underlay.Locks.{
  Pc, idle, ordinary, teardown, waiting, inside, System, update, get, create, acquire, Steps, start,
  is_inside,
}
use neutron_local_services_p.Underlay.Locks.Race.{exclusion_lost}
use neutron_local_services_p.Underlay.Locks.Exclusion.{
  exclusion, Ordinary, begun, went, is_ordinary,
}

-- Thread 0 tears the network down, thread 1 waits, thread 2 is to come.
abbrev busy : System
busy = record start {
  entry = some 0;
  next = 1;
  held = update start.held 0 true;
  pc = update (update start.pc 0 (inside teardown 0)) 1 (waiting ordinary 0);
}

exclusion_lost_example :
    (t : System) × Steps busy t × (is_inside (t.pc 1) ≡ true) × (is_inside (t.pc 2) ≡ true)
unfolding nat_eq
exclusion_lost_example =
    exclusion_lost busy 0 1 2 0 ordinary refl refl refl refl refl refl refl refl

abbrev first : System
first = record start { entry = some 0; next = 1; pc = update start.pc 0 (waiting ordinary 0) }

abbrev second : System
second = record first {
  held = update first.held 0 true;
  pc = update first.pc 0 (inside ordinary 0);
}

abbrev third : System
third = record second { pc = update second.pc 1 (waiting ordinary 0) }

one_ordinary :
    (p q : Pc) (i j : ℕ)
    → is_ordinary p ≡ true
    → is_ordinary q ≡ true
    → is_ordinary (if j == i then p else q) ≡ true
one_ordinary p q i j h k = ground arith

third_reached : Ordinary third
unfolding nat_eq
third_reached =
    went
      (went
        (went begun (create 0 ordinary refl refl)
          (λ j. one_ordinary (waiting ordinary 0) idle 0 j refl refl))
        (acquire 0 0 ordinary refl refl)
        (λ j.
          one_ordinary (inside ordinary 0) (first.pc j) 0 j refl
            (one_ordinary (waiting ordinary 0) idle 0 j refl refl)))
      (get 1 0 ordinary refl refl)
      (λ j. one_ordinary (waiting ordinary 0) (second.pc j) 1 j refl (
        one_ordinary (inside ordinary 0) (first.pc j) 0 j refl
          (one_ordinary (waiting ordinary 0) idle 0 j refl refl)))

abbrev holder : ℕ
holder = 0

exclusion_example : holder ≡ holder
unfolding nat_eq
exclusion_example = exclusion third holder holder third_reached refl refl
