-- ===== src/Underlay/Locks/Exclusion.antt =====
-- Without a teardown, the lock does what it is there for.
use neutron_local_services_p.Base.{
  ℕ, suc, ◌≡◌, refl, sym, ap, ◌∙◌, Bool, true, false, Bool-cases, inl, inr, Option, none, some,
  nat_eq, arith,
}
use neutron_local_services_p.Underlay.Locks.{
  Body, ordinary, teardown, Pc, idle, leaving, waiting, inside, System, update, after, Step, get,
  create, acquire, release, drop, is_inside, start,
}

-- The lock object that a thread has in hand.
abbrev pub object : Pc → Option ℕ
object idle = none
object leaving = none
object (waiting b l) = some l
object (inside b l) = some l

-- Every object in hand is the one of the table; a thread in its body holds it, and is alone there.
record IsGuarded (s : System) : Type 0 where
  one : (i l : ℕ) → object (s.pc i) ≡ some l → s.entry ≡ some l
  holds : (i l : ℕ) → is_inside (s.pc i) ≡ true → object (s.pc i) ≡ some l → s.held l ≡ true
  alone : (i j : ℕ) → is_inside (s.pc i) ≡ true → is_inside (s.pc j) ≡ true → i ≡ j

start-IsGuarded : IsGuarded start
start-IsGuarded = record {
  one = λ i l h. absurd (ground arith);
  holds = λ i l h k. absurd (ground arith);
  alone = λ i j h k. absurd (ground arith);
}

get-IsGuarded :
    (s : System) (i l : ℕ) (b : Body)
    → IsGuarded s
    → s.pc i ≡ idle
    → s.entry ≡ some l
    → IsGuarded (record s { pc = update s.pc i (waiting b l) })
get-IsGuarded s i l b g p e = record {
  one = λ j k h. ground (arith, g.one j k);
  holds = λ j k h h'. ground (arith, g.holds j k);
  alone = λ j k h h'. ground (arith, g.alone j k);
}

create-IsGuarded :
    (s : System) (i : ℕ) (b : Body)
    → IsGuarded s
    → s.pc i ≡ idle
    → s.entry ≡ none
    → IsGuarded
        (record s { entry = some s.next; next = suc s.next; pc = update s.pc i (waiting b s.next) })
create-IsGuarded s i b g p e = record {
  one = λ j k h. ground (arith, g.one j k);
  holds = λ j k h h'. ground (arith, g.holds j k);
  alone = λ j k h h'. ground (arith, g.alone j k);
}

inside_object : (p : Pc) → is_inside p ≡ true → (l : ℕ) × (object p ≡ some l)
inside_object (inside b l) h = (l, refl)
inside_object idle h = absurd (ground arith)
inside_object leaving h = absurd (ground arith)
inside_object (waiting b l) h = absurd (ground arith)

-- While the object that a thread waits for is free, no thread is in its body.
nobody_inside :
    (s : System) (i l : ℕ) (b : Body)
    → IsGuarded s
    → s.pc i ≡ waiting b l
    → s.held l ≡ false
    → (j : ℕ) → is_inside (s.pc j) ≡ false
nobody_inside s i l b g p e j = elim (Bool-cases (is_inside (s.pc j))) [
  | inl h ↦ not_holding h (inside_object (s.pc j) h)
  | inr h ↦ h
]
  where
    not_holding :
        is_inside (s.pc j) ≡ true
        → (k : ℕ) × (object (s.pc j) ≡ some k)
        → is_inside (s.pc j) ≡ false
    not_holding h (k, o) = ground (arith, g.holds j k h o, g.one j k o, g.one i l (ap object p))

acquire-IsGuarded :
    (s : System) (i l : ℕ) (b : Body)
    → IsGuarded s
    → s.pc i ≡ waiting b l
    → s.held l ≡ false
    → IsGuarded (record s { held = update s.held l true; pc = update s.pc i (inside b l) })
acquire-IsGuarded s i l b g p e = record {
  one = λ j k h. ground (arith, g.one j k, g.one i l (ap object p));
  holds = λ j k h h'. ground (arith, g.holds j k);
  alone = λ j k h h'. ground (arith, nobody_inside s i l b g p e j, nobody_inside s i l b g p e k);
}

release-IsGuarded :
    (s : System) (i l : ℕ) (b : Body)
    → IsGuarded s
    → s.pc i ≡ inside b l
    → IsGuarded (record s { held = update s.held l false; pc = update s.pc i (after b) })
release-IsGuarded s i l ordinary g p = record {
  one = λ j k h. ground (arith, g.one j k);
  holds = λ j k h h'. ground (arith, g.holds j k, g.alone j i);
  alone = λ j k h h'. ground (arith, g.alone j k);
}
release-IsGuarded s i l teardown g p = record {
  one = λ j k h. ground (arith, g.one j k);
  holds = λ j k h h'. ground (arith, g.holds j k, g.alone j i);
  alone = λ j k h h'. ground (arith, g.alone j k);
}

-- The thread is in no call of a teardown.
abbrev pub is_ordinary : Pc → Bool
is_ordinary idle = true
is_ordinary leaving = false
is_ordinary (waiting ordinary l) = true
is_ordinary (waiting teardown l) = false
is_ordinary (inside ordinary l) = true
is_ordinary (inside teardown l) = false

-- A run in which no thread ever begins a teardown.
pub data Ordinary : System → Type 0 where
  begun : Ordinary start
  went :
      {s t : System} → Ordinary s → Step s t → ((i : ℕ) → is_ordinary (t.pc i) ≡ true) → Ordinary t

none_leaving : {s : System} → Ordinary s → (i : ℕ) → s.pc i ≡ leaving → false ≡ true
none_leaving begun i p = absurd (ground arith)
none_leaving (went r st o) i p = sym (ap is_ordinary p) ∙ o i

step-IsGuarded : {s t : System} → Ordinary s → IsGuarded s → Step s t → IsGuarded t
step-IsGuarded {s} r g (get i l b p e) = get-IsGuarded s i l b g p e
step-IsGuarded {s} r g (create i b p e) = create-IsGuarded s i b g p e
step-IsGuarded {s} r g (acquire i l b p e) = acquire-IsGuarded s i l b g p e
step-IsGuarded {s} r g (release i l b p) = release-IsGuarded s i l b g p
step-IsGuarded {s} r g (drop i p) = absurd (let e = none_leaving r i p in cc)

Ordinary-IsGuarded : {t : System} → Ordinary t → IsGuarded t
Ordinary-IsGuarded begun = start-IsGuarded
Ordinary-IsGuarded (went r st o) = step-IsGuarded r (Ordinary-IsGuarded r) st

-- As long as no thread begins a teardown of the network, at most one thread is in its body, in
-- whatever order the threads take their steps.
pub exclusion :
    (t : System) (i j : ℕ)
    → Ordinary t
    → is_inside (t.pc i) ≡ true
    → is_inside (t.pc j) ≡ true
    → i ≡ j
exclusion t i j r h k = (Ordinary-IsGuarded r).alone i j h k
