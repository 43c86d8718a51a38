-- ===== src/Proxy/Catalog/Interleaved.antt =====
-- Passes over different networks, which only the lock of each network serialises: each step takes
-- the lock of what it reads or writes, and no lock spans two of them.
use neutron_local_services_p.Base.{
  ℕ, ◌+◌, String, ◌≡◌, refl, ap, ◌∙◌, false, some, List, [], ◌∷◌, ◌==◌, string_eq, if◌then◌else◌,
  arith,
}
use neutron_local_services_p.Proxy.{Entry}
use neutron_local_services_p.Proxy.Catalog.{
  State, set_slice, all_entries, current, next_generation, write_file,
}

-- Where the pass over a network is: not running, after `_set_slice`, with the snapshot in hand, and
-- with the number too.
pub data Pc : Type 0 where
  idle stored : Pc
  holding : List Entry → Pc
  numbered : ℕ → List Entry → Pc

pub data Move (network_id : String) (s : State) : Pc → State → Pc → Type 0 where
  store : (entries : List Entry) → Move network_id s idle (set_slice network_id entries s) stored
  snapshot : Move network_id s stored s (holding (all_entries s.slices))
  number :
      (entries : List Entry)
      → Move network_id s
          (holding entries)
          (next_generation s).1
          (numbered (next_generation s).0 entries)
  write :
      (g : ℕ) (entries : List Entry)
      → Move network_id s (numbered g entries) (write_file g entries s) idle

pub record System : Type 0 where
  pub shared : State
  pub pc : String → Pc

abbrev pub update : (String → Pc) → String → Pc → String → Pc
update pc i p j = if j == i then p else pc j

pub data Step (s : System) : System → Type 0 where
  step :
      (i : String) {p p' : Pc} {m : State}
      → s.pc i ≡ p
      → Move i s.shared p m p'
      → Step s (record { shared = m; pc = update s.pc i p' })

pub data Steps (s : System) : System → Type 0 where
  here : Steps s s
  later : {t u : System} → Steps s t → Step t u → Steps s u

at_self : (f : String → Pc) (i : String) (p : Pc) → update f i p i ≡ p
at_self f i p = ground arith

at_other : (f : String → Pc) (i j : String) (p : Pc) → (j == i) ≡ false → update f i p j ≡ f j
at_other f i j p d = ground arith

after_two :
    (f : String → Pc) (i j : String) (p q : Pc)
    → (j == i) ≡ false
    → update (update f i p) i q j ≡ f j
after_two f i j p q d = at_other (update f i p) i j q d ∙ at_other f i j p d

current-set_slice :
    (i : String) (entries : List Entry) (s : State) → current (set_slice i entries s) ≡ current s
unfolding current set_slice
current-set_slice i [] s = refl
current-set_slice i (e ∷ entries) s = refl

join : {s t u : System} → Steps s t → Steps t u → Steps s u
join p here = p
join p (later q r) = later (join p q) r

-- The first half of a pass, up to the snapshot.
abbrev pub taken : String → List Entry → System → System
taken i entries s = record {
  shared = set_slice i entries s.shared;
  pc =
      update (update s.pc i stored) i (holding (all_entries (set_slice i entries s.shared).slices));
}

take_steps :
    (i : String) (entries : List Entry) (s : System) → s.pc i ≡ idle → Steps s (taken i entries s)
take_steps i entries s h =
    later (later here (step i h (store entries))) (step i (at_self s.pc i stored) snapshot)

-- The second half, from the snapshot on.
abbrev pub put : String → List Entry → System → System
put i entries s = record {
  shared = write_file (next_generation s.shared).0 entries (next_generation s.shared).1;
  pc = update (update s.pc i (numbered (next_generation s.shared).0 entries)) i idle;
}

put_steps :
    (i : String) (entries : List Entry) (s : System)
    → s.pc i ≡ holding entries
    → Steps s (put i entries s)
put_steps i entries s h =
    later (later here (step i h (number entries)))
      (step i (at_self s.pc i (numbered (next_generation s.shared).0 entries)) (write _ entries))

taken_pc :
    (i : String) (entries : List Entry) (s : System)
    → (taken i entries s).pc i ≡ holding (all_entries (set_slice i entries s.shared).slices)
taken_pc i entries s = at_self (update s.pc i stored) i _

put_pc : (i : String) (entries : List Entry) (s : System) → (put i entries s).pc i ≡ idle
put_pc i entries s = at_self (update s.pc i (numbered (next_generation s.shared).0 entries)) i idle

-- From any state in which the passes over two networks are not running, there is an order of their
-- steps that ends with both passes done and the first network's entries among the slices, but with
-- a file that was assembled before them and has the newest generation: the worker takes it.
pub lost_update :
    (s : System) (a b : String) (ea eb : List Entry)
    → (a == b) ≡ false
    → s.pc a ≡ idle
    → s.pc b ≡ idle
    → (t : System) × Steps s t
      × (t.pc a ≡ idle)
      × (t.pc b ≡ idle)
      × (t.shared.slices ≡ (set_slice a ea (set_slice b eb s.shared)).slices)
      × (t.shared.file
          ≡ some (record {
            generation = current s.shared + 2;
            entries = all_entries (set_slice b eb s.shared).slices;
          }))
unfolding next_generation write_file current
lost_update s a b ea eb d pa pb =
    let d' : (b == a) ≡ false = ground arith in
    let s2 : System = taken b eb s in
    let old : List Entry = all_entries (set_slice b eb s.shared).slices in
    let s4 : System = taken a ea s2 in
    let new : List Entry = all_entries (set_slice a ea s2.shared).slices in
    let s6 : System = put a new s4 in
    let s8 : System = put b old s6 in
    (
      s8,
      join (join (take_steps b eb s pb) (take_steps a ea s2 (after_two s.pc b a _ _ d ∙ pa))) (
          join (put_steps a new s4 (taken_pc a ea s2)) (
            put_steps b old s6
              (after_two s4.pc a b _ _ d' ∙ after_two s2.pc a b _ _ d' ∙ taken_pc b eb s))),
      after_two s6.pc b a _ _ d ∙ put_pc a new s4,
      put_pc b old s6,
      refl,
      rw (current-set_slice a ea (set_slice b eb s.shared), current-set_slice b eb s.shared)
          (ap (λ g. some (record { generation = g; entries = old })) (omega arith)),
    )
