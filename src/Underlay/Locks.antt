-- ===== src/Underlay/Locks.antt =====
-- The lock of one network: `_per_net_lock`, `_drop_per_net_lock` and the bodies that run under it.
-- Several threads take steps in any order. The plugins nat and proxy keep their apply locks the same
-- way, except that their teardown drops the lock without having held it.
pub mod Exclusion
pub mod Race
use neutron_local_services_p.Base.{
  ℕ, suc, ◌≡◌, Bool, true, false, Option, none, some, ◌==◌, nat_eq, if◌then◌else◌,
}

-- Which body a thread runs: one that provisions or refreshes, or a teardown.
pub data Body : Type 0 where
  ordinary teardown : Body

-- Not in a call; with the lock object in hand, waiting for it; in the body; and after the body of a
-- teardown, before `_drop_per_net_lock`.
pub data Pc : Type 0 where
  idle leaving : Pc
  waiting inside : Body → ℕ → Pc

-- The entry of the table, the number of the next lock object, which objects are held, and the threads.
pub record System : Type 0 where
  pub entry : Option ℕ
  pub next : ℕ
  pub held : ℕ → Bool
  pub pc : ℕ → Pc

abbrev pub update {ℓ} : {A : Type ℓ} → (ℕ → A) → ℕ → A → ℕ → A
update f i a j = if j == i then a else f j

-- What a thread does after its body.
abbrev pub after : Body → Pc
after ordinary = idle
after teardown = leaving

pub data Step (s : System) : System → Type 0 where
  get :
      (i l : ℕ) (b : Body)
      → s.pc i ≡ idle
      → s.entry ≡ some l
      → Step s (record s { pc = update s.pc i (waiting b l) })
  create :
      (i : ℕ) (b : Body)
      → s.pc i ≡ idle
      → s.entry ≡ none
      → Step s (record s {
        entry = some s.next;
        next = suc s.next;
        pc = update s.pc i (waiting b s.next);
      })
  acquire :
      (i l : ℕ) (b : Body)
      → s.pc i ≡ waiting b l
      → s.held l ≡ false
      → Step s (record s { held = update s.held l true; pc = update s.pc i (inside b l) })
  release :
      (i l : ℕ) (b : Body)
      → s.pc i ≡ inside b l
      → Step s (record s { held = update s.held l false; pc = update s.pc i (after b) })
  drop : (i : ℕ) → s.pc i ≡ leaving → Step s (record s { entry = none; pc = update s.pc i idle })

pub data Steps (s : System) : System → Type 0 where
  here : Steps s s
  later : {t u : System} → Steps s t → Step t u → Steps s u

abbrev pub start : System
start = record { entry = none; next = 0; held = λ l. false; pc = λ i. idle }

abbrev pub is_inside : Pc → Bool
is_inside idle = false
is_inside leaving = false
is_inside (waiting b l) = false
is_inside (inside b l) = true
