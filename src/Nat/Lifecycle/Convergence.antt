-- ===== src/Nat/Lifecycle/Convergence.antt =====
-- What a pass leaves on the disk, and what the next one makes of it.
use neutron_local_services_p.Base.{
  ℕ, zero, suc, ◌<◌, String, ◌≡◌, refl, sym, ap, ◌∙◌, subst, Bool, true, false, ◌&&◌, Option, none,
  some, List, [], ◌∷◌, ◌==◌, string_eq, option_eq, if◌then◌else◌, Bool-cases, ◌⊎◌, inl, inr, arith,
}
use neutron_local_services_p.Records.{AttachedService}
use neutron_local_services_p.Nat.{render_keepalived_conf}
use neutron_local_services_p.Nat.Lifecycle.{
  Disk, System, read_pid, running, prepare_netns, ensure_masquerade, poll, start_keepalived,
  reload_keepalived, write_files, bring_up, apply_conf, apply_locked, is_idle, start_command,
}

-- The two files that the plugin writes.
unfoldable pub files : {State : Type 0} → Disk × State → Option String × Option String
files w = (w.0.conf, w.0.hash)

-- Neither a command that is executed nor the passing of time touches them.
pub record IsClean (S : System) : Type 0 where
  pub exec_files :
      (ns : String) (cmd : List String) (w : Disk × S.State) → files (S.exec ns cmd w).1 ≡ files w
  pub pause_files : (w : Disk × S.State) → files (S.pause w) ≡ files w

module _ (S : System) (k : IsClean S) where
  either :
      (b : Bool) (v w : Disk × S.State) (fs : Option String × Option String)
      → files v ≡ fs
      → files w ≡ fs
      → files (if b then v else w) ≡ fs
  either true v w fs p q = p
  either false v w fs p q = q

  either_run :
      (b : Bool) (v w : Bool × (Disk × S.State)) (fs : Option String × Option String)
      → files v.1 ≡ fs
      → files w.1 ≡ fs
      → files (if b then v else w).1 ≡ fs
  either_run true v w fs p q = p
  either_run false v w fs p q = q

  files-ensure_masquerade :
      (ns : String) (w : Disk × S.State) → files (ensure_masquerade S ns w) ≡ files w
  unfolding ensure_masquerade
  files-ensure_masquerade ns w =
      either _ _ _ _ (k.exec_files ns _ w) (k.exec_files ns _ _ ∙ k.exec_files ns _ w)

  files-prepare_netns : (ns : String) (w : Disk × S.State) → files (prepare_netns S ns w) ≡ files w
  unfolding prepare_netns
  files-prepare_netns ns w =
      rw (files-ensure_masquerade, k.exec_files, k.exec_files, k.exec_files) refl

  files-poll : (polls : ℕ) (w : Disk × S.State) → files (poll S polls w) ≡ files w
  unfolding poll
  files-poll zero w = refl
  files-poll (suc n) w = either _ _ _ _ refl (files-poll n (S.pause w) ∙ k.pause_files w)

  files-start_keepalived :
      (polls : ℕ) (n ns : String) (w : Disk × S.State)
      → files (start_keepalived S polls n ns w).1 ≡ files w
  unfolding start_keepalived
  files-start_keepalived polls n ns w =
      either_run _ _ _ _ (files-poll polls _ ∙ k.exec_files ns _ w) (k.exec_files ns _ w)

  files-reload_keepalived :
      (n : String) (pid : Option ℕ) (w : Disk × S.State)
      → files (reload_keepalived S n pid w).1 ≡ files w
  unfolding reload_keepalived
  files-reload_keepalived n none w = refl
  files-reload_keepalived n (some pid) w = either_run _ _ _ _ (k.exec_files _ _ w) refl

  files-bring_up :
      (polls : ℕ) (n ns : String) (was_running : Bool) (pid : Option ℕ) (w : Disk × S.State)
      → files (bring_up S polls n ns was_running pid w).1 ≡ files w
  unfolding bring_up
  files-bring_up polls n ns was_running pid w =
      let reloaded : Bool × (Disk × S.State) = reload_keepalived S n pid w in
      let again : Bool × (Disk × S.State) = start_keepalived S polls n ns reloaded.1 in
      either_run was_running (if reloaded.0 then reloaded else again)
        (start_keepalived S polls n ns w) (files w)
        (either_run reloaded.0 reloaded again (files w) (files-reload_keepalived n pid w)
          (files-start_keepalived polls n ns reloaded.1 ∙ files-reload_keepalived n pid w))
        (files-start_keepalived polls n ns w)

  module _ (polls : ℕ) (n ns conf : String) (w : Disk × S.State) where
    abbrev IsWritten : Disk × S.State → Type 0
    IsWritten v = (v.0.conf ≡ some conf) × (v.0.hash ≡ some (S.sha256 conf))

    written : (v : Disk × S.State) → files v ≡ files (write_files S conf w) → IsWritten v
    unfolding files write_files
    written v e = (ap (λ f. f.0) e, ap (λ f. f.1) e)

    -- The part that follows the check for idleness: nothing to do, or both files are written.
    apply_conf_cases :
        ((apply_conf S polls n ns conf w ≡ (true, w))
          × (w.0.hash ≡ some (S.sha256 conf))
          × (running S w ≡ true))
        ⊎ IsWritten (apply_conf S polls n ns conf w).1
    unfolding apply_conf
    apply_conf_cases =
        let up : Bool × (Disk × S.State) =
          bring_up S polls n ns (running S w) (read_pid w.0)
            (prepare_netns S ns (write_files S conf w)) in
        elim (Bool-cases ((w.0.hash == some (S.sha256 conf)) && running S w)) [
          | inl e ↦ inl (ground arith, ground arith, ground arith)
          | inr e ↦ inr (
              rw e (
                written up.1 (
                  files-bring_up polls n ns (running S w) (read_pid w.0) _
                  ∙ files-prepare_netns ns (write_files S conf w))))
        ]

  idle_stopped :
      (services : List AttachedService) (v : Disk × S.State)
      → is_idle S services v ≡ true
      → running S v ≡ false
  idle_stopped [] v e = ground arith
  idle_stopped (svc ∷ services) v e = absurd (ground arith)

  module _ (polls : ℕ) (n ns : String) (services : List AttachedService) where
    abbrev pub text : String
    text = render_keepalived_conf S.resolve_check_script n services

    settled :
        (v : Disk × S.State)
        → v.0.hash ≡ some (S.sha256 text)
        → running S v ≡ true
        → apply_locked S polls n ns services v ≡ (true, v)
    unfolding apply_locked apply_conf
    settled v e h = ground arith

    module _ (w : Disk × S.State) where
      abbrev pub pass : Disk × S.State
      pass = (apply_locked S polls n ns services w).1

      pass_cases :
          ((is_idle S services w ≡ true) × (pass ≡ w))
          ⊎ ((is_idle S services w ≡ false) × (pass ≡ (apply_conf S polls n ns text w).1))
      unfolding apply_locked
      pass_cases = elim (Bool-cases (is_idle S services w)) [
        | inl e ↦ inl (e, ground arith)
        | inr e ↦ inr (e, ground arith)
      ]

      pass_hash : is_idle S services w ≡ false → pass.0.hash ≡ some (S.sha256 text)
      pass_hash e = elim pass_cases [
        | inl (i, p) ↦ absurd (ground (arith, sym i ∙ e))
        | inr (i, p) ↦ elim (apply_conf_cases polls n ns text w) [
          | inl (q, h, r) ↦ ap (λ v. v.0.hash) p ∙ ap (λ a. a.1.0.hash) q ∙ h
          | inr (c, h) ↦ ap (λ v. v.0.hash) p ∙ h
        ]
      ]

      -- Whatever became of the commands of a pass: if keepalived runs after it, another pass with
      -- the same services returns at once and changes nothing.
      pub apply_locked_twice :
          running S pass ≡ true → apply_locked S polls n ns services pass ≡ (true, pass)
      apply_locked_twice h = elim (Bool-cases (is_idle S services w)) [
        | inr e ↦ settled pass (pass_hash e) h
        | inl e ↦ elim pass_cases [
          | inl (i, p) ↦
              absurd (ground (arith, sym h ∙ ap (running S) p ∙ idle_stopped services w i))
          | inr (i, p) ↦ absurd (ground (arith, sym i ∙ e))
        ]
      ]

      -- Let SHA-256 not collide, and let the configuration on the disk be that of the hash next to it.
      -- Then a pass leaves the configuration of its services on the disk, unless there are none and
      -- keepalived does not run.
      pub apply_locked_conf :
          ((a b : String) → S.sha256 a ≡ S.sha256 b → a ≡ b)
          → (old : String) → w.0.conf ≡ some old
          → w.0.hash ≡ some (S.sha256 old)
          → is_idle S services w ≡ false
          → pass.0.conf ≡ some text
      apply_locked_conf injective old c h e = elim pass_cases [
        | inl (i, p) ↦ absurd (ground (arith, sym i ∙ e))
        | inr (i, p) ↦ elim (apply_conf_cases polls n ns text w) [
          | inl (q, h', r) ↦
              let same : old ≡ text = injective old text (ground (arith, sym h ∙ h')) in
              ap (λ v. v.0.conf) p ∙ ap (λ a. a.1.0.conf) q ∙ c ∙ ap some same
          | inr (c', h') ↦ ap (λ v. v.0.conf) p ∙ c'
        ]
      ]

-- `n` sleeps.
abbrev pub pauses : (S : System) → ℕ → Disk × S.State → Disk × S.State
pauses S zero w = w
pauses S (suc n) w = pauses S n (S.pause w)

module _ (S : System) where
  poll-running :
      (polls k : ℕ) (w : Disk × S.State)
      → k < polls
      → running S (pauses S k w) ≡ true
      → running S (poll S polls w) ≡ true
  unfolding poll
  poll-running zero k w lt h = absurd (omega arith)
  poll-running (suc polls) zero w lt h = ground arith
  poll-running (suc polls) (suc k) w lt h = elim (Bool-cases (running S w)) [
    | inl e ↦ ground arith
    | inr e ↦ rw e (poll-running polls k (S.pause w) (omega arith) h)
  ]

  start_running :
      (polls k : ℕ) (n ns : String) (v : Disk × S.State)
      → k < polls
      → (S.exec ns (start_command n) v).0 ≡ true
      → running S (pauses S k (S.exec ns (start_command n) v).1) ≡ true
      → running S (start_keepalived S polls n ns v).1 ≡ true
  unfolding start_keepalived
  start_running polls k n ns v lt e h = rw e (poll-running polls k _ lt h)

  pass_started :
      (polls : ℕ) (n ns : String) (svc : AttachedService) (services : List AttachedService)
      (w : Disk × S.State)
      → running S w ≡ false
      → let conf = render_keepalived_conf S.resolve_check_script n (svc ∷ services) in
        apply_locked S polls n ns (svc ∷ services) w
        ≡ start_keepalived S polls n ns (prepare_netns S ns (write_files S conf w))
  unfolding apply_locked apply_conf bring_up
  pass_started polls n ns svc services w h = ground arith

  -- Let every start of keepalived return and be alive after the same number of sleeps, one that
  -- fits before the deadline. Then a pass for a network whose keepalived does not run ends with a
  -- running one, if there are services.
  pub apply_locked-running :
      (polls k : ℕ) (n ns : String) (svc : AttachedService) (services : List AttachedService)
      (w : Disk × S.State)
      → k < polls
      → ((v : Disk × S.State) → (S.exec ns (start_command n) v).0 ≡ true)
      → ((v : Disk × S.State) → running S (pauses S k (S.exec ns (start_command n) v).1) ≡ true)
      → running S w ≡ false
      → running S (apply_locked S polls n ns (svc ∷ services) w).1 ≡ true
  apply_locked-running polls k n ns svc services w lt spawns lives h =
      let conf = render_keepalived_conf S.resolve_check_script n (svc ∷ services) in
      let v = prepare_netns S ns (write_files S conf w) in
      subst (λ (run : Bool × (Disk × S.State)). running S run.1 ≡ true)
        (sym (pass_started polls n ns svc services w h))
        (start_running polls k n ns v lt (spawns v) (lives v))
