-- ===== src/Nat/Lifecycle.antt =====
-- How the plugin runs keepalived: `apply_config`, `teardown` and what they call. The disk holds the
-- files of one network's state directory; keepalived and the tools that are executed are an
-- interface, which may read the disk and write the pid file.
pub mod Convergence
use neutron_local_services_p.Base.{
  ℕ, zero, suc, String, ◌<>◌, Bool, true, false, not, ◌&&◌, Option, none, some, List, [], ◌∷◌, ◌==◌,
  string_eq, option_eq, if◌then◌else◌,
}
use neutron_local_services_p.Base.Text.{decimal, prefix_of, drop_prefix}
use neutron_local_services_p.Constants.{netns_prefix}
use neutron_local_services_p.Records.{AttachedService}
use neutron_local_services_p.Nat.{render_keepalived_conf}

-- `keepalived.conf`, `config.hash`, and `keepalived.pid`, which is `some none` where it holds no
-- number; an empty one reads as 0.
pub record Disk : Type 0 where
  pub conf : Option String
  pub hash : Option String
  pub pid : Option (Option ℕ)

abbrev pub no_files : Disk
no_files = record { conf = none; hash = none; pid = none }

-- What `os.kill(pid, 0)` does.
pub data Signal : Type 0 where
  delivered no_such_process not_permitted other_error : Signal

-- An execution in a namespace returns, with `true`, or raises; either may change the system and the
-- disk. `pause` is the sleep between two polls.
pub record System : Type 1 where
  pub State : Type 0
  pub sha256 : String → String
  pub resolve_check_script : String → Option String
  pub signal : ℕ → State → Signal
  pub exec : String → List String → Disk × State → Bool × (Disk × State)
  pub pause : Disk × State → Disk × State
  pub rmtree : Disk × State → Disk × State

unfoldable pub state_dir : String → String
state_dir network_id = "/var/lib/neutron-local-services/" <> (network_id <> "/nat")

unfoldable pub conf_path : String → String
unfolding state_dir
conf_path network_id = state_dir network_id <> "/keepalived.conf"

unfoldable pub pid_path : String → String
unfolding state_dir
pid_path network_id = state_dir network_id <> "/keepalived.pid"

unfoldable pub read_pid : Disk → Option ℕ
read_pid disk = elim disk.pid [ none ↦ none | some number ↦ number ]

abbrev pub start_command : String → List String
start_command network_id =
    "keepalived" ∷ "-f" ∷ conf_path network_id ∷ "-p" ∷ pid_path network_id ∷ "-D" ∷ []

module _ (S : System) where
  unfoldable pub process_alive : Option ℕ → S.State → Bool
  process_alive none s = false
  process_alive (some zero) s = false
  process_alive (some (suc n)) s = elim (S.signal (suc n) s) [
    | delivered ↦ true
    | no_such_process ↦ false
    | not_permitted ↦ true
    | other_error ↦ false
  ]

  -- The plugin's test that keepalived runs.
  unfoldable pub running : Disk × S.State → Bool
  unfolding process_alive read_pid
  running w = process_alive (read_pid w.0) w.1

  abbrev masquerade : String → List String
  masquerade mode = "iptables" ∷ "-t" ∷ "nat" ∷ mode ∷ "POSTROUTING" ∷ "-j" ∷ "MASQUERADE" ∷ []

  unfoldable pub ensure_masquerade : String → Disk × S.State → Disk × S.State
  ensure_masquerade netns_name w =
      let checked = S.exec netns_name (masquerade "-C") w in
      if checked.0 then checked.1 else (S.exec netns_name (masquerade "-A") checked.1).1

  -- What the commands raise is logged.
  unfoldable pub prepare_netns : String → Disk × S.State → Disk × S.State
  unfolding ensure_masquerade
  prepare_netns netns_name w =
      let loaded = (S.exec netns_name ("modprobe" ∷ "ip_vs" ∷ []) w).1 in
      let tracked =
        (S.exec netns_name ("sysctl" ∷ "-w" ∷ "net.ipv4.vs.conntrack=1" ∷ []) loaded).1 in
      let forwarded =
        (S.exec netns_name ("sysctl" ∷ "-w" ∷ "net.ipv4.ip_forward=1" ∷ []) tracked).1 in
      ensure_masquerade netns_name forwarded

  -- The polls for the pid file, as many as fit before the deadline.
  unfoldable pub poll : ℕ → Disk × S.State → Disk × S.State
  unfolding running
  poll zero w = w
  poll (suc n) w = let later = poll n (S.pause w) in if running w then w else later

  unfoldable pub start_keepalived : ℕ → String → String → Disk × S.State → Bool × (Disk × S.State)
  unfolding poll
  start_keepalived polls network_id netns_name w =
      let spawned = S.exec netns_name (start_command network_id) w in
      if spawned.0 then (true, poll polls spawned.1) else spawned

  -- With the pid that the caller has read.
  unfoldable pub reload_keepalived : String → Option ℕ → Disk × S.State → Bool × (Disk × S.State)
  unfolding process_alive
  reload_keepalived network_id none w = (false, w)
  reload_keepalived network_id (some pid) w =
      if process_alive (some pid) w.1
      then S.exec (netns_prefix <> network_id) ("kill" ∷ "-HUP" ∷ decimal pid ∷ []) w
      else (false, w)

  unfoldable pub write_files : String → Disk × S.State → Disk × S.State
  write_files conf w =
      (record { conf = some conf; hash = some (S.sha256 conf); pid = w.0.pid }, w.1)

  -- The end of `_apply_locked`, where `was_running` and `pid` were read before the files were
  -- written.
  unfoldable pub bring_up :
      ℕ → String → String → Bool → Option ℕ → Disk × S.State → Bool × (Disk × S.State)
  unfolding start_keepalived reload_keepalived
  bring_up polls network_id netns_name was_running pid w =
      let reloaded = reload_keepalived network_id pid w in
      let fresh = start_keepalived polls network_id netns_name w in
      let again = start_keepalived polls network_id netns_name reloaded.1 in
      if was_running then (if reloaded.0 then reloaded else again) else fresh

  unfoldable pub apply_conf :
      ℕ → String → String → String → Disk × S.State → Bool × (Disk × S.State)
  unfolding bring_up prepare_netns write_files running
  apply_conf polls network_id netns_name conf w =
      let up =
        bring_up polls network_id netns_name (running w) (read_pid w.0)
          (prepare_netns netns_name (write_files conf w)) in
      if (w.0.hash == some (S.sha256 conf)) && running w then (true, w) else up

  -- `not services and not _process_alive(existing_pid)`
  abbrev pub is_idle : List AttachedService → Disk × S.State → Bool
  is_idle [] w = not (running w)
  is_idle (svc ∷ services) w = false

  unfoldable pub apply_locked :
      ℕ → String → String → List AttachedService → Disk × S.State → Bool × (Disk × S.State)
  unfolding apply_conf
  apply_locked polls network_id netns_name services w =
      let applied =
        apply_conf polls network_id netns_name
          (render_keepalived_conf S.resolve_check_script network_id services) w in
      if is_idle services w then (true, w) else applied

  unfoldable pub apply_config :
      ℕ → String → List AttachedService → Disk × S.State → Bool × (Disk × S.State)
  unfolding apply_locked
  apply_config polls netns_name services w =
      if prefix_of netns_prefix netns_name
      then apply_locked polls (drop_prefix netns_prefix netns_name) netns_name services w
      else (true, w)

  abbrev kill_pid : String → Option ℕ → Disk × S.State → Disk × S.State
  kill_pid netns_name none w = w
  kill_pid netns_name (some pid) w =
      if running w then (S.exec netns_name ("kill" ∷ "-TERM" ∷ decimal pid ∷ []) w).1 else w

  unfoldable pub teardown : String → Disk × S.State → Disk × S.State
  unfolding running
  teardown netns_name w =
      if prefix_of netns_prefix netns_name
      then S.rmtree (kill_pid netns_name (read_pid w.0) w)
      else w
