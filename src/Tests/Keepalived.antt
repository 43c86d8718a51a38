-- ===== src/Tests/Keepalived.antt =====
-- The NAT plugin on a host where keepalived comes up at once.
use neutron_local_services_p.Base.{
  String, ◌≡◌, refl, Bool, true, false, none, some, List, [], ◌∷◌, ◌==◌, string_eq, if◌then◌else◌,
  arith,
}
use neutron_local_services_p.Records.{AttachedService}
use neutron_local_services_p.Nat.Lifecycle.{
  Disk, System, delivered, no_files, running, apply_locked,
}
use neutron_local_services_p.Nat.Lifecycle.Convergence.{
  IsClean, files, apply_locked_twice, apply_locked-running,
}
use neutron_local_services_p.Tests.{service, backend}

abbrev is_start : List String → Bool
is_start [] = false
is_start (c ∷ cmd) = c == "keepalived"

abbrev with_pid : Disk → Disk
with_pid disk = record { conf = disk.conf; hash = disk.hash; pid = some (some 42) }

-- Starting keepalived writes its pid file.
abbrev pub host : System
host = record {
  State = Unit {0};
  sha256 = λ text. text;
  resolve_check_script = λ name. none;
  signal = λ pid s. delivered;
  exec = λ ns cmd w. (true, (if is_start cmd then with_pid w.0 else w.0, w.1));
  pause = λ w. w;
  rmtree = λ w. (no_files, w.1);
}

exec_clean :
    (b : Bool) (w : Disk × Unit {0}) → files (if b then with_pid w.0 else w.0, w.1) ≡ files w
unfolding files
exec_clean true w = refl
exec_clean false w = refl

host-IsClean : IsClean host
host-IsClean = record {
  exec_files = λ ns cmd w. exec_clean (is_start cmd) w;
  pause_files = λ w. refl;
}

abbrev web : AttachedService
web = record {
  service = service "s1" "opt-in" "169.254.169.5";
  backends = backend "e1" "s1" true ∷ backend "e2" "s1" false ∷ [];
}

abbrev pub stopped : Disk × Unit {0}
stopped = (no_files, tt)

abbrev after_start : Disk × Unit {0}
after_start = (apply_locked host 3 "net-1" "localsvc-net-1" (web ∷ []) stopped).1

apply_locked-running_example : running host after_start ≡ true
unfolding running string_eq
apply_locked-running_example =
    apply_locked-running host 3 0 "net-1" "localsvc-net-1" web [] stopped (omega arith) (λ v. refl)
      (λ v. refl) refl

apply_locked_twice_example :
    apply_locked host 3 "net-1" "localsvc-net-1" (web ∷ []) after_start ≡ (true, after_start)
apply_locked_twice_example =
    apply_locked_twice host host-IsClean 3 "net-1" "localsvc-net-1" (web ∷ []) stopped
      apply_locked-running_example

-- A configuration of an earlier pass.
abbrev stale : Disk × Unit {0}
stale = (record { conf = some "old"; hash = some "old"; pid = some (some 42) }, tt)
