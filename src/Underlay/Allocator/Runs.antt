-- ===== src/Underlay/Allocator/Runs.antt =====
-- Sequences of calls of the allocator.
use neutron_local_services_p.Base.{String, Bool, List, [], ◌∷◌, nat_eq, string_eq}
use neutron_local_services_p.Underlay.Allocator.{Allocator, free, addresses}
use neutron_local_services_p.Underlay.Allocator.Invariant.{IsValid, allocate-IsValid, free-IsValid}

-- What the agent asks of the allocator; the Boolean says whether the file can be written.
pub data Call : Type 0 where
  allocating freeing : Bool → String → Call

unfoldable pub perform : Call → Allocator → Allocator
perform (allocating writable n) a = (addresses writable n a).1
perform (freeing writable n) a = (free writable n a).1

unfoldable pub run : List Call → Allocator → Allocator
unfolding perform
run [] a = a
run (c ∷ cs) a = run cs (perform c a)

perform-IsValid : (c : Call) (a : Allocator) → IsValid a → IsValid (perform c a)
unfolding perform addresses
perform-IsValid (allocating writable n) a v = allocate-IsValid writable n a v
perform-IsValid (freeing writable n) a v = free-IsValid writable n a v

-- From a valid allocator, no sequence of calls, whether or not the file can be written at each,
-- leads to one in which two networks share an index or an index lies outside the pool.
pub run-IsValid : (cs : List Call) (a : Allocator) → IsValid a → IsValid (run cs a)
unfolding run
run-IsValid [] a v = v
run-IsValid (c ∷ cs) a v = run-IsValid cs (perform c a) (perform-IsValid c a v)
