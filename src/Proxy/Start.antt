-- ===== src/Proxy/Start.antt =====
-- `c_proxy_start` of src/cmon_proxy/cmon_proxy.c: the loop that accepts clients, and the threads
-- that it makes, each with the address of the one variable `rc`. The order in which the loop and
-- the threads come to their next step is a list.
pub mod Race
mod Tests
use cmon.Base.{
  ℕ, zero, suc, Bool, true, false, Option, none, some, List, [], ◌∷◌, ◌++◌, get_elem?, set, ◌==◌,
}
use cmon.Base.Int.{ℤ, pos, negsuc}

-- A thread has yet to run `client_fd = *(int *)fd`, or it has this `client_fd`.
pub data Thread : Type 0 where
  created : Thread
  serving : ℤ → Thread

pub record Server : Type 0 where
  pub rc : ℤ
  pub threads : List Thread

-- A round of the loop, with what `accept` answers and whether `pthread_create` makes a thread, or
-- the first step of the thread at an index.
pub data Event : Type 0 where
  accepts : ℤ → Bool → Event
  begins : ℕ → Event

abbrev with_thread : Bool → List Thread → List Thread
with_thread made threads = elim made [ true ↦ threads ++ created ∷ [] | false ↦ threads ]

-- `if (rc == -1)`, in the loop.
unfoldable pub accepted : ℤ → Bool → Server → Server
accepted (negsuc zero) made s = record s { rc = negsuc zero }
accepted fd made s = record { rc = fd; threads = with_thread made s.threads }

-- The thread reads the variable as it is now.
abbrev pub begun : ℤ → Thread → Thread
begun rc created = serving rc
begun rc (serving fd) = serving fd

abbrev pub begin_at : List Thread → ℕ → ℤ → Option Thread → List Thread
begin_at threads i rc none = threads
begin_at threads i rc (some t) = set threads i (begun rc t)

unfoldable pub after : Event → Server → Server
unfolding accepted
after (accepts answer made) s = accepted answer made s
after (begins i) s = record s { threads = begin_at s.threads i s.rc (get_elem? s.threads i) }

unfoldable pub run : List Event → Server → Server
unfolding after
run [] s = s
run (e ∷ es) s = run es (after e s)

-- `c_proxy_start`, given what `c_sockets_get_listening_socket` gives, what `rc` holds, and the
-- events up to some time; `none` is its return of -1.
unfoldable pub proxy_start : ℤ → ℤ → List Event → Option Server
unfolding run
proxy_start (negsuc n) rc es = none
proxy_start (pos fd) rc es = some (run es (record { rc = rc; threads = [] }))
