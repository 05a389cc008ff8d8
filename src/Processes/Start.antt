-- ===== src/Processes/Start.antt =====
-- `process_start_child` of src/lib/process/process.c. `fork` returns in two processes, and the
-- model says of each what becomes of it.
pub mod Command
mod Tests
use cmon.Base.{ℕ, Option, none, some, List, Run, ok, exited, fault, ◌>>=◌, of_option}
use cmon.Base.Int.{ℤ, pos, negsuc}
use cmon.Text.{Bytes}
use cmon.Config.{CmonConfig}

-- What `fork` returns: 0 in the child, the child's number in the parent, or -1.
pub data Fork : Type 0 where
  child failed : Fork
  parent : ℕ → Fork

-- The process is another program from now on, with a list of arguments, or goes on with the result
-- of the call.
pub data Becomes : Type 0 where
  program : Bytes → List Bytes → Becomes
  goes_on : ℤ → Becomes

-- `execvp`, and what follows where it comes back, with `errno`.
unfoldable pub execute : CmonConfig → Option ℕ → Run Becomes
execute conf refused = do
  exe ← of_option conf.exe
  elim refused [ none ↦ ok (program exe.string conf.argv) | some errno ↦ exited errno ]

-- `process_start_child`
unfoldable pub start_child : CmonConfig → Fork → Option ℕ → Run Becomes
unfolding execute
start_child conf child refused = execute conf refused
start_child conf failed refused = ok (goes_on (negsuc 0))
start_child conf (parent pid) refused = ok (goes_on (pos pid))
