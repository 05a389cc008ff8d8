-- ===== src/Processes.antt =====
-- Processes: `process_kill_subtree` of src/lib/process/process.c, over the call `kill` of the
-- system. The log is left out.
pub mod Kill
pub mod Start
use cmon.Base.{
  ℕ, zero, suc, Bool, Option, none, some, List, ◌==◌, if◌then◌else◌, Run, ok, fault, ◌>>=◌, fetch,
}
use cmon.Base.Int.{ℤ, pos}
use cmon.Integers.{CmonIntArray}

-- `kill(pid, SIGTERM)`: does it succeed?
pub record Signals : Type 1 where
  pub World : Type 0
  pub kill : ℤ → World → Bool × World

module _ (sys : Signals) where
  -- `for (int i = pid_array->len-1; i >= 0; i--)`, with the rounds left.
  unfoldable pub kill_from : List ℤ → ℕ → sys.World → Run sys.World
  kill_from pids zero w = ok w
  kill_from pids (suc i) w = do pid ← fetch pids i; kill_from pids i (sys.kill pid w).1

  -- `process_kill_subtree`
  unfoldable pub kill_subtree : Option CmonIntArray → sys.World → Run (ℤ × sys.World)
  unfolding kill_from
  kill_subtree none w = ok (pos 1, w)
  kill_subtree (some pids) w =
      if pids.len == 0 then ok (pos 1, w) else do w' ← kill_from pids.arr pids.len w; ok (pos 0, w')
