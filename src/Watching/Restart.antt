-- ===== src/Watching/Restart.antt =====
-- The restart of the program.
use cmon.Base.{
  ℕ, zero, suc, ◌≤◌, ◌<◌, ◌≡◌, refl, Option, some, List, [], length, map, All, arith, ok,
}
use cmon.Base.Int.{ℤ}
use cmon.Text.{Bytes}
use cmon.Config.{CmonConfig}
use cmon.Integers.{CmonIntArray, int_arr_new}
use cmon.Integers.Items.{Represents}
use cmon.PsTree.Numbers.{Short, numbers, joined}
use cmon.PsTree.Pids.{get_pids_from_pipe-numbers}
use cmon.PsTree.Pids as Pids
use cmon.Processes.Kill.{ended, kill_subtree-ended}
use cmon.Watching.{Children, restart}

-- A new array stands for no integers.
pub fresh-Represents :
    (n : ℕ) (block : List ℤ)
    → length block ≡ n
    → 0 < n
    → (a : CmonIntArray) × (int_arr_new n (some block) ≡ some a) × Represents a [] × (a.size ≡ n)
unfolding int_arr_new
fresh-Represents zero block size some_room = absurd (omega arith)
fresh-Represents (suc n) block size some_room = (
  record { len = 0; size = suc n; arr = block },
  refl,
  record { counted = refl; slots = size; room = omega arith; items = refl },
  refl,
)

-- When the program is started again, exactly the numbers that `pstree` prints for it, in however
-- many reads, are signalled, each once and the last one first; then the child is waited for, and
-- the new child is what the start of the configured program gives. For at least one number and at
-- most 5000, of at most nine digits each, and where `malloc` does not fail.
pub restart-ended :
    (os : Children) (ints : ℕ → Option (List ℤ)) (pid_buff : Bytes) (config : CmonConfig)
    (child : ℤ) (pieces : List Bytes) (w w1 : os.sys.World)
    → Pids.Ample ints
    → length pid_buff ≡ 10
    → os.tree child w ≡ (map some pieces, w1)
    → All (λ piece. 0 < length piece) pieces
    → Short [] (joined pieces)
    → 0 < length (numbers [] (joined pieces))
    → length (numbers [] (joined pieces)) ≤ 5000
    → restart os ints pid_buff config child w
      ≡ ok (os.start config (os.wait child (ended os.sys (numbers [] (joined pieces)) w1)))
unfolding restart
restart-ended os ints pid_buff config child pieces w w1 ample ten printed full short some_pid few =
    let (block, given, size) = ample 50 in
    let (a, fresh, r, sized) = fresh-Represents 50 block size (omega arith) in
    let (b, e, rb) =
      get_pids_from_pipe-numbers ints pieces pid_buff ample r ten full short (omega (arith, few)) in
    let killed = kill_subtree-ended os.sys b w1 rb some_pid in
    rw (printed, given, fresh) (rw e (rw killed refl))
