-- ===== src/PsTree/Exec.antt =====
-- `ps_tree_exec` and `ps_tree_get_pid_arr` of src/lib/ps_tree/ps_tree.c: `pstree` is run for a
-- process, and what it prints is read.
pub mod Digits
mod Tests
use cmon.Base.{
  ℕ, zero, suc, ◌+◌, ◌/◌, ◌%◌, Bool, true, false, Option, none, some, List, [], ◌∷◌, ◌++◌, ltb,
  if◌then◌else◌, length, Run, ok, fault, ◌>>=◌, codes,
}
use cmon.Base.Int.{ℤ, pos, negsuc}
use cmon.Text.{Bytes}
use cmon.Text.Decimal.{decimal_text}
use cmon.Integers.{CmonIntArray, int_arr_new}
use cmon.Processes.Start.{Fork, child, failed, parent, Becomes, program, goes_on}
use cmon.PsTree.{get_pids_from_pipe}

-- The ten bytes of `childPidBuff` hold the text and its NUL byte.
abbrev pub in_pid_buff : Bytes → Run Bytes
in_pid_buff s = if ltb (length s) 10 then ok (s ++ 0 ∷ []) else fault

abbrev pub too_large : ℤ → Bool
too_large (pos n) = ltb 100000000 n
too_large (negsuc n) = false

abbrev pub tree_arguments : Bytes → List Bytes
tree_arguments pid =
    (codes "pstree" ++ 0 ∷ []) ∷ (codes "-p" ++ 0 ∷ []) ∷ (codes "-n" ++ 0 ∷ []) ∷ pid ∷ []

-- `execlp`, and what follows where it comes back.
abbrev pub executed : Bytes → Option ℕ → Becomes
executed pid none = program (codes "pstree" ++ 0 ∷ []) (tree_arguments pid)
executed pid (some errno) = goes_on (pos 1)

-- `ps_tree_exec`
unfoldable pub tree_exec : ℤ → Fork → Option ℕ → Run Becomes
unfolding decimal_text
tree_exec child_pid child refused =
    if too_large child_pid
    then ok (goes_on (pos 1))
    else (do pid ← in_pid_buff (decimal_text child_pid); ok (executed pid refused))
tree_exec child_pid failed refused = ok (goes_on (pos 1))
tree_exec child_pid (parent pid) refused = ok (goes_on (pos pid))

-- What `waitpid` finds: the process has ended, by itself or by a signal, or it has been stopped.
pub data Status : Type 0 where
  ended signalled stopped : Status

-- `while (true)` around `waitpid`: does it end?
unfoldable pub reaped : List Status → Bool
reaped [] = false
reaped (ended ∷ ws) = true
reaped (signalled ∷ ws) = true
reaped (stopped ∷ ws) = reaped ws

-- `ps_tree_get_pid_arr` in the process that goes on, given what `read` and then `waitpid` answer;
-- `none` where it still waits.
unfoldable pub get_pid_arr :
    (ℕ → Option (List ℤ))
    → List (Option Bytes)
    → Bytes
    → List Status
    → Run (Option (Option CmonIntArray))
unfolding get_pids_from_pipe reaped
get_pid_arr ints reads pid_buff waits = do
  pid_array ← get_pids_from_pipe ints reads pid_buff (int_arr_new 50 (ints 50))
  ok (if reaped waits then some pid_array else none)
