-- ===== src/PsTree.antt =====
-- The process tree: `_ps_tree_get_pids_from_pipe` of src/lib/ps_tree/ps_tree.c, which takes the
-- numbers out of what `pstree` prints. What `read` answers is a list, at the end of which it
-- answers 0.
pub mod Numbers
pub mod Pids
pub mod Exec
mod Tests
use cmon.Base.{
  ℕ, zero, suc, ◌+◌, ◌-◌, ◌*◌, Option, none, some, List, [], ◌∷◌, ltb, ◌==◌, if◌then◌else◌, Run, ok,
  fault, ◌>>=◌,
}
use cmon.Base.Int.{ℤ, pos}
use cmon.Text.{Bytes, char_is_numeric}
use cmon.Str.{put}
use cmon.Integers.{CmonIntArray, int_arr_add, memory_increment}

-- `atoi` of the C library, for a text that starts with a digit: the number that its first digits
-- write.
abbrev pub number_in : ℕ → Bytes → ℕ
number_in acc [] = acc
number_in acc (c ∷ cs) =
    let rest = number_in (acc * 10 + (c - 48)) cs in if char_is_numeric c == 0 then acc else rest

-- The local variables: `pid_buff`, how far `pid_buff_p` is into it, and `pid_array`.
pub record Scan : Type 0 where
  pub pid_buff : Bytes
  pub used : ℕ
  pub pid_array : Option CmonIntArray

abbrev pub size_of : Option CmonIntArray → ℕ
size_of none = 0
size_of (some a) = a.size

-- A character of what was read; `mem` is what `malloc` gives for an array of so many integers.
unfoldable pub take_char : (ℕ → Option (List ℤ)) → ℕ → Scan → Run Scan
take_char mem c s =
    if char_is_numeric c == 0
    then (if ltb 0 s.used
        then (do
          ended ← put s.pid_buff s.used 0
          pid_array ←
              int_arr_add s.pid_array (pos (number_in 0 ended))
                (mem (size_of s.pid_array + memory_increment))
          ok (record { pid_buff = ended; used = 0; pid_array = pid_array }))
        else ok s)
    else (do
      pid_buff ← put s.pid_buff s.used c
      ok (record s { pid_buff = pid_buff; used = s.used + 1 }))

-- The loop over what one `read` gave.
unfoldable pub take_chars : (ℕ → Option (List ℤ)) → Bytes → Scan → Run Scan
unfolding take_char
take_chars mem [] s = ok s
take_chars mem (c ∷ cs) s = do s' ← take_char mem c s; take_chars mem cs s'

-- The loop over the answers of `read`; an error makes it write before the start of `buff`.
unfoldable pub get_pids :
    (ℕ → Option (List ℤ)) → List (Option Bytes) → Scan → Run (Option CmonIntArray)
unfolding take_chars
get_pids mem [] s = ok s.pid_array
get_pids mem (none ∷ reads) s = fault
get_pids mem (some [] ∷ reads) s = ok s.pid_array
get_pids mem (some (c ∷ cs) ∷ reads) s = do s' ← take_chars mem (c ∷ cs) s; get_pids mem reads s'

-- `_ps_tree_get_pids_from_pipe`; `pid_buff` is what its ten bytes hold when it starts.
unfoldable pub get_pids_from_pipe :
    (ℕ → Option (List ℤ))
    → List (Option Bytes)
    → Bytes
    → Option CmonIntArray
    → Run (Option CmonIntArray)
unfolding get_pids
get_pids_from_pipe mem reads pid_buff pid_array =
    get_pids mem reads (record { pid_buff = pid_buff; used = 0; pid_array = pid_array })
