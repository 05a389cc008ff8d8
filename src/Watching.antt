-- ===== src/Watching.antt =====
-- File watching: `ino_procees_events` of src/lib/inotify/inotify.c. What `read` puts into its
-- buffer is the list of the events there. The calls of the operating system are parameters;
-- `free` and the log are left out.
pub mod Dirs
pub mod Visits
pub mod Dangling
pub mod Events
pub mod Restart
pub mod Sample
mod Tests
use cmon.Base.{
  ℕ, zero, suc, Bool, true, false, Option, none, some, List, [], ◌∷◌, drop, ◌==◌, if◌then◌else◌,
  Run, ok, fault, ◌>>=◌,
}
use cmon.Base.Int.{ℤ}
use cmon.Text.{Bytes}
use cmon.Str.{CmonString}
use cmon.Str.Array.{str_arr_find}
use cmon.Config.{CmonConfig}
use cmon.Integers.{CmonIntArray, int_arr_new}
use cmon.PsTree.{get_pids_from_pipe}
use cmon.Processes.{Signals, kill_subtree}
use cmon.Paths.{CmonPath, Reallocator}
use cmon.Paths.Full.{Cwd, new_full_path}

-- `struct inotify_event`: is IN_MODIFY in its mask? And its name.
pub record InotifyEvent : Type 0 where
  pub modify : Bool
  pub name : Bytes

-- What `pstree` prints for a process, `waitpid`, and `process_start_child`, which gives the new
-- process.
pub record Children : Type 1 where
  pub sys : Signals
  pub tree : ℤ → sys.World → List (Option Bytes) × sys.World
  pub wait : ℤ → sys.World → sys.World
  pub start : CmonConfig → sys.World → ℤ × sys.World

-- A path and its extension, as the strings that they are cast to.
abbrev pub path_string : CmonPath → CmonString
path_string p = record { size = p.path_len; string = p.path }

abbrev pub ext_bytes : Bytes → Option ℕ → Bytes
ext_bytes path none = []
ext_bytes path (some off) = drop off path

abbrev pub ext_string : CmonPath → CmonString
ext_string p = record { size = p.ext_len; string = ext_bytes p.path p.ext }

-- The program is ended and started again.
unfoldable pub restart :
    (os : Children)
    → (ℕ → Option (List ℤ))
    → Bytes
    → CmonConfig
    → ℤ
    → os.sys.World
    → Run (ℤ × os.sys.World)
restart os ints pid_buff config child w =
    let printed = os.tree child w in
    do
      pids ← get_pids_from_pipe ints printed.0 pid_buff (int_arr_new 50 (ints 50))
      (rc, w') ← kill_subtree os.sys pids printed.1
      ok (os.start config (os.wait child w'))

module _ (os : Children) (mem : Reallocator) (ints : ℕ → Option (List ℤ)) (pid_buff : Bytes)
    (getcwd : Option Bytes) (config : CmonConfig) where
  abbrev pub unless_watched : ℤ → os.sys.World → Option CmonString → Run (ℤ × os.sys.World)
  unless_watched child w none = restart os ints pid_buff config child w
  unless_watched child w (some found) = ok (child, w)

  abbrev pub unless_ignored :
      CmonPath → ℤ → os.sys.World → Option CmonString → Run (ℤ × os.sys.World)
  unless_ignored path child w (some found) = ok (child, w)
  unless_ignored path child w none = do
    found ← str_arr_find config.watch_ext_names (some (ext_string path))
    unless_watched child w found

  -- An event whose file was changed.
  unfoldable pub modified : Bytes → Cwd → ℤ → os.sys.World → Run (Cwd × ℤ × os.sys.World)
  modified name statics child w = do
    (path, statics') ← new_full_path mem getcwd statics name
    found ← str_arr_find config.ignore_files_arr (some (path_string path))
    (child', w') ← unless_ignored path child w found
    ok (statics', child', w')

  -- `ino_procees_events`, with `*child_pid` and the static variables of the paths after it.
  unfoldable pub process_events :
      List InotifyEvent → Cwd → ℤ → os.sys.World → Run (Cwd × ℤ × os.sys.World)
  unfolding modified
  process_events [] statics child w = ok (statics, child, w)
  process_events (event ∷ events) statics child w = elim event.modify [
    | false ↦ process_events events statics child w
    | true ↦ do
      (statics', child', w') ← modified event.name statics child w
      process_events events statics' child' w'
  ]
