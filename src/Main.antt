-- ===== src/Main.antt =====
-- `main` of src/main.c, with `ino_init` of src/lib/inotify/inotify.c: the parts are started one
-- after the other, and then the events are waited for. Each part of the operating system has its
-- own state. Output, `sleep` and the log are left out.
pub mod Setup
pub mod Loop
mod Tests
use cmon.Base.{ℕ, Bool, Option, none, some, List, [], ◌∷◌, Run, ok, exited, fault, ◌>>=◌, of_option}
use cmon.Base.Int.{ℤ, pos, negsuc}
use cmon.Text.{Bytes}
use cmon.Str.{CmonString, str_copy}
use cmon.Str.Alloc.{Allocator}
use cmon.Config.{CmonConfig, config_new}
use cmon.Config.Open.{Stdio, config_init}
use cmon.Integers.{CmonIntArray, int_arr_new}
use cmon.Paths.{Reallocator}
use cmon.Paths.Full.{Cwd}
use cmon.Watching.{InotifyEvent, Children, process_events}
use cmon.Watching.Dirs.{Dir, Inotify, Slots, at, at_null, recursive_dir_add}

-- `ino_init`, given what `inotify_init` answers: -1 as an exit status is 255.
unfoldable pub ino_init : ℤ → Run ℕ
ino_init (pos fd) = ok fd
ino_init (negsuc n) = exited 255

abbrev pub slots_of : Option CmonIntArray → Slots
slots_of none = at_null
slots_of (some a) = at a

-- The variables of `main` when it comes to its loop, and the states of the system.
pub record Started (F I P : Type 0) : Type 0 where
  pub conf : CmonConfig
  pub sub_pid : ℤ
  pub files : F
  pub watches : I
  pub processes : P

-- What the loop waits for: `poll` with nothing to read, or with what `read` gives.
pub data Poll : Type 0 where
  idle : Poll
  unreadable : Poll
  events_read : List InotifyEvent → Poll

module _ (io : Stdio) (ino : Inotify) (os : Children) (m : Allocator)
    (ints : ℕ → Option (List ℤ)) where
  abbrev pub State : Type 0
  State = Started io.World ino.World os.sys.World

  -- What follows the directories: the child is started.
  with_child : CmonConfig → io.World → ino.World → ℤ × os.sys.World → State
  with_child conf files watches (pid, processes) = record {
    conf = conf;
    sub_pid = pid;
    files = files;
    watches = watches;
    processes = processes;
  }

  -- `main` up to its loop: `memory` is what `config_new` gets, `tree` what is in the working
  -- directory.
  unfoldable pub setup :
      Option CmonConfig
      → Bytes
      → Option Bytes
      → List Bytes
      → ℤ
      → Dir
      → io.World
      → ino.World
      → os.sys.World
      → Run State
  unfolding with_child ino_init
  setup memory lexem char_cwd argv ino_fd tree files watches processes = do
    let wd_arr = int_arr_new 100 (ints 100)
    new ← config_new memory
    (conf, files') ← config_init io m lexem char_cwd argv new files
    inotify_fd ← ino_init ino_fd
    copied ← str_copy m conf.cwd
    path ← of_option copied
    (added, watches') ←
        recursive_dir_add ino m ints conf.ignore_dirs_arr tree path (slots_of wd_arr) watches
    ok (with_child conf files' watches' (os.start conf processes))

module _ (os : Children) (mem : Reallocator) (ints : ℕ → Option (List ℤ)) (pid_buff : Bytes)
    (getcwd : Option Bytes) (conf : CmonConfig) where
  -- The loop, over what it has waited for up to some time. `readSize` is unsigned, so a read that
  -- failed passes its test, and the events are taken from 2 ^ 64 - 1 bytes at `buff`.
  unfoldable pub main_loop : List Poll → Cwd → ℤ → os.sys.World → Run (Cwd × ℤ × os.sys.World)
  main_loop [] statics child w = ok (statics, child, w)
  main_loop (idle ∷ polls) statics child w = main_loop polls statics child w
  main_loop (unreadable ∷ polls) statics child w = fault
  main_loop (events_read events ∷ polls) statics child w = do
    (statics', child', w') ← process_events os mem ints pid_buff getcwd conf events statics child w
    main_loop polls statics' child' w'
