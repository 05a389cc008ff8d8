-- ===== src/Watching/Events.antt =====
-- Events that are read before and after the first change of a file.
use cmon.Base.{
  ℕ, ◌<◌, ◌≡◌, refl, true, false, Option, none, some, List, [], ◌∷◌, ◌++◌, length, All, fault,
}
use cmon.Base.Int.{ℤ}
use cmon.Text.{Bytes}
use cmon.Config.{CmonConfig}
use cmon.Paths.{Reallocator}
use cmon.Paths.Dot.{Text}
use cmon.Paths.Extension.{Ample}
use cmon.Paths.Full.{Cwd}
use cmon.Paths.Unended.{new_full_path-fault}
use cmon.Watching.{InotifyEvent, Children, modified, process_events}

module _ (os : Children) (mem : Reallocator) (ints : ℕ → Option (List ℤ)) (pid_buff : Bytes)
    (cwd rest : Bytes) (config : CmonConfig) where
  -- Events that are no changes are passed over.
  pub process_events-quiet :
      (quiet events : List InotifyEvent) (statics : Cwd) (child : ℤ) (w : os.sys.World)
      → All (λ e. e.modify ≡ false) quiet
      → process_events os mem ints pid_buff
          (some (cwd ++ 0 ∷ rest))
          config
          (quiet ++ events)
          statics
          child
          w
        ≡ process_events os mem ints pid_buff (some (cwd ++ 0 ∷ rest)) config events statics child w
  unfolding process_events
  process_events-quiet [] events statics child w none_modified = refl
  process_events-quiet (e ∷ quiet) events statics child w (other, none_modified) =
      rw other (process_events-quiet quiet events statics child w none_modified)

  -- The first change of a file that is reported, whatever other events come before it and
  -- whichever file it is, makes `ino_procees_events` read past the end of a block, before the
  -- program is ended or started again: it asks for the full path of the file. For names and a
  -- working directory of less than 4096 bytes, and where `malloc` does not fail.
  pub process_events-fault :
      (quiet events : List InotifyEvent) (name rest' : Bytes) (cwd_len : ℕ) (child : ℤ)
      (w : os.sys.World)
      → Ample mem
      → Text cwd
      → length cwd < 4096
      → Text name
      → length name < 4096
      → All (λ e. e.modify ≡ false) quiet
      → process_events os mem ints pid_buff
          (some (cwd ++ 0 ∷ rest))
          config
          (quiet ++ record { modify = true; name = name ++ 0 ∷ rest' } ∷ events)
          (record { cwd = none; cwd_len = cwd_len })
          child
          w
        ≡ fault
  unfolding process_events modified
  process_events-fault quiet events name rest' cwd_len child w ample cwd_bytes cwd_short name_bytes
        name_short none_modified =
      let lost =
        new_full_path-fault mem cwd name rest rest' cwd_len ample cwd_bytes cwd_short name_bytes
          name_short in
      rw
        (process_events-quiet quiet (record { modify = true; name = name ++ 0 ∷ rest' } ∷ events)
          (record { cwd = none; cwd_len = cwd_len }) child w none_modified)
        (rw lost refl)
