-- ===== src/Main/Loop.antt =====
-- What the loop of `main` does.
use cmon.Base.{
  ℕ, ◌≡◌, refl, ◌∙◌, ◌<◌, Option, none, some, List, [], ◌∷◌, ◌++◌, All, true, false, length, fault,
  append-nil,
}
use cmon.Base.Int.{ℤ}
use cmon.Text.{Bytes}
use cmon.Config.{CmonConfig}
use cmon.Paths.{Reallocator}
use cmon.Paths.Dot.{Text}
use cmon.Paths.Extension.{Ample}
use cmon.Paths.Full.{Cwd}
use cmon.Watching.{InotifyEvent, Children, process_events}
use cmon.Watching.Events.{process_events-quiet, process_events-fault}
use cmon.Main.{Poll, idle, unreadable, events_read, main_loop}

-- Nothing was read, or no event of it is a change.
abbrev pub Quiet : Poll → Type 0
Quiet idle = Unit {0}
Quiet unreadable = ⊥
Quiet (events_read events) = All (λ e. e.modify ≡ false) events

module _ (os : Children) (mem : Reallocator) (ints : ℕ → Option (List ℤ)) (pid_buff : Bytes)
    (cwd rest : Bytes) (conf : CmonConfig) where
  pub main_loop-Quiet :
      (quiet polls : List Poll) (statics : Cwd) (child : ℤ) (w : os.sys.World)
      → All Quiet quiet
      → main_loop os mem ints pid_buff
          (some (cwd ++ 0 ∷ rest))
          conf
          (quiet ++ polls)
          statics
          child
          w
        ≡ main_loop os mem ints pid_buff (some (cwd ++ 0 ∷ rest)) conf polls statics child w
  unfolding main_loop process_events
  main_loop-Quiet [] polls statics child w all = refl
  main_loop-Quiet (idle ∷ quiet) polls statics child w (_, all) =
      main_loop-Quiet quiet polls statics child w all
  main_loop-Quiet (unreadable ∷ quiet) polls statics child w (never, all) = absurd never
  main_loop-Quiet (events_read events ∷ quiet) polls statics child w (no_change, all) =
      let passed =
        process_events-quiet os mem ints pid_buff cwd rest conf events [] statics child w
          no_change in
      rw (rw append-nil at passed) (main_loop-Quiet quiet polls statics child w all)

  -- However long the loop has waited, and whatever else was reported, the first change of a file
  -- ends in a read past a block: the program that is watched is never started again. For names
  -- and a working directory of less than 4096 bytes, and where `malloc` does not fail.
  pub main_loop-fault :
      (before : List Poll) (quiet events : List InotifyEvent) (after : List Poll)
      (name rest' : Bytes) (cwd_len : ℕ) (child : ℤ) (w : os.sys.World)
      → Ample mem
      → Text cwd
      → length cwd < 4096
      → Text name
      → length name < 4096
      → All Quiet before
      → All (λ e. e.modify ≡ false) quiet
      → main_loop os mem ints pid_buff
          (some (cwd ++ 0 ∷ rest))
          conf
          (before
            ++ events_read (quiet ++ record { modify = true; name = name ++ 0 ∷ rest' } ∷ events)
              ∷ after)
          (record { cwd = none; cwd_len = cwd_len })
          child
          w
        ≡ fault
  unfolding main_loop
  main_loop-fault before quiet events after name rest' cwd_len child w ample cwd_bytes cwd_short
        name_bytes name_short waited no_change =
      let lost =
        process_events-fault os mem ints pid_buff cwd rest conf quiet events name rest' cwd_len
          child w ample cwd_bytes cwd_short name_bytes name_short no_change in
      main_loop-Quiet before _ (record { cwd = none; cwd_len = cwd_len }) child w waited ∙ rw lost
