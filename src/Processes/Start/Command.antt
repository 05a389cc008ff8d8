-- ===== src/Processes/Start/Command.antt =====
-- Which program the child process runs.
use cmon.Base.{◌≤◌, ◌≡◌, Option, none, List, [], ◌∷◌, ◌++◌, length, ok}
use cmon.Text.{Bytes}
use cmon.Str.CStr.{CStr}
use cmon.Str.Alloc.{Allocator}
use cmon.Str.Concat.{str_new-of_text}
use cmon.Token.Array.{Reliable}
use cmon.Config.{CmonConfig}
use cmon.Config.Values.{Allocates-Reliable}
use cmon.Config.Open.{Stdio, config_init}
use cmon.Config.Open.Commands.{config_init-Commands}
use cmon.Processes.Start.{child, program, start_child}

-- After `config_init`, whatever the configuration file holds, the child that
-- `process_start_child` starts runs the program that the command line names, with the arguments
-- behind it and its own name in front of these. For a program's name of at most 257 bytes, and
-- where `malloc` does not fail and `execvp` finds the program.
pub start_child-command :
    (io : Stdio) (m : Allocator) (lexem : Bytes) (char_cwd : Option Bytes) {exe exe_text : Bytes}
    (name : Bytes) (args : List Bytes) (conf conf' : CmonConfig) (w w' : io.World)
    → Reliable m
    → CStr exe exe_text
    → length exe_text ≤ 257
    → config_init io m lexem char_cwd (name ∷ exe ∷ args) conf w ≡ ok (conf', w')
    → start_child conf' child none ≡ ok (program (exe_text ++ 0 ∷ []) (exe ∷ args))
unfolding start_child
start_child-command io m lexem char_cwd name args conf conf' w w' given is short done =
    let made = str_new-of_text m is short (Allocates-Reliable m _ given) in
    let kept = config_init-Commands io m lexem char_cwd _ _ name args conf conf' w w' made done in
    rw (kept.exe_set, kept.argv_set)
