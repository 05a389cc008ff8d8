-- ===== src/Config/Command/Tests.antt =====
-- A command line with one argument.
use cmon.Base.{◌≡◌, refl, some, [], ◌∷◌, ◌++◌, replicate, ok, codes}
use cmon.Str.Sample.{ample, c-CStr}
use cmon.Token.Array.{Reliable}
use cmon.Config.Command.{wild, nowhere, to, CmonCommand, process_text, parse_argv}
use cmon.Config.Command.Arguments.{parse_argv-arguments}

ample-Reliable : Reliable ample
ample-Reliable n = (replicate n 0, refl)

abbrev unset_command : CmonCommand
unset_command = record { exe = wild; process_name = wild; argv = replicate 10 wild }

parse_argv-arguments_example :
    parse_argv ample (some unset_command) (codes "cmon" ∷ (b'c' ∷ 0 ∷ []) ∷ codes "-v" ∷ [])
    ≡ ok (
        some (record {
          exe = to (b'c' ∷ 0 ∷ []);
          process_name = to (process_text ++ 0 ∷ []);
          argv = to (process_text ++ 0 ∷ []) ∷ to (codes "-v") ∷ nowhere ∷ replicate 7 wild;
        }))
parse_argv-arguments_example =
    parse_argv-arguments ample unset_command (codes "cmon") (codes "-v" ∷ []) ample-Reliable refl
      c-CStr
