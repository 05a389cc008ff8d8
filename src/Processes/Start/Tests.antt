-- ===== src/Processes/Start/Tests.antt =====
-- The child of the first start in a directory.
use cmon.Base.{◌≡◌, refl, none, some, [], ◌∷◌, ◌++◌, replicate, arith, ok, codes}
use cmon.Str.Sample.{ample}
use cmon.Str.CStr.{CStr, nul, chr}
use cmon.Str.{str_new, alloc_string}
use cmon.Token.{config_tokenizer}
use cmon.Str.Concat.{of_text}
use cmon.Config.{CmonConfig}
use cmon.Config.Open.{default_config, config_init}
use cmon.Config.Open.Runs.{slashed}
use cmon.Config.Open.Sample.{one_file, cut, ample-Reliable, new_config, dir, exe}
use cmon.Processes.Start.{child, program, start_child}
use cmon.Processes.Start.Command.{start_child-command}

abbrev started : CmonConfig
started = record new_config {
  cwd = some (of_text (slashed dir));
  exe = some (of_text exe);
  argv = (exe ++ 0 ∷ []) ∷ codes "-v" ∷ [];
}

first_start :
    config_init one_file ample
      (replicate 100 0)
      (some (dir ++ 0 ∷ []))
      (codes "cmon" ∷ (exe ++ 0 ∷ []) ∷ codes "-v" ∷ [])
      new_config
      none
    ≡ ok (started, some (default_config, []))
unfolding config_init cut str_new alloc_string config_tokenizer
first_start = refl

exe_is : CStr (exe ++ 0 ∷ []) exe
exe_is = chr (λ e. omega (arith, e)) nul

start_child-command_example :
    start_child started child none
    ≡ ok (program (exe ++ 0 ∷ []) ((exe ++ 0 ∷ []) ∷ codes "-v" ∷ []))
start_child-command_example =
    start_child-command one_file ample (replicate 100 0) (some (dir ++ 0 ∷ [])) (codes "cmon")
      (codes "-v" ∷ []) new_config started none (some (default_config, [])) ample-Reliable exe_is
      (omega arith) first_start
