-- ===== src/Config/Old/Tests.antt =====
-- Runs of `cmon_parse_config`.
use cmon.Base.{◌≡◌, refl, ◌⊎◌, some, none, false, [], ◌∷◌, ◌++◌, replicate, ok, fault, codes}
use cmon.Text.{Bytes}
use cmon.Str.Sample.{ample}
use cmon.Str.CStr.{CStr, CStrs, concat, no_nul, no_nul-CStr}
use cmon.Str.Array.{CmonStringArray}
use cmon.Token.{blank_token}
use cmon.Token.Old.Empty.{has_brace}
use cmon.Config.{CmonConfig}
use cmon.Config.Old.{parse_config}
use cmon.Config.Old.Idle.{parse_config-idle}

abbrev no_strings : CmonStringArray
no_strings = record { len = 0; arr = replicate 50 none }

abbrev new_config : CmonConfig
new_config = record {
  ignore_files_arr = no_strings;
  ignore_dirs_arr = no_strings;
  watch_ext_names = no_strings;
  cwd = none;
  exe = none;
  argv = [];
}

abbrev line : Bytes
line = codes "IGNORE_DIRS: { \"b\" }"

line-CStr : CStr (line ++ 0 ∷ []) line
unfolding no_nul
line-CStr = no_nul-CStr line refl

parse_config-idle_example :
    (parse_config
        (some (replicate 100 blank_token))
        ample
        (replicate 100 0)
        ((line ++ 0 ∷ []) ∷ [])
        new_config
      ≡ fault)
    ⊎ ((parse_config
            (some (replicate 100 blank_token))
            ample
            (replicate 100 0)
            ((line ++ 0 ∷ []) ∷ [])
            new_config
          ≡ ok new_config)
        × (has_brace (concat (line ∷ [])) ≡ false))
parse_config-idle_example =
    parse_config-idle (some (replicate 100 blank_token)) ample (replicate 100 0) new_config
      (CStrs.cons line-CStr CStrs.nil)

-- A text without a separator is read, and gives nothing.
word_line :
    parse_config
      (some (replicate 100 blank_token))
      ample
      (replicate 100 0)
      ((codes "build" ++ 0 ∷ []) ∷ [])
      new_config
    ≡ ok new_config
unfolding parse_config
word_line = refl
