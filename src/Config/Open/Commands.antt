-- ===== src/Config/Open/Commands.antt =====
-- The command and the working directory that `config_init` leaves.
use cmon.Base.{ap, sym, ◌≤◌, ◌≡◌, ◌∙◌, Option, some, List, ◌∷◌, length, arith, Run, ok}
use cmon.Text.{Bytes}
use cmon.Str.Alloc.{Allocator}
use cmon.Str.CStr.{CStr, nul, chr, cons, nil}
use cmon.Str.Concat.{of_text, str_new_from_char_arrs-concat}
use cmon.Str.{CmonString, str_new}
use cmon.Token.{token_arr_new, config_tokenizer}
use cmon.Token.Array.{Reliable}
use cmon.Config.{CmonConfig, config_parser, get_cwd}
use cmon.Config.Kept.{IfOk, IfOk-bind, IfOk-found, IfOk-chain, IfOk-ok, config_parser-SameCommand}
use cmon.Config.Values.{Allocates-Reliable}
use cmon.Config.Open.{Stdio, config_init, config_path, open_file}
use cmon.Config.Open.Runs.{slashed}

-- The program with its arguments, and what `_get_cwd` gave.
pub record Commands (cwd : Run (Option CmonString)) (exe : CmonString) (argv : List Bytes)
    (conf : CmonConfig) : Type 0 where
  pub got : cwd ≡ ok conf.cwd
  pub exe_set : conf.exe ≡ some exe
  pub argv_set : conf.argv ≡ argv

config_init-IfOk :
    (io : Stdio) (m : Allocator) (lexem : Bytes) (char_cwd : Option Bytes)
    (exe exe_text name : Bytes) (args : List Bytes) (conf : CmonConfig) (w : io.World)
    → str_new m (some exe) ≡ ok (some (of_text exe_text))
    → IfOk
        (λ r. Commands (get_cwd m char_cwd) (of_text exe_text) (exe ∷ args) r.0)
        (config_init io m lexem char_cwd (name ∷ exe ∷ args) conf w)
unfolding config_init
config_init-IfOk io m lexem char_cwd exe exe_text name args conf w made = rw made (
    IfOk-found _ (get_cwd m char_cwd) _ λ cwd got. IfOk-bind _ (config_path m cwd) _ λ path.
      IfOk-bind _ (open_file io path.string w) _ λ opened.
        IfOk-bind _ (config_tokenizer m lexem token_arr_new (io.lines opened.0 opened.1).0) _
          λ tok_arr.
            IfOk-chain _ _ (config_parser m tok_arr _) _ (config_parser-SameCommand m tok_arr _)
              λ conf' same. record {
                got = got ∙ ap ok (sym same.cwd);
                exe_set = same.exe;
                argv_set = same.argv;
              })

pub config_init-Commands :
    (io : Stdio) (m : Allocator) (lexem : Bytes) (char_cwd : Option Bytes)
    (exe exe_text name : Bytes) (args : List Bytes) (conf conf' : CmonConfig) (w w' : io.World)
    → str_new m (some exe) ≡ ok (some (of_text exe_text))
    → config_init io m lexem char_cwd (name ∷ exe ∷ args) conf w ≡ ok (conf', w')
    → Commands (get_cwd m char_cwd) (of_text exe_text) (exe ∷ args) conf'
config_init-Commands io m lexem char_cwd exe exe_text name args conf conf' w w' made done =
    IfOk-ok (λ r. Commands (get_cwd m char_cwd) (of_text exe_text) (exe ∷ args) r.0) done
      (config_init-IfOk io m lexem char_cwd exe exe_text name args conf w made)

pub get_cwd-slashed :
    (m : Allocator) {char_cwd dir : Bytes}
    → CStr char_cwd dir
    → length dir ≤ 256
    → Reliable m
    → get_cwd m (some char_cwd) ≡ ok (some (of_text (slashed dir)))
unfolding get_cwd
get_cwd-slashed m is near given =
    str_new_from_char_arrs-concat m is (cons (chr (λ e. cc) nul) nil)
      (omega arith, (omega arith, tt)) (omega arith) (Allocates-Reliable m _ given)
