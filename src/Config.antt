-- ===== src/Config.antt =====
-- The configuration: src/lib/config/config.c. The command line is a list of its arguments; a
-- token array is what `Token` makes. `exit` ends the run, and messages are left out. What
-- `getcwd` gives is a parameter. Config/Open has the file.
pub mod Parse
pub mod Blocks
pub mod Values
pub mod File
pub mod Crash
pub mod Kept
pub mod Open
pub mod Old
pub mod Command
mod Tests
use cmon.Base.{
  ℕ, zero, suc, ◌+◌, Bool, true, false, ◌&&◌, ◌||◌, Option, none, some, List, [], ◌∷◌, ◌++◌, ltb,
  leb, ◌==◌, if◌then◌else◌, length, map, Run, ok, exited, fault, ◌>>=◌, fetch,
}
use cmon.Text.{Bytes}
use cmon.Str.Alloc.{Allocator}
use cmon.Str.{CmonString, str_new, str_new_from_char_arrs}
use cmon.Str.Array.{CmonStringArray, str_arr_init, str_arr_add_from_str, str_arr_add_new_char_arr}
use cmon.Token.{
  TokenType, text, string, double_colon, o_curly_baracket, c_curly_baracket, Value, unset, null,
  chars, Token, TokenArr, token_arr_new, config_tokenizer,
}

pub data ConfigEntry : Type 0 where
  watch_file_ext_names ignore_files ignore_dirs : ConfigEntry

pub record CmonConfig : Type 0 where
  pub ignore_files_arr : CmonStringArray
  pub ignore_dirs_arr : CmonStringArray
  pub watch_ext_names : CmonStringArray
  pub cwd : Option CmonString
  pub exe : Option CmonString
  pub argv : List Bytes

-- The array that a `config_target` of the entry points to, and the configuration with another
-- there.
abbrev pub target_of : ConfigEntry → CmonConfig → CmonStringArray
target_of watch_file_ext_names conf = conf.watch_ext_names
target_of ignore_files conf = conf.ignore_files_arr
target_of ignore_dirs conf = conf.ignore_dirs_arr

abbrev pub with_target : ConfigEntry → CmonStringArray → CmonConfig → CmonConfig
with_target watch_file_ext_names a conf = record conf { watch_ext_names = a }
with_target ignore_files a conf = record conf { ignore_files_arr = a }
with_target ignore_dirs a conf = record conf { ignore_dirs_arr = a }

abbrev emptied : CmonStringArray → CmonStringArray
emptied a = record a { len = 0 }

-- `config_new`: the argument is what `malloc` answers.
unfoldable pub config_new : Option CmonConfig → Run CmonConfig
config_new none = exited 1
config_new (some c) = ok (record c {
  ignore_files_arr = emptied c.ignore_files_arr;
  ignore_dirs_arr = emptied c.ignore_dirs_arr;
  watch_ext_names = emptied c.watch_ext_names;
})

-- `strcmp(a, b) == 0` on texts.
unfoldable pub same_text : Bytes → Bytes → Bool
same_text [] [] = true
same_text (x ∷ xs) (y ∷ ys) = x == y && same_text xs ys
same_text _ _ = false

abbrev pub watch_label : Bytes
watch_label =
    b'W' ∷ b'A' ∷ b'T' ∷ b'C' ∷ b'H' ∷ b'_' ∷ b'F' ∷ b'I' ∷ b'L' ∷ b'E' ∷ b'_' ∷ b'E' ∷ b'X' ∷ b'T'
    ∷ b'_' ∷ b'N' ∷ b'A' ∷ b'M' ∷ b'E' ∷ b'S' ∷ []

abbrev pub files_label : Bytes
files_label = b'I' ∷ b'G' ∷ b'N' ∷ b'O' ∷ b'R' ∷ b'E' ∷ b'_' ∷ b'F' ∷ b'I' ∷ b'L' ∷ b'E' ∷ b'S' ∷ []

abbrev pub dirs_label : Bytes
dirs_label = b'I' ∷ b'G' ∷ b'N' ∷ b'O' ∷ b'R' ∷ b'E' ∷ b'_' ∷ b'D' ∷ b'I' ∷ b'R' ∷ b'S' ∷ []

-- The chain of `strcmp` on a label.
unfoldable pub entry_of : Bytes → Option ConfigEntry
unfolding same_text
entry_of l =
    if same_text l watch_label
    then some watch_file_ext_names
    else if same_text l files_label
    then some ignore_files
    else if same_text l dirs_label
    then some ignore_dirs
    else none

-- `_get_token`; the indices of the source's calls are not negative.
unfoldable pub get_token : TokenArr → ℕ → Run (Option Token)
get_token a i = if leb a.len i then ok none else (do t ← fetch a.token_list i; ok (some t))

-- The locals of `config_parser`. `config_target` and `conf_id` are set together; the first is also
-- reset, so one option stands for both.
pub record Parser : Type 0 where
  pub config_target : Option ConfigEntry
  pub in_block : Bool
  pub conf : CmonConfig

-- A token's value as the text that `strcmp` and the string functions read.
abbrev pub value_text : Value → Run Bytes
value_text unset = fault
value_text null = fault
value_text (chars s) = ok s

-- The same as an argument, which may be NULL.
abbrev pub value_arg : Value → Run (Option Bytes)
value_arg unset = fault
value_arg null = ok none
value_arg (chars s) = ok (some (s ++ 0 ∷ []))

-- The variable arguments that the value gives: NULL ends them.
abbrev pub arguments : Option Bytes → List Bytes
arguments none = []
arguments (some b) = b ∷ []

-- `cmon_str_new_from_char_arrs(cmon_str_get(conf->cwd), value, NULL)`
unfoldable pub under_cwd : Allocator → Option CmonString → Option Bytes → Run (Option CmonString)
under_cwd m none value = fault
under_cwd m (some cwd) value = str_new_from_char_arrs m (some cwd.string) (arguments value)

abbrev pub store_result :
    ConfigEntry → CmonConfig → Option CmonString × CmonStringArray → CmonConfig
store_result e conf r = with_target e r.1 conf

-- The value goes into the array of the entry: as a path under the working directory, or as it is.
unfoldable pub add_value : Allocator → Value → ConfigEntry → CmonConfig → Run CmonConfig
unfolding under_cwd
add_value m v watch_file_ext_names conf = do
  value ← value_arg v
  added ← str_arr_add_new_char_arr m conf.watch_ext_names value
  ok (store_result watch_file_ext_names conf added)
add_value m v entry conf = do
  value ← value_arg v
  new_str ← under_cwd m conf.cwd value
  added ← str_arr_add_from_str (target_of entry conf) new_str
  ok (store_result entry conf added)

-- A `TEXT` token, given the next one: reading the type of no token is a fault.
unfoldable pub set_target : Value → TokenType → Parser → Run Parser
unfolding entry_of
set_target v double_colon p = do
  l ← value_text v
  ok (elim (entry_of l) [ none ↦ p | some e ↦ record p { config_target = some e } ])
set_target v _ p = ok p

unfoldable pub parse_label : Value → Option Token → Parser → Run Parser
unfolding set_target
parse_label v none p = fault
parse_label v (some t) p = set_target v t.type p

-- A `STRING` token; the flag is `in_block`.
unfoldable pub parse_string : Allocator → Value → Bool → Option ConfigEntry → Parser → Run Parser
unfolding add_value
parse_string m v true (some e) p = do conf ← add_value m v e p.conf; ok (record p { conf = conf })
parse_string m v _ _ p = ok p

-- One round of the loop, by the type of the token at `i`.
unfoldable pub parse_token : Allocator → TokenArr → ℕ → TokenType → Value → Parser → Run Parser
unfolding parse_label parse_string get_token
parse_token m a i text v p = do next ← get_token a (i + 1); parse_label v next p
parse_token m a i o_curly_baracket v p = ok (record p { in_block = true })
parse_token m a i c_curly_baracket v p = ok (record p { in_block = false; config_target = none })
parse_token m a i string v p = parse_string m v p.in_block p.config_target p
parse_token m a i _ v p = ok p

abbrev pub required : Option Token → Run Token
required none = fault
required (some t) = ok t

-- The loop, with the rounds left.
unfoldable pub parse_from : Allocator → TokenArr → ℕ → ℕ → Parser → Run Parser
unfolding parse_token
parse_from m a zero i p = ok p
parse_from m a (suc n) i p = do
  cur ← get_token a i
  t ← required cur
  p' ← parse_token m a i t.type t.value p
  parse_from m a n (i + 1) p'

-- `config_parser`, which returns 0.
unfoldable pub config_parser : Allocator → TokenArr → CmonConfig → Run CmonConfig
unfolding parse_from
config_parser m a conf = do
  p ← parse_from m a a.len 0 (record { config_target = none; in_block = false; conf = conf })
  ok p.conf

-- `_get_cwd` on what `getcwd` gave.
unfoldable pub get_cwd : Allocator → Option Bytes → Run (Option CmonString)
get_cwd m none = ok none
get_cwd m (some char_cwd) = str_new_from_char_arrs m (some char_cwd) ((b'/' ∷ 0 ∷ []) ∷ [])

-- `config_parse_argv`
unfoldable pub config_parse_argv : Allocator → CmonConfig → List Bytes → Run CmonConfig
config_parse_argv m conf [] = exited 1
config_parse_argv m conf (name ∷ []) = exited 1
config_parse_argv m conf (name ∷ exe ∷ args) = do
  made ← str_new m (some exe)
  ok (record conf { exe = made; argv = name ∷ exe ∷ args })
