-- ===== src/Config/Blocks.antt =====
-- A configuration file as a list of blocks, and what `config_parser` makes of their tokens.
use cmon.Base.{◌≤◌, ◌≡◌, ◌≢◌, some, List, [], ◌∷◌, ◌++◌, map, length}
use cmon.Text.{Bytes}
use cmon.Str.{CmonString}
use cmon.Str.CStr.{CStr, Holds}
use cmon.Str.Concat.{of_text}
use cmon.Str.Array.{CmonStringArray}
use cmon.Str.Array.Items.{Represents}
use cmon.Token.{text, string, double_colon, o_curly_baracket, c_curly_baracket, null, chars, Token}
use cmon.Token.Array.{token}
use cmon.Config.{
  ConfigEntry, watch_file_ext_names, ignore_files, ignore_dirs, CmonConfig, watch_label,
  files_label, dirs_label,
}

abbrev pub label_of : ConfigEntry → Bytes
label_of watch_file_ext_names = watch_label
label_of ignore_files = files_label
label_of ignore_dirs = dirs_label

pub record Block : Type 0 where
  pub entry : ConfigEntry
  pub values : List Bytes

abbrev pub string_token : Bytes → Token
string_token v = token string (chars v)

abbrev pub block_tokens : Block → List Token
block_tokens b =
    token text (chars (label_of b.entry))
    ∷ token double_colon null
    ∷ token o_curly_baracket null
    ∷ (map string_token b.values ++ token c_curly_baracket null ∷ [])

abbrev pub tokens : List Block → List Token
tokens [] = []
tokens (b ∷ bs) = block_tokens b ++ tokens bs

-- What the configuration means: the texts of its three arrays.
pub record Settings : Type 0 where
  pub watch : List Bytes
  pub files : List Bytes
  pub dirs : List Bytes

-- The strings of an array hold these texts.
abbrev pub Stands : CmonStringArray → List Bytes → Type 0
Stands a ss = Represents a (map of_text ss)

pub record Means (cwd : Bytes) (conf : CmonConfig) (s : Settings) : Type 0 where
  pub cwd_string : CmonString
  pub cwd_set : conf.cwd ≡ some cwd_string
  pub cwd_holds : Holds cwd_string cwd
  pub watch : Stands conf.watch_ext_names s.watch
  pub files : Stands conf.ignore_files_arr s.files
  pub dirs : Stands conf.ignore_dirs_arr s.dirs

-- One value of a block; ignored files and directories stand under the working directory.
abbrev pub with_value : Bytes → ConfigEntry → Bytes → Settings → Settings
with_value cwd watch_file_ext_names v s = record s { watch = s.watch ++ v ∷ [] }
with_value cwd ignore_files v s = record s { files = s.files ++ (cwd ++ v) ∷ [] }
with_value cwd ignore_dirs v s = record s { dirs = s.dirs ++ (cwd ++ v) ∷ [] }

abbrev pub with_values : Bytes → ConfigEntry → List Bytes → Settings → Settings
with_values cwd e [] s = s
with_values cwd e (v ∷ vs) s = with_values cwd e vs (with_value cwd e v s)

abbrev pub with_blocks : Bytes → List Block → Settings → Settings
with_blocks cwd [] s = s
with_blocks cwd (b ∷ bs) s = with_blocks cwd bs (with_values cwd b.entry b.values s)

-- A value: a text of 1 to 257 bytes.
pub record IsValue (v : Bytes) : Type 0 where
  pub text : CStr (v ++ 0 ∷ []) v
  pub not_empty : v ≢ []
  pub short : length v ≤ 257

-- No array of the settings holds more than 50 items.
pub record Fits (s : Settings) : Type 0 where
  pub watch : length s.watch ≤ 50
  pub files : length s.files ≤ 50
  pub dirs : length s.dirs ≤ 50
