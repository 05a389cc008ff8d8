-- ===== src/Config/Open.antt =====
-- `config_open_file` and `config_init` of src/lib/config/config.c, over the files of the system.
pub mod Files
pub mod Default
pub mod Runs
pub mod Commands
pub mod Sample
mod Tests
use cmon.Base.{
  ℕ, ◌+◌, Option, none, some, List, [], ◌∷◌, ◌++◌, Run, ok, exited, fault, ◌>>=◌, codes,
}
use cmon.Text.{Bytes}
use cmon.Str.Alloc.{Allocator}
use cmon.Str.CStr.{concat}
use cmon.Str.{CmonString, str_new, str_new_from_char_arrs}
use cmon.Token.{token_arr_new, config_tokenizer}
use cmon.Config.{CmonConfig, config_parser, get_cwd}

-- What `access` answers, with `errno`.
pub data Access : Type 0 where
  readable missing denied : Access

-- The mode of `fopen`: "r" or "w+".
pub data Mode : Type 0 where
  reading writing : Mode

-- The calls of the C library. `lines` is what `fgets` gives, call after call, until it gives NULL.
pub record Stdio : Type 1 where
  pub World : Type 0
  pub Stream : Type 0
  pub access : Bytes → World → Access × World
  pub fopen : Bytes → Mode → World → Option Stream × World
  pub fprintf : Stream → Bytes → World → World
  pub fflush : Stream → World → World
  pub lines : Stream → World → List Bytes × World
  pub fclose : Stream → World → World

-- `DEFAULT_CONFIG`, line by line.
abbrev pub default_config : Bytes
default_config = concat (
    codes "WATCH_FILE_EXT_NAMES: {\n"
    ∷ codes "  \"html\",\n"
    ∷ codes "  \"css\"\n"
    ∷ codes "}\n"
    ∷ codes "\n"
    ∷ codes "IGNORE_FILES: {\n"
    ∷ codes "  \".gitignore\",\n"
    ∷ codes "  \"c000mand1.go\"\n"
    ∷ codes "}\n"
    ∷ codes "\n"
    ∷ codes "IGNORE_DIRS: {\n"
    ∷ codes "  \".git\",\n"
    ∷ codes "  \"build\",\n"
    ∷ codes "  \"node_modules\",\n"
    ∷ codes "  \"si/super/com\"\n"
    ∷ codes "}"
    ∷ [])

abbrev pub config_name : Bytes
config_name = codes ".config.cmon" ++ 0 ∷ []

-- The path of the configuration file.
unfoldable pub config_path : Allocator → Option CmonString → Run CmonString
config_path m none = fault
config_path m (some cwd) = do
  made ← str_new_from_char_arrs m (some cwd.string) (config_name ∷ [])
  elim made [ none ↦ fault | some path ↦ ok path ]

module _ (io : Stdio) where
  -- What `fopen` gave for a file that was missing: NULL is only reported, and then written to.
  created : Option io.Stream × io.World → Run (io.Stream × io.World)
  created (none, w) = fault
  created (some f, w) = ok (f, io.fflush f (io.fprintf f default_config w))

  opened : Option io.Stream × io.World → Run (io.Stream × io.World)
  opened (none, w) = exited 1
  opened (some f, w) = ok (f, w)

  accessed : Bytes → Access × io.World → Run (io.Stream × io.World)
  accessed path (missing, w) = created (io.fopen path writing w)
  accessed path (denied, w) = exited 1
  accessed path (readable, w) = opened (io.fopen path reading w)

  -- `config_open_file`
  unfoldable pub open_file : Bytes → io.World → Run (io.Stream × io.World)
  unfolding created opened accessed
  open_file path w = accessed path (io.access path w)

  -- `config_init`, given what `getcwd` gave, and what the tokenizer's static array holds.
  unfoldable pub config_init :
      Allocator
      → Bytes
      → Option Bytes
      → List Bytes
      → CmonConfig
      → io.World
      → Run (CmonConfig × io.World)
  unfolding get_cwd config_path open_file config_parser
  config_init m lexem char_cwd [] conf w = exited 1
  config_init m lexem char_cwd (name ∷ []) conf w = exited 1
  config_init m lexem char_cwd (name ∷ exe ∷ args) conf w = do
    made ← str_new m (some exe)
    cwd ← get_cwd m char_cwd
    path ← config_path m cwd
    (config_file, w') ← open_file path.string w
    let read = io.lines config_file w'
    tok_arr ← config_tokenizer m lexem token_arr_new read.0
    conf' ← config_parser m tok_arr (record conf { exe = made; argv = exe ∷ args; cwd = cwd })
    ok (conf', io.fclose config_file read.1)
