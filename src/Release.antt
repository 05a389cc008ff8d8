-- ===== src/Release.antt =====
-- The functions that free: `cmon_str_arr_free` (src/lib/utils/cmon_string_array.c), `config_free`
-- (src/lib/config/config.c), `token_arr_free` (src/lib/parser/tokenizer.c), `cmon_path_free`
-- (src/lib/utils/cmon_path.c) and `c_http_free_message` (src/cmon_proxy/cmon_http.c). A block is
-- its address; the state is the list of the blocks that are allocated. A pointer to NULL is
-- `none`, and to free a block that is not allocated is a fault.
mod Blocks
mod Tests
use cmon.Base.{
  ℕ, zero, suc, ◌+◌, Option, none, some, List, [], ◌∷◌, ◌==◌, if◌then◌else◌, Run, ok, fault, ◌>>=◌,
  fetch,
}
use cmon.Base.Int.{ℤ, pos}

-- `free` of an address.
unfoldable pub release : ℕ → List ℕ → Run (List ℕ)
release a [] = fault
release a (b ∷ live) =
    let rest = (do live' ← release a live; ok (b ∷ live')) in if b == a then ok live else rest

unfoldable pub free : Option ℕ → List ℕ → Run (List ℕ)
unfolding release
free none live = ok live
free (some a) live = release a live

-- A `CmonStringArray`, as the pointers that it holds.
pub record Strings : Type 0 where
  pub len : ℕ
  pub arr : List (Option ℕ)

-- `for(size_t i = 0; i < arr->len; i++)`, with the rounds left.
unfoldable pub free_from : List (Option ℕ) → ℕ → ℕ → List ℕ → Run (List ℕ)
unfolding free
free_from arr zero i live = ok live
free_from arr (suc n) i live = do
  p ← fetch arr i
  live' ← free p live
  free_from arr n (i + 1) live'

-- `cmon_str_arr_free`
unfoldable pub str_arr_free : Option Strings → List ℕ → Run (ℤ × List ℕ)
unfolding free_from
str_arr_free none live = ok (pos 1, live)
str_arr_free (some a) live = do live' ← free_from a.arr a.len 0 live; ok (pos 0, live')

-- A `CmonConfig`, as its own address and the pointers that it holds.
pub record ConfigBlocks : Type 0 where
  pub conf : ℕ
  pub ignore_dirs : Strings
  pub ignore_files : Strings
  pub watch_ext_names : Strings
  pub cwd : Option ℕ
  pub exe : Option ℕ

-- `config_free`
unfoldable pub config_free : ConfigBlocks → List ℕ → Run (ℤ × List ℕ)
unfolding str_arr_free
config_free c live = do
  dirs ← str_arr_free (some c.ignore_dirs) live
  files ← str_arr_free (some c.ignore_files) dirs.1
  names ← str_arr_free (some c.watch_ext_names) files.1
  without_cwd ← free c.cwd names.1
  without_exe ← free c.exe without_cwd
  live' ← free (some c.conf) without_exe
  ok (pos 0, live')

-- `token_arr_free`: the values of the tokens, and the array.
unfoldable pub token_arr_free : ℕ → List (Option ℕ) → ℕ → List ℕ → Run (List ℕ)
unfolding free_from
token_arr_free arr values len live = do live' ← free_from values len 0 live; free (some arr) live'

-- `cmon_path_free`, of a path and the bytes that it points to.
unfoldable pub path_free : Option (ℕ × Option ℕ) → List ℕ → Run (List ℕ)
unfolding free
path_free none live = ok live
path_free (some (path, bytes)) live = do live' ← free bytes live; free (some path) live'

-- `c_http_free_message`, of a message and its chunk.
unfoldable pub free_message : Option (ℕ × Option ℕ) → List ℕ → Run (List ℕ)
unfolding free
free_message none live = ok live
free_message (some (msg, none)) live = free (some msg) live
free_message (some (msg, some chunk)) live = do
  live' ← free (some chunk) live
  free (some msg) live'
