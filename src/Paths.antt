-- ===== src/Paths.antt =====
-- Paths: `cmon_path_new` of src/lib/utils/cmon_path.c, with the `CmonPath` of cmon_path.h. `ext`
-- is the offset of its pointer into `path`.
pub mod Dot
pub mod Extension
pub mod Full
pub mod Unended
pub mod Sample
mod Tests
use cmon.Base.{
  ℕ, zero, suc, ◌+◌, ◌-◌, ◌*◌, ◌%◌, ◌≤◌, ◌≡◌, Bool, Option, none, some, [], ◌∷◌, length, take, drop,
  ltb, leb, ◌==◌, if◌then◌else◌, Run, ok, fault, ◌>>=◌,
}
use cmon.Text.{Bytes, size_mod}
use cmon.Str.{put}

pub record CmonPath : Type 0 where
  pub path_len : ℕ
  pub path : Bytes
  pub ext_len : ℕ
  pub ext : Option ℕ

abbrev pub max_path_len : ℕ
max_path_len = 4096

-- `sizeof(CmonPath)`
abbrev pub path_struct_size : ℕ
path_struct_size = 32

-- `malloc` and `realloc` of the C library: NULL, or a block of the size that was asked for; a
-- block that grows keeps its bytes.
pub record Reallocator : Type 0 where
  pub alloc : ℕ → Option Bytes
  pub alloc_size : (n : ℕ) (b : Bytes) → alloc n ≡ some b → length b ≡ n
  pub realloc : Bytes → ℕ → Option Bytes
  pub realloc_size : (b : Bytes) (n : ℕ) (b' : Bytes) → realloc b n ≡ some b' → length b' ≡ n
  pub realloc_keeps :
      (b : Bytes) (n : ℕ) (b' : Bytes)
      → length b ≤ n
      → realloc b n ≡ some b'
      → take (length b) b' ≡ b

abbrev pub put_in : Option Bytes → ℕ → ℕ → Run Bytes
put_in none i c = fault
put_in (some b) i c = put b i c

-- `strlen`
abbrev pub str_len : Bytes → Run ℕ
str_len [] = fault
str_len (c ∷ cs) = let rest = (do n ← str_len cs; ok (suc n)) in if c == 0 then ok 0 else rest

module _ (mem : Reallocator) where
  abbrev pub resized : Bool → ℕ → Bytes → Option Bytes × ℕ
  resized full size block =
      if full
      then (mem.realloc block (size * 2 % size_mod), size * 2 % size_mod)
      else (some block, size)

  -- `path_buffer` and `buff_size` at the top of a round, at index `i`
  unfoldable pub room_for : ℕ → Bytes → ℕ → Option Bytes × ℕ
  room_for size block i = resized (leb (size - 1) i) size block

  -- The loop from index `i` on, over the bytes of `str_path` that are left: `path_buffer`, the
  -- index at the end and `last_point_index`, or NULL; and what `buff_size` is afterwards.
  unfoldable pub path_from : ℕ → Bytes → ℕ → ℕ → Bytes → Run (Option (Bytes × ℕ × ℕ) × ℕ)
  unfolding room_for
  path_from size block i last [] =
      if ltb (max_path_len - 1) i then ok (none, (room_for size block i).1) else fault
  path_from size block i last (c ∷ cs) =
      let room = room_for size block i in
      let rest = (do
        written ← put_in room.0 i c
        path_from room.1 written (i + 1) (if c == b'.' then i else last) cs) in
      if ltb (max_path_len - 1) i
      then ok (none, room.1)
      else if c == 0
      then (do ended ← put_in room.0 i 0; ok (some (ended, i, last), room.1))
      else rest

  -- The end of the function.
  unfoldable pub path_of : Option (Bytes × ℕ × ℕ) × ℕ → Run (Option CmonPath × ℕ)
  path_of (none, size) = ok (none, size)
  path_of (some (buffer, i, last), size) =
      if ltb 0 last
      then (do
        ext_len ← str_len (drop last buffer)
        ok (
          some (record { path_len = i; path = buffer; ext_len = ext_len; ext = some last }),
          size,
        ))
      else ok (some (record { path_len = i; path = buffer; ext_len = 0; ext = none }), size)

  abbrev pub new_in : ℕ → Bytes → Option Bytes → Option Bytes → Run (Option CmonPath × ℕ)
  new_in size str none buffer = ok (none, size)
  new_in size str (some path) none = ok (none, size)
  new_in size str (some path) (some buffer) = do
    copied ← path_from size buffer 0 0 str
    path_of copied

  -- `cmon_path_new`; `size` is its static `buff_size`, which is 20 at first.
  unfoldable pub path_new : ℕ → Bytes → Run (Option CmonPath × ℕ)
  unfolding path_from path_of
  path_new size str = new_in size str (mem.alloc path_struct_size) (mem.alloc size)
