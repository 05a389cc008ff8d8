-- ===== src/Str.antt =====
-- Immutable strings: src/utils/c_utils_string.c. A `char *` argument is the list of the bytes of
-- its object from the pointer on, its NUL byte included; `string` of a `CmonString` likewise.
-- What `malloc` answers is a parameter. The log lines are left out.
pub mod Alloc
pub mod CStr
pub mod Concat
pub mod Compare
pub mod Array
pub mod Sample
mod Tests
use cmon.Base.{
  ℕ, zero, suc, ◌+◌, ◌%◌, ◌^◌, Bool, true, false, Option, none, some, List, [], ◌∷◌, ltb, leb, ◌==◌,
  if◌then◌else◌, length, set, Run, ok, fault, ◌>>=◌, fetch,
}
use cmon.Text.{Bytes}
use cmon.Str.Alloc.{Allocator}

pub record CmonString : Type 0 where
  pub size : ℕ
  pub string : Bytes

abbrev pub max_amount_of_strings : ℕ
max_amount_of_strings = 50

-- `sizeof(CmonString)`
abbrev pub string_struct_size : ℕ
string_struct_size = 16

-- `block[pos] = c`
abbrev pub put : Bytes → ℕ → ℕ → Run Bytes
put block pos c = if ltb pos (length block) then ok (set block pos c) else fault

-- `strncpy(dst + off, src, n)`; the flag says whether the NUL of `src` has been met.
unfoldable pub strncpy : Bytes → ℕ → Bytes → Bool → ℕ → Run Bytes
strncpy dst off src ended zero = ok dst
strncpy dst off src true (suc n) = do dst' ← put dst off 0; strncpy dst' (off + 1) src true n
strncpy dst off [] false (suc n) = fault
strncpy dst off (c ∷ cs) false (suc n) = do
  dst' ← put dst off c
  strncpy dst' (off + 1) cs (c == 0) n

-- `_char_arr_len`, with the bytes counted so far.
unfoldable pub char_arr_len : Bytes → ℕ → Run ℕ
char_arr_len [] len = fault
char_arr_len (c ∷ cs) len =
    let rest = char_arr_len cs (len + 1) in
    if c == 0 then ok len else if ltb 256 len then ok 0 else rest

-- The `va_arg` loop: the size of the block that the arguments need, `none` for its `return NULL`.
unfoldable pub gather : List Bytes → ℕ → ℕ → Run (Option ℕ)
unfolding char_arr_len
gather [] n_args size = ok (some size)
gather (arg ∷ args) n_args size =
    let rest = (do len ← char_arr_len arg 0; gather args (n_args + 1) (size + len)) in
    if leb max_amount_of_strings n_args then ok none else rest

-- `while (*arg != '\0') *ptr++ = *arg++;`
unfoldable pub copy_arg : Bytes → Bytes → ℕ → Run (Bytes × ℕ)
copy_arg [] block pos = fault
copy_arg (c ∷ cs) block pos =
    let rest = (do block' ← put block pos c; copy_arg cs block' (pos + 1)) in
    if c == 0 then ok (block, pos) else rest

-- The loop over `buffArgs`.
unfoldable pub copy_args : List Bytes → Bytes → ℕ → Run (Bytes × ℕ)
unfolding copy_arg
copy_args [] block pos = ok (block, pos)
copy_args (arg ∷ args) block pos = do
  (block', pos') ← copy_arg arg block pos
  copy_args args block' pos'

-- The block is filled with the arguments, and ended by a NUL byte.
unfoldable pub build : List Bytes → ℕ → Bytes → Run (Option CmonString)
unfolding copy_args
build args size block = do
  (copied, pos) ← copy_args args block 0
  ended ← put copied pos 0
  ok (some (record { size = size; string = ended }))

-- The two calls of `malloc`, for the struct and for its bytes.
unfoldable pub alloc_string : Allocator → ℕ → Option Bytes
alloc_string m size = elim (m.alloc string_struct_size) [
  | none ↦ none
  | some header ↦ m.alloc (size + 1)
]

from_block : List Bytes → ℕ → Option Bytes → Run (Option CmonString)
from_block args size none = ok none
from_block args size (some block) = build args size block

-- What follows the `va_arg` loop.
from_total : Allocator → List Bytes → Option ℕ → Run (Option CmonString)
from_total m args none = ok none
from_total m args (some size) = from_block args size (alloc_string m size)

-- `cmon_str_new_from_char_arrs(charArr, args..., NULL)`
unfoldable pub str_new_from_char_arrs :
    Allocator → Option Bytes → List Bytes → Run (Option CmonString)
unfolding gather from_block from_total build
str_new_from_char_arrs m none args = ok none
str_new_from_char_arrs m (some arr) args = do
  len ← char_arr_len arr 0
  total ← gather args 1 len
  from_total m (arr ∷ args) total

unfoldable pub str_new : Allocator → Option Bytes → Run (Option CmonString)
unfolding str_new_from_char_arrs
str_new m arr = str_new_from_char_arrs m arr []

unfoldable pub str_copy : Allocator → Option CmonString → Run (Option CmonString)
unfolding str_new
str_copy m none = ok none
str_copy m (some str) = str_new m (some str.string)

-- The result is the return value, `true` for 0 and `false` for -1, and the buffer.
unfoldable pub copy_to_char_arr : Option CmonString → Option Bytes → ℕ → Run (Bool × Option Bytes)
unfolding copy_arg
copy_to_char_arr str none buff_size = ok (false, none)
copy_to_char_arr none (some buff) buff_size = ok (false, some buff)
copy_to_char_arr (some str) (some buff) buff_size =
    if ltb buff_size (str.size + 1) then ok (false, some buff) else do
      (copied, pos) ← copy_arg str.string buff 0
      ended ← put copied pos 0
      ok (true, some ended)

-- The loop of `cmon_str_cmp`, with the rounds left.
unfoldable pub cmp_from : Bytes → Bytes → ℕ → ℕ → Run Bool
cmp_from a b zero i = ok true
cmp_from a b (suc n) i = do
  x ← fetch a i
  y ← fetch b i
  let rest = cmp_from a b n (i + 1)
  if x == y then rest else ok false

unfoldable pub str_cmp : Option CmonString → Option CmonString → Run Bool
unfolding cmp_from
str_cmp none b = ok false
str_cmp (some a) none = ok false
str_cmp (some a) (some b) =
    if a.size == b.size then cmp_from a.string b.string a.size 0 else ok false

-- The `va_arg` loop of `cmon_str_new_from_str`. The size is an `unsigned int`.
unfoldable pub gather_strs : List CmonString → ℕ → ℕ → Option ℕ
gather_strs [] n_args size = some size
gather_strs (arg ∷ args) n_args size =
    let rest = gather_strs args (n_args + 1) ((size + arg.size) % 2 ^ 32) in
    if leb max_amount_of_strings n_args then none else rest

-- `cmon_str_new_from_str(string, args..., NULL)`. It writes through `newStr->string`, which
-- nothing has set: the block is one for the struct and the bytes, and its pointer is not filled in.
unfoldable pub str_new_from_str :
    Allocator → Option CmonString → List CmonString → Run (Option CmonString)
unfolding gather_strs
str_new_from_str m none args = ok none
str_new_from_str m (some str) args = elim (gather_strs args 1 (str.size % 2 ^ 32)) [
  | none ↦ ok none
  | some size ↦ elim (m.alloc (string_struct_size + size + 1)) [
    | none ↦ ok none
    | some block ↦ fault
  ]
]
