-- ===== src/Str/Array.antt =====
-- Arrays of at most 50 strings: src/lib/utils/cmon_string_array.c. The array is its count and its
-- 50 slots; a slot that holds no string is `none`. An operation on the array returns its result
-- and the new array.
pub mod Items
pub mod Find
use cmon.Base.{
  ℕ, zero, suc, ◌+◌, Bool, true, false, Option, none, some, List, [], ◌∷◌, ltb, leb, ◌==◌,
  if◌then◌else◌, length, set, Run, ok, fault, ◌>>=◌, fetch,
}
use cmon.Text.{Bytes}
use cmon.Str.Alloc.{Allocator}
use cmon.Str.{CmonString, str_new, str_cmp}

abbrev pub initial_array_size : ℕ
initial_array_size = 50

pub record CmonStringArray : Type 0 where
  pub len : ℕ
  pub arr : List (Option CmonString)

-- The argument is what `malloc` answers: the slots, whatever they hold, or NULL.
unfoldable pub str_arr_new : Option (List (Option CmonString)) → Option CmonStringArray
str_arr_new none = none
str_arr_new (some slots) = some (record { len = 0; arr = slots })

unfoldable pub str_arr_init : Option CmonStringArray → Option CmonStringArray
str_arr_init none = none
str_arr_init (some a) = some (record a { len = 0 })

unfoldable pub str_arr_get_str : Option CmonStringArray → ℕ → Run (Option CmonString)
str_arr_get_str none index = ok none
str_arr_get_str (some a) index = if leb a.len index then ok none else fetch a.arr index

-- `arr->arr[arr->len] = str; arr->len++;`
unfoldable pub store_last : CmonStringArray → CmonString → Run CmonStringArray
store_last a str =
    if ltb a.len (length a.arr)
    then ok (record { len = a.len + 1; arr = set a.arr a.len (some str) })
    else fault

abbrev pub Added : Type 0
Added = Option CmonString × CmonStringArray

-- The test on the count, and the store.
unfoldable pub add_checked : CmonStringArray → CmonString → Run Added
unfolding store_last
add_checked a str =
    if ltb initial_array_size (a.len + 1)
    then ok (none, a)
    else do a' ← store_last a str; ok (some str, a')

unfoldable pub str_arr_add_from_str : CmonStringArray → Option CmonString → Run Added
unfolding add_checked
str_arr_add_from_str a none = ok (none, a)
str_arr_add_from_str a (some str) = add_checked a str

add_new : CmonStringArray → Option CmonString → Run Added
unfolding add_checked
add_new a none = ok (none, a)
add_new a (some str) = add_checked a str

unfoldable pub str_arr_add_new_char_arr : Allocator → CmonStringArray → Option Bytes → Run Added
unfolding add_new
str_arr_add_new_char_arr m a none = ok (none, a)
str_arr_add_new_char_arr m a (some str) = do
  first ← fetch str 0
  if first == 0 then ok (none, a) else do made ← str_new m (some str); add_new a made

-- The loop of `cmon_str_arr_find`, with the rounds left.
unfoldable pub find_from : CmonStringArray → Option CmonString → ℕ → ℕ → Run (Option CmonString)
unfolding str_arr_get_str
find_from a str zero i = ok none
find_from a str (suc n) i = do
  cur ← str_arr_get_str (some a) i
  same ← str_cmp str cur
  let rest = find_from a str n (i + 1)
  if same then ok cur else rest

unfoldable pub str_arr_find : CmonStringArray → Option CmonString → Run (Option CmonString)
unfolding find_from
str_arr_find a str = find_from a str a.len 0
