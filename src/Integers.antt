-- ===== src/Integers.antt =====
-- Growing arrays of integers: src/utils/c_int_array.c. `malloc` gives a struct with room for `size`
-- integers, or NULL. `cmon_int_array_print` is left out.
pub mod Items
mod Tests
use cmon.Base.{
  ℕ, zero, suc, ◌+◌, Bool, true, false, Option, none, some, List, [], ◌∷◌, ltb, ◌==◌, if◌then◌else◌,
  length, set, replicate, get_elem?, Run, ok, fault, ◌>>=◌, fetch,
}
use cmon.Base.Int.{ℤ, pos}

abbrev pub max_int_array_size : ℕ
max_int_array_size = 5000

abbrev pub memory_increment : ℕ
memory_increment = 15

pub record CmonIntArray : Type 0 where
  pub len : ℕ
  pub size : ℕ
  pub arr : List ℤ

-- `cmon_int_arr_new`, given what `malloc` answers: the slots of the new array.
unfoldable pub int_arr_new : ℕ → Option (List ℤ) → Option CmonIntArray
int_arr_new zero block = none
int_arr_new (suc n) none = none
int_arr_new (suc n) (some arr) = some (record { len = 0; size = suc n; arr = arr })

abbrev pub put_slot : List ℤ → ℕ → ℤ → Run (List ℤ)
put_slot arr i v = if ltb i (length arr) then ok (set arr i v) else fault

-- `for (int i = 0; i < arr->len; i++) newIntArray->arr[i] = arr->arr[i];` with the rounds left.
unfoldable pub copy_slots : List ℤ → List ℤ → ℕ → ℕ → Run (List ℤ)
copy_slots src dst zero i = ok dst
copy_slots src dst (suc n) i = do
  v ← fetch src i
  dst' ← put_slot dst i v
  copy_slots src dst' n (i + 1)

-- The branch that moves the array; the new one is not tested for NULL.
unfoldable pub add_moved : CmonIntArray → ℤ → Option CmonIntArray → Run (Option CmonIntArray)
unfolding copy_slots
add_moved a add none = fault
add_moved a add (some new) = do
  copied ← copy_slots a.arr new.arr a.len 0
  arr ← put_slot copied a.len add
  ok (some (record new { len = a.len + 1; arr = arr }))

-- `cmon_int_arr_add`, given what `malloc` answers; the result is the array to use from then on.
unfoldable pub int_arr_add : Option CmonIntArray → ℤ → Option (List ℤ) → Run (Option CmonIntArray)
unfolding add_moved int_arr_new
int_arr_add none add block = ok none
int_arr_add (some a) add block =
    if ltb max_int_array_size (a.len + 1)
    then ok none
    else if ltb a.size (a.len + 1)
    then add_moved a add (int_arr_new (a.size + memory_increment) block)
    else do arr ← put_slot a.arr a.len add; ok (some (record a { len = a.len + 1; arr = arr }))
