-- ===== src/Text.antt =====
-- Byte searches and character classes: src/utils/c_utils_str.c, src/lib/utils/text_utils.c and
-- src/lib/utils/cmon_str_utils.c. A `const char *` that is only read is the list of the bytes of
-- its object from the pointer on, and `none` where it is NULL; a read past the end is a fault.
-- A result of -1 is `none`.
pub mod Search
pub mod Overrun
pub mod Decimal
mod Tests
use cmon.Base.{
  ℕ, zero, suc, ◌+◌, ◌-◌, ◌%◌, ◌^◌, Bool, true, false, ◌&&◌, Option, none, some, List, [], ◌∷◌, leb,
  ◌==◌, if◌then◌else◌, Run, ok, fault, ◌>>=◌, fetch,
}

abbrev pub Bytes : Type 0
Bytes = List ℕ

abbrev pub size_mod : ℕ
size_mod = 2 ^ 64

-- `size_t` subtraction
abbrev pub sub_size : ℕ → ℕ → ℕ
sub_size a b = (a + size_mod - b) % size_mod

-- The inner loop of `c_u_str_find_pattern` at shift `s`, with the rounds left: does it return `s`?
unfoldable pub match_at : Bytes → ℕ → Bytes → ℕ → ℕ → ℕ → Run Bool
match_at p p_len t s zero i = ok false
match_at p p_len t s (suc n) i = do
  a ← fetch t (s + i)
  b ← fetch p i
  let rest = match_at p p_len t s n (i + 1)
  if a == b then (if i == p_len - 1 then ok true else rest) else ok false

-- The outer loop, with the rounds left.
unfoldable pub search_from : Bytes → ℕ → Bytes → ℕ → ℕ → Run (Option ℕ)
search_from p p_len t zero s = ok none
search_from p p_len t (suc n) s = do
  hit ← match_at p p_len t s p_len 0
  elim hit [ true ↦ ok (some s) | false ↦ search_from p p_len t n (s + 1) ]

-- `s <= t_len - p_len` is tested in `size_t`, so the loop makes one more round than the
-- difference modulo 2 ^ 64.
unfoldable pub find_pattern : Option Bytes → ℕ → Option Bytes → ℕ → Run (Option ℕ)
unfolding search_from match_at
find_pattern none p_len t t_len = ok none
find_pattern (some p) p_len none t_len = ok none
find_pattern (some p) p_len (some t) t_len = search_from p p_len t (sub_size t_len p_len + 1) 0

abbrev within : ℕ → ℕ → ℕ → Bool
within lo hi c = leb lo c && leb c hi

unfoldable pub char_is_alphanumeric : ℕ → ℕ
char_is_alphanumeric c =
    if within b'A' b'Z' c
    then 1
    else if within b'a' b'z' c
    then 2
    else if within b'0' b'9' c
    then 3
    else 0

unfoldable pub char_is_alpha : ℕ → ℕ
char_is_alpha c = if within b'A' b'Z' c then 1 else if within b'a' b'z' c then 2 else 0

unfoldable pub char_is_numeric : ℕ → ℕ
char_is_numeric c = if within b'0' b'9' c then 1 else 0

-- `while (*str != '\0')`: the object must hold a NUL byte, or an alphabetic one.
unfoldable pub str_is_number : Bytes → Run Bool
unfolding char_is_alpha
str_is_number [] = fault
str_is_number (c ∷ cs) =
    let rest = str_is_number cs in
    if c == 0 then ok true else if char_is_alpha c == 0 then rest else ok false

-- The loop of `get_ext_name_from_cmon_string` over `file_name->string[i ..]`, `i` up to `size`.
-- The result is the offset of the name that it returns a pointer to.
unfoldable pub ext_name_from : Bytes → ℕ → ℕ → ℕ → Run (Option ℕ)
ext_name_from str size zero i = ok none
ext_name_from str size (suc n) i = do
  c ← fetch str i
  let rest = ext_name_from str size n (i + 1)
  if c == b'.' then (if leb (i + 2) size then ok (some (i + 1)) else rest) else rest

unfoldable pub get_ext_name : Bytes → ℕ → Run (Option ℕ)
unfolding ext_name_from
get_ext_name str size = ext_name_from str size size 0
