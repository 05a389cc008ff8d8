-- ===== src/Http.antt =====
-- HTTP headers as bytes: the first half of src/cmon_proxy/cmon_http.c. A result of type `int` or
-- `ssize_t` is an integer. The variable length arrays of the functions are taken to fit on the
-- stack.
pub mod Field
pub mod Length
pub mod Delim
pub mod Message
pub mod View
pub mod Buffered
pub mod Peek
mod Tests
use cmon.Base.{
  ℕ, zero, suc, ◌+◌, ◌-◌, ◌*◌, ◌%◌, ◌^◌, Bool, true, false, ◌&&◌, ◌||◌, Option, none, some, List,
  [], ◌∷◌, ◌++◌, leb, ltb, ◌==◌, if◌then◌else◌, length, set, take, drop, replicate, Run, ok, fault,
  ◌>>=◌, fetch,
}
use cmon.Base.Int.{ℤ, pos, minus}
use cmon.Text.{Bytes, size_mod, sub_size, find_pattern}

abbrev pub max_iterations : ℕ
max_iterations = 20

abbrev pub max_length_of_content_length_chars : ℕ
max_length_of_content_length_chars = 9

abbrev pub max_length_of_parseable_string : ℕ
max_length_of_parseable_string = 9

abbrev pub int_max : ℕ
int_max = 2147483647

abbrev pub crlf : Bytes
crlf = 13 ∷ 10 ∷ []

abbrev pub header_delim : Bytes
header_delim = 13 ∷ 10 ∷ 13 ∷ 10 ∷ []

abbrev pub is_digit : ℕ → Bool
is_digit c = leb b'0' c && leb c b'9'

-- The loop of `_parse_str_to_int` from position `i`, with the rounds left.
unfoldable pub parse_from : Bytes → ℕ → ℕ → ℕ → Run ℤ
parse_from str zero i value = ok (pos value)
parse_from str (suc n) i value = do
  c ← fetch str i
  let digit = is_digit c
  let rest =
      parse_from str n (i + 1) (if digit then (value * 10 + (c - b'0')) % size_mod else value)
  if digit || c == b' ' then rest else ok (minus 1)

unfoldable pub parse_str_to_int : Bytes → ℕ → Run ℤ
unfolding parse_from
parse_str_to_int str size =
    if ltb max_length_of_parseable_string size then ok (minus 1) else parse_from str size 0 0

-- The loop of `_http_get_content_length_headder` from `p_c` on: `number_buf` and its size, and
-- `none` where the loop returns -1.
unfoldable pub number_from : Bytes → ℕ → Bytes → ℕ → Run (Option (Bytes × ℕ))
number_from [] iterations number_buf size = fault
number_from (c ∷ cs) iterations number_buf size =
    let digit = is_digit c in
    let rest =
      number_from cs (if digit then iterations else iterations + 1)
        (if digit then set number_buf size c else number_buf) (if digit then size + 1 else size) in
    if c == 10 || c == 13
    then ok (some (number_buf, size))
    else if ltb max_iterations iterations
    then ok none
    else if ltb max_length_of_content_length_chars size
    then ok none
    else if digit
    then (if ltb size (length number_buf) then rest else fault)
    else rest

-- What the function does with the digits that its loop gathered.
unfoldable pub number_value : Option (Bytes × ℕ) → Run ℤ
unfolding parse_str_to_int
number_value none = ok (minus 1)
number_value (some (number_buf, size)) =
    if size == 0 then ok (pos 0) else parse_str_to_int number_buf size

abbrev pub content_length_name : Bytes
content_length_name =
    b'C' ∷ b'o' ∷ b'n' ∷ b't' ∷ b'e' ∷ b'n' ∷ b't' ∷ b'-' ∷ b'L' ∷ b'e' ∷ b'n' ∷ b'g' ∷ b't' ∷ b'h'
    ∷ b':' ∷ []

unfoldable pub length_after : Bytes → Option ℕ → Run ℤ
unfolding number_from number_value
length_after buff none = ok (pos 0)
length_after buff (some i) = do
  gathered ← number_from (drop (i + 14) buff) 0 (replicate max_length_of_content_length_chars 0) 0
  number_value gathered

-- `_http_get_content_length_headder`
unfoldable pub get_content_length : Bytes → ℕ → Run ℤ
unfolding length_after
get_content_length buff size = do
  header_index ← find_pattern (some content_length_name) 15 (some buff) size
  length_after buff header_index

-- `n` bytes of an object from position `start` on.
abbrev pub slice : Bytes → ℕ → ℕ → Run Bytes
slice t start n = if leb (start + n) (length t) then ok (take n (drop start t)) else fault

-- `memcpy` to the front of an object.
abbrev pub memcpy_to : Bytes → Bytes → Run Bytes
memcpy_to buf bytes =
    if leb (length bytes) (length buf) then ok (bytes ++ drop (length bytes) buf) else fault

-- `key` with a colon behind it.
unfoldable pub doted : Bytes → ℕ → Run Bytes
doted key key_size = do k ← slice key 0 key_size; ok (k ++ b':' ∷ [])

-- The length of the value that starts at `start_index`.
abbrev pub value_size : Bytes → ℕ → ℕ → Run (Option ℕ)
value_size header header_size start_index =
    find_pattern (some crlf) 2 (some (drop start_index header)) (sub_size header_size start_index)

pub record CmonUtilRange : Type 0 where
  pub start : ℕ
  pub end : ℕ

abbrev pub range_of : ℕ → Option ℕ → ℤ × Option CmonUtilRange
range_of start none = (minus 4, none)
range_of start (some size) = (pos 0, some (record { start = start; end = size }))

unfoldable pub range_after : Bytes → ℕ → ℕ → Option ℕ → Run (ℤ × Option CmonUtilRange)
range_after header header_size key_size none = ok (minus 3, none)
range_after header header_size key_size (some offset) = do
  let start_index = offset + key_size + 1
  size ← value_size header header_size start_index
  ok (range_of start_index size)

-- `_c_http_get_key_value_range`, with what it writes to `*range`.
unfoldable pub get_key_value_range :
    Option Bytes → ℕ → Option Bytes → ℕ → Run (ℤ × Option CmonUtilRange)
unfolding doted range_after
get_key_value_range none header_size key key_size = ok (minus 1, none)
get_key_value_range (some header) header_size none key_size = ok (minus 1, none)
get_key_value_range (some header) header_size (some key) key_size =
    if header_size == 0 || key_size == 0 then ok (minus 2, none) else do
      doted_key ← doted key key_size
      offset ← find_pattern (some doted_key) (key_size + 1) (some header) header_size
      range_after header header_size key_size offset

-- The end of `c_http_get_header_field`, once the size of the value is known.
unfoldable pub copy_value : Bytes → ℕ → Bytes → ℕ → Option ℕ → Run (ℤ × Bytes)
copy_value header start_index buf buf_size none = ok (minus 3, buf)
copy_value header start_index buf buf_size (some size) =
    if ltb int_max size
    then ok (minus 4, buf)
    else if ltb buf_size size
    then ok (minus 4, buf)
    else do value ← slice header start_index size; buf' ← memcpy_to buf value; ok (pos size, buf')

unfoldable pub field_after : Bytes → ℕ → ℕ → Bytes → ℕ → Option ℕ → Run (ℤ × Bytes)
unfolding copy_value
field_after header header_size key_size buf buf_size none = ok (pos 0, buf)
field_after header header_size key_size buf buf_size (some offset) = do
  let start_index = offset + key_size + 1
  size ← value_size header header_size start_index
  copy_value header start_index buf buf_size size

-- `c_http_get_header_field`: its result, and `buf` after it.
unfoldable pub get_header_field :
    Option Bytes → ℕ → Option Bytes → ℕ → Option Bytes → ℕ → Run (ℤ × Option Bytes)
unfolding doted field_after
get_header_field none header_size key key_size buf buf_size = ok (minus 1, buf)
get_header_field (some header) header_size key key_size none buf_size = ok (minus 1, none)
get_header_field (some header) header_size none key_size (some buf) buf_size =
    ok (minus 1, some buf)
get_header_field (some header) header_size (some key) key_size (some buf) buf_size =
    if header_size == 0 || buf_size == 0 || key_size == 0 then ok (minus 2, some buf) else do
      doted_key ← doted key key_size
      offset ← find_pattern (some doted_key) (key_size + 1) (some header) header_size
      (rc, buf') ← field_after header header_size key_size buf buf_size offset
      ok (rc, some buf')
