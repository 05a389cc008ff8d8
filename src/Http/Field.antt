-- ===== src/Http/Field.antt =====
-- Header fields that are found: the value that is copied is the one behind `key:`.
use cmon.Base.{
  ℕ, suc, ◌+◌, ◌≤◌, ◌<◌, ◌≡◌, refl, sym, ap, ◌∙◌, false, ◌||◌, some, [], ◌∷◌, ◌++◌, length, drop,
  drop-append, take-append, length-append, arith, ok, ◌==◌, ge→ltb, ne→==, le→leb, take-ge,
  drop-drop, ap₂,
}
use cmon.Base.Int.{pos}
use cmon.Text.{Bytes, size_mod}
use cmon.Text.Search.{Occurs, find_pattern-at, find_pattern-absent, Occurs-middle}
use cmon.Http.{crlf, int_max, doted, slice, value_size, copy_value, field_after, get_header_field}

-- A header in which the field `key` has the value `value`.
abbrev pub with_field : Bytes → Bytes → Bytes → Bytes → Bytes
with_field pre key value rest = pre ++ ((key ++ b':' ∷ []) ++ (value ++ (crlf ++ rest)))

pub slice-middle : (pre p rest : Bytes) → slice (pre ++ (p ++ rest)) (length pre) (length p) ≡ ok p
slice-middle pre p rest =
    let whole = length-append pre (p ++ rest) ∙ ap (λ n. length pre + n) (length-append p rest) in
    let inside : length pre + length p ≤ length (pre ++ (p ++ rest)) = omega (arith, whole) in
    rw (
      le→leb (length pre + length p) (length (pre ++ (p ++ rest))) inside,
      drop-append pre (p ++ rest),
      take-append p rest,
    )

doted-eq : (key : Bytes) → doted key (length key) ≡ ok (key ++ b':' ∷ [])
unfolding doted
doted-eq key = rw (
  doted,
  le→leb (0 + length key) (length key) (omega arith),
  take-ge (length key) key (omega arith),
)

-- The value starts behind the colon, and ends with the first CRLF.
module _ (pre key value rest : Bytes) (small : length (with_field pre key value rest) < size_mod)
    (ends : (r : ℕ) → r < length value → ¬ Occurs crlf 2 (value ++ (crlf ++ rest)) r) where
  name_size : length (key ++ b':' ∷ []) ≡ length key + 1
  name_size = length-append key (b':' ∷ [])

  header_size :
      length (with_field pre key value rest)
      ≡ length pre + (length key + 1 + (length value + suc (suc (length rest))))
  header_size =
      length-append pre ((key ++ b':' ∷ []) ++ (value ++ (crlf ++ rest)))
      ∙ ap (λ n. length pre + n)
          (length-append (key ++ b':' ∷ []) (value ++ (crlf ++ rest))
            ∙ ap₂ ◌+◌ name_size (length-append value (crlf ++ rest)))

  behind_name :
      drop (length pre + length key + 1) (with_field pre key value rest) ≡ value ++ (crlf ++ rest)
  behind_name =
      let split : length pre + length key + 1 ≡ length pre + length (key ++ b':' ∷ []) =
        omega (arith, name_size) in
      let tail = value ++ (crlf ++ rest) in
      ap (λ n. drop n (with_field pre key value rest)) split
      ∙ sym (drop-drop (length (key ++ b':' ∷ [])) (length pre) (with_field pre key value rest))
      ∙ ap (drop (length (key ++ b':' ∷ []))) (drop-append pre ((key ++ b':' ∷ []) ++ tail))
      ∙ drop-append (key ++ b':' ∷ []) tail

  value_size-eq :
      value_size
        (with_field pre key value rest)
        (length (with_field pre key value rest))
        (length pre + length key + 1)
      ≡ ok (some (length value))
  value_size-eq = rw behind_name (
      find_pattern-at crlf (value ++ (crlf ++ rest)) 2 _ (length value) (omega arith) (omega arith)
        (omega (arith, header_size, length-append value (crlf ++ rest)))
        (omega (arith, header_size)) (omega (arith, header_size)) (Occurs-middle value crlf rest)
        ends)

  slice_value :
      slice (with_field pre key value rest) (length pre + length key + 1) (length value) ≡ ok value
  slice_value =
      let inside : length pre + length key + 1 + length value
          ≤ length (with_field pre key value rest) =
        omega (arith, header_size) in
      rw (le→leb _ _ inside, behind_name, take-append value (crlf ++ rest))

  -- The field is found and copied: the result is the length of the value, which stands at the
  -- front of the buffer, whose other bytes stay. For a key that is not empty and occurs, followed
  -- by a colon, nowhere earlier, a value that is ended by the first CRLF behind it, a header of
  -- less than 2 ^ 64 bytes, and a value that fits in the buffer and in an `int`.
  pub get_header_field-value :
      (buf : Bytes) (buf_size : ℕ)
      → 0 < length key
      → 0 < buf_size
      → buf_size ≤ length buf
      → length value ≤ buf_size
      → length value ≤ int_max
      → ((r : ℕ)
          → r < length pre
          → ¬ Occurs (key ++ b':' ∷ []) (length key + 1) (with_field pre key value rest) r)
      → get_header_field
          (some (with_field pre key value rest))
          (length (with_field pre key value rest))
          (some key)
          (length key)
          (some buf)
          buf_size
        ≡ ok (pos (length value), some (value ++ drop (length value) buf))
  unfolding get_header_field field_after copy_value
  get_header_field-value buf buf_size named room in_buf fits fits_int first =
      let header = with_field pre key value rest in
      let nonempty : (length header == 0 || buf_size == 0 || length key == 0) ≡ false = rw (
        ne→== (length header) 0 (λ e. omega (arith, e, header_size)),
        ne→== buf_size 0 (λ e. omega (arith, e)),
        ne→== (length key) 0 (λ e. omega (arith, e)),
      ) in
      let found =
        find_pattern-at (key ++ b':' ∷ []) header (length key + 1) (length header) (length pre)
          (omega arith) (omega (arith, name_size)) (omega arith) small (omega (arith, header_size))
          (λ i lt.
            Occurs-middle pre (key ++ b':' ∷ []) (value ++ (crlf ++ rest)) i
              (omega (arith, name_size)))
          first in
      rw (nonempty, doted-eq key)
        (rw found (
          rw value_size-eq (
            rw (ge→ltb int_max (length value) fits_int, ge→ltb buf_size (length value) fits)
              (rw slice_value (rw (le→leb (length value) (length buf) (omega arith)))))))

-- A key that is nowhere in the header, followed by a colon: the result is 0, as it is for a field
-- with no value, and the buffer stays as it was. For a header longer than the key.
pub get_header_field-absent :
    (header key buf : Bytes) (buf_size : ℕ)
    → 0 < length key
    → 0 < buf_size
    → length key < length header
    → length header < size_mod
    → ((r : ℕ)
        → r + (length key + 1) ≤ length header
        → ¬ Occurs (key ++ b':' ∷ []) (length key + 1) header r)
    → get_header_field (some header) (length header) (some key) (length key) (some buf) buf_size
      ≡ ok (pos 0, some buf)
unfolding get_header_field field_after
get_header_field-absent header key buf buf_size named room longer small nowhere =
    let nonempty : (length header == 0 || buf_size == 0 || length key == 0) ≡ false = rw (
      ne→== (length header) 0 (λ e. omega (arith, e)),
      ne→== buf_size 0 (λ e. omega (arith, e)),
      ne→== (length key) 0 (λ e. omega (arith, e)),
    ) in
    let size = length-append key (b':' ∷ []) in
    let missing =
      find_pattern-absent (key ++ b':' ∷ []) header (length key + 1) (length header) (omega arith)
        (omega (arith, size)) (omega arith) (omega arith) small nowhere in
    rw (nonempty, doted-eq key) (rw missing refl)
