-- ===== src/Str/Concat.antt =====
-- `cmon_str_new_from_char_arrs` and what is made from it.
use cmon.Base.{
  ℕ, ◌+◌, ◌≤◌, ◌<◌, ◌≡◌, refl, ap, ◌∙◌, List, [], ◌∷◌, ◌++◌, All, length, drop, arith, append-nil,
  length-append, length-drop, none, some, Option, ok, fault,
}
use cmon.Text.{Bytes}
use cmon.Str.Alloc.{Allocator}
use cmon.Str.CStr.{
  CStr, CStrs, nil, cons, Holds, concat, put_mid, char_arr_len-CStr, char_arr_len_long,
  gather-CStrs, copy_args-CStrs, copy_arg-fault, CStr-terminated,
}
use cmon.Str.{
  CmonString, string_struct_size, put, build, alloc_string, str_new_from_char_arrs, str_new,
  str_copy, str_new_from_str, copy_args, char_arr_len, gather,
}

-- the string that holds a text
abbrev pub of_text : Bytes → CmonString
of_text s = record { size = length s; string = s ++ 0 ∷ [] }

-- The last byte of a block that is one longer than the text takes the NUL.
put_end :
    (w block : Bytes)
    → length block ≡ length w + 1
    → put (w ++ drop (length w) block) (length w) 0 ≡ ok (w ++ 0 ∷ [])
put_end w block h = go (drop (length w) block) (omega (arith, length-drop (length w) block))
  where
    go : (tl : Bytes) → length tl ≡ 1 → put (w ++ tl) (length w) 0 ≡ ok (w ++ 0 ∷ [])
    go [] e = absurd (omega arith)
    go (x ∷ []) e = put_mid w x 0 [] ∙ rw append-nil
    go (x ∷ y ∷ t) e = absurd (omega arith)

build-concat :
    {bs ss : List Bytes} (block : Bytes)
    → CStrs bs ss
    → length block ≡ length (concat ss) + 1
    → build bs (length (concat ss)) block ≡ ok (some (of_text (concat ss)))
unfolding build
build-concat {ss} block ts h =
    rw (copy_args-CStrs [] block ts (omega arith), put_end (concat ss) block h)

build_fault :
    {b s : Bytes} (block : Bytes)
    → CStr b s
    → length block < length s
    → build (b ∷ []) 0 block ≡ fault
unfolding build copy_args
build_fault block t h = rw (copy_arg-fault [] block t h)

-- The two allocations of a string of `size` bytes succeed.
pub record Allocates (m : Allocator) (size : ℕ) : Type 0 where
  pub header : Bytes
  pub block : Bytes
  pub header_given : m.alloc string_struct_size ≡ some header
  pub block_given : m.alloc (size + 1) ≡ some block

alloc_string-some :
    (m : Allocator) {size : ℕ} (a : Allocates m size) → alloc_string m size ≡ some a.block
unfolding alloc_string
alloc_string-some m a = rw (a.header_given, alloc_string) a.block_given

-- `cmon_str_new_from_char_arrs` gives the string that holds the concatenation of its arguments, in
-- order, where these are at most 50 texts of at most 257 bytes each and `malloc` does not fail.
pub str_new_from_char_arrs-concat :
    (m : Allocator) {b s : Bytes} {bs ss : List Bytes}
    → CStr b s
    → CStrs bs ss
    → All (λ t. length t ≤ 257) (s ∷ ss)
    → length (s ∷ ss) ≤ 50
    → Allocates m (length (concat (s ∷ ss)))
    → str_new_from_char_arrs m (some b) bs ≡ ok (some (of_text (concat (s ∷ ss))))
unfolding str_new_from_char_arrs
str_new_from_char_arrs-concat m {b} {s} {bs} {ss} t ts small few a =
    let all : Bytes = concat (s ∷ ss) in
    let counted : char_arr_len b 0 ≡ ok (length s) =
      char_arr_len-CStr 0 t (omega arith) ∙ ap ok (omega arith) in
    let gathered : gather bs 1 (length s) ≡ ok (some (length all)) =
      gather-CStrs 1 (length s) ts small.1 (omega arith)
      ∙ ap (λ k. ok (some k)) (omega (arith, length-append s (concat ss))) in
    rw (counted, gathered, alloc_string-some m a)
      (build-concat a.block (cons t ts) (m.alloc_size (length all + 1) a.block a.block_given))

-- A text of more than 257 bytes counts as empty, and its copy overruns the one byte allocated.
pub str_new-fault :
    (m : Allocator) {b s : Bytes}
    → CStr b s
    → 257 < length s
    → Allocates m 0
    → str_new m (some b) ≡ fault
unfolding str_new str_new_from_char_arrs gather
str_new-fault m {b} {s} t long a =
    let counted : char_arr_len b 0 ≡ ok 0 = char_arr_len_long 0 t (omega arith) (omega arith) in
    let sized : length a.block ≡ 1 = m.alloc_size 1 a.block a.block_given in
    rw (counted, alloc_string-some m a, build_fault a.block t (omega arith))

-- `cmon_str_new` of a text of at most 257 bytes.
pub str_new-of_text :
    (m : Allocator) {b s : Bytes}
    → CStr b s
    → length s ≤ 257
    → Allocates m (length s)
    → str_new m (some b) ≡ ok (some (of_text s))
unfolding str_new
str_new-of_text m t small a =
    let made = str_new_from_char_arrs-concat m t nil (small, tt) (omega arith) (rw append-nil a) in
    rw append-nil at made

pub of_text-Holds : {b s : Bytes} → CStr b s → Holds (of_text s) s
of_text-Holds t = record { sized = refl; text = CStr-terminated t }

-- `cmon_str_copy` of a string that holds a text of at most 257 bytes is a string that holds it too.
pub str_copy-Holds :
    (m : Allocator) {str : CmonString} {s : Bytes}
    → Holds str s
    → length s ≤ 257
    → Allocates m (length s)
    → (c : CmonString) × (str_copy m (some str) ≡ ok (some c)) × Holds c s
unfolding str_copy
str_copy-Holds m {s} h small a = (of_text s, str_new-of_text m h.text small a, of_text-Holds h.text)

-- `cmon_str_new_from_str` never returns a string: it fails, or it writes through a pointer that
-- nothing has set.
pub str_new_from_str-none :
    (m : Allocator) (str : Option CmonString) (args : List CmonString) {r : Option CmonString}
    → str_new_from_str m str args ≡ ok r
    → r ≡ none
unfolding str_new_from_str
str_new_from_str-none m str args h = ground arith
