-- ===== src/Str/Array/Items.antt =====
-- The array stands for a list of at most 50 strings.
use cmon.Base.{
  ℕ, ◌+◌, ◌≤◌, ◌<◌, ◌≡◌, refl, ◌∙◌, inl, inr, Option, none, some, List, [], ◌∷◌, ◌++◌, length,
  get_elem?, get_elem?-set, get_elem?-append, get_elem?-ge, get_elem?-lt, length-set, length-append,
  arith, ok, ltb, index-lt, set, ◌≢◌, leb, Bool-cases, ne→==,
}
use cmon.Text.{Bytes}
use cmon.Str.Alloc.{Allocator}
use cmon.Str.CStr.{CStr, nul, chr}
use cmon.Str.Concat.{Allocates, of_text, str_new-of_text}
use cmon.Str.{CmonString}
use cmon.Str.Array.{
  CmonStringArray, str_arr_new, str_arr_get_str, store_last, add_checked, add_new,
  str_arr_add_from_str, str_arr_add_new_char_arr,
}

-- The count is that of the list, and the first slots hold its strings in order.
pub record Represents (a : CmonStringArray) (xs : List CmonString) : Type 0 where
  pub counted : a.len ≡ length xs
  pub slots : length a.arr ≡ 50
  pub held : (i : ℕ) (x : CmonString) → get_elem? xs i ≡ some x → get_elem? a.arr i ≡ some (some x)

pub str_arr_new-Represents :
    (slots : List (Option CmonString))
    → length slots ≡ 50
    → (a : CmonStringArray) × (str_arr_new (some slots) ≡ some a) × Represents a []
unfolding str_arr_new
str_arr_new-Represents slots e = (
  record { len = 0; arr = slots },
  refl,
  record { counted = refl; slots = e; held = λ i x h. cc },
)

-- `cmon_str_arr_get_str` returns the item at the index, or NULL where there is none.
pub str_arr_get_str-get_elem? :
    {a : CmonStringArray} {xs : List CmonString} (i : ℕ)
    → Represents a xs
    → str_arr_get_str (some a) i ≡ ok (get_elem? xs i)
unfolding str_arr_get_str
str_arr_get_str-get_elem? {a} {xs} i r = elim (Bool-cases (leb a.len i)) [
  | inl out ↦ rw (out, get_elem?-ge xs i (ground (arith, r.counted)))
  | inr inside ↦
      let (x, ex) = get_elem?-lt xs i (ground (arith, r.counted)) in rw (inside, r.held i x ex, ex)
]

held_after :
    {a : CmonStringArray} {xs : List CmonString} (str : CmonString)
    → Represents a xs
    → length xs < 50
    → (i : ℕ) (x : CmonString) → get_elem? (xs ++ str ∷ []) i ≡ some x
    → get_elem? (set a.arr a.len (some str)) i ≡ some (some x)
held_after {a} {xs} str r few i x h =
    let below = index-lt (xs ++ str ∷ []) i h in
    let total = length-append xs (str ∷ []) in
    let split = get_elem?-append xs (str ∷ []) i in
    elim (Bool-cases (ltb i (length xs))) [
      | inl old ↦
          let kept = r.held i x (ground arith) in
          rw (get_elem?-set a.arr a.len i (some str)) (ground (arith, r.counted, r.slots))
      | inr new ↦
          let last : i ≡ length xs = ground arith in
          let value : some str ≡ some x = ground arith in
          rw (get_elem?-set a.arr a.len i (some str)) (ground (arith, r.counted, r.slots))
    ]

-- A store below the limit appends to the list.
add_checked-append :
    {a : CmonStringArray} {xs : List CmonString} (str : CmonString)
    → Represents a xs
    → length xs < 50
    → (b : CmonStringArray) × (add_checked a str ≡ ok (some str, b)) × Represents b (xs ++ str ∷ [])
unfolding add_checked store_last
add_checked-append {a} {xs} str r few = (
  record { len = a.len + 1; arr = _ },
  ground (arith, r.counted, r.slots),
  record {
    counted = omega (arith, r.counted, length-append xs (str ∷ []));
    slots = length-set a.arr a.len (some str) ∙ r.slots;
    held = λ i x h. held_after str r few i x h;
  },
)

add_checked-full :
    {a : CmonStringArray} {xs : List CmonString} (str : CmonString)
    → Represents a xs
    → 50 ≤ length xs
    → add_checked a str ≡ ok (none, a)
unfolding add_checked
add_checked-full str r full = ground (arith, r.counted)

-- `cmon_str_arr_add_from_str` appends the string and returns it, below 50 items.
pub str_arr_add_from_str-append :
    {a : CmonStringArray} {xs : List CmonString} (str : CmonString)
    → Represents a xs
    → length xs < 50
    → (b : CmonStringArray) × (str_arr_add_from_str a (some str) ≡ ok (some str, b))
      × Represents b (xs ++ str ∷ [])
unfolding str_arr_add_from_str
str_arr_add_from_str-append str r few = add_checked-append str r few

-- With 50 items it returns NULL and changes nothing.
pub str_arr_add_from_str-full :
    {a : CmonStringArray} {xs : List CmonString} (str : CmonString)
    → Represents a xs
    → 50 ≤ length xs
    → str_arr_add_from_str a (some str) ≡ ok (none, a)
unfolding str_arr_add_from_str
str_arr_add_from_str-full str r full = add_checked-full str r full

first_byte : {b s : Bytes} → CStr b s → s ≢ [] → (c : ℕ) × (get_elem? b 0 ≡ some c) × (c ≢ 0)
first_byte nul ne = absurd (ne refl)
first_byte (chr {c} h t) ne = (c, refl, h)

-- `cmon_str_arr_add_new_char_arr` of a text of 1 to 257 bytes appends the string that holds it,
-- below 50 items and where `malloc` does not fail.
pub str_arr_add_new_char_arr-append :
    (m : Allocator) {a : CmonStringArray} {xs : List CmonString} {b s : Bytes}
    → Represents a xs
    → length xs < 50
    → CStr b s
    → s ≢ []
    → length s ≤ 257
    → Allocates m (length s)
    → (a' : CmonStringArray) × (str_arr_add_new_char_arr m a (some b) ≡ ok (some (of_text s), a'))
      × Represents a' (xs ++ of_text s ∷ [])
unfolding str_arr_add_new_char_arr add_new
str_arr_add_new_char_arr-append m {s} r few t ne small given =
    let (c, first, set_byte) = first_byte t ne in
    rw (first, ne→== c 0 set_byte, str_new-of_text m t small given)
      (add_checked-append (of_text s) r few)
