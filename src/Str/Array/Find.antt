-- ===== src/Str/Array/Find.antt =====
-- `cmon_str_arr_find`.
use cmon.Base.{
  ℕ, zero, suc, ◌+◌, ◌≤◌, ◌<◌, ◌≡◌, ◌≢◌, refl, sym, ap, ◌∙◌, inl, inr, Bool, true, false, Option,
  none, some, List, [], ◌∷◌, length, get_elem?, arith, ok, ◌==◌, ==_iff, Bool-cases, some_inj,
  index-lt,
}
use cmon.Text.{Bytes}
use cmon.Str.CStr.{Holds}
use cmon.Str.Compare.{str_cmp_iff}
use cmon.Str.{CmonString, str_cmp}
use cmon.Str.Array.{CmonStringArray, find_from, str_arr_find}
use cmon.Str.Array.Items.{Represents, str_arr_get_str-get_elem?}

-- The strings hold the texts, one by one.
pub data Texts : List CmonString → List Bytes → Type 0 where
  nil : Texts [] []
  cons :
      {x : CmonString} {s : Bytes} {xs : List CmonString} {ss : List Bytes}
      → Holds x s
      → Texts xs ss
      → Texts (x ∷ xs) (s ∷ ss)

pub length-Texts : {xs : List CmonString} {ss : List Bytes} → Texts xs ss → length xs ≡ length ss
length-Texts nil = refl
length-Texts (cons h t) = ap suc (length-Texts t)

Texts-get_elem? :
    {xs : List CmonString} {ss : List Bytes}
    → Texts xs ss
    → (i : ℕ) → i < length xs
    → (x : CmonString) × (t : Bytes) × (get_elem? xs i ≡ some x)
      × (get_elem? ss i ≡ some t)
      × Holds x t
Texts-get_elem? nil i h = absurd (omega arith)
Texts-get_elem? (cons {x} {s} here rest) zero h = (x, s, refl, refl, here)
Texts-get_elem? (cons here rest) (suc i) h = Texts-get_elem? rest i (omega arith)

-- The first string from index `lo` on that holds `s`, or none where none does.
abbrev pub FoundFrom : List Bytes → Bytes → ℕ → Option CmonString → Type 0
FoundFrom ss s lo none = (i : ℕ) → lo ≤ i → get_elem? ss i ≢ some s
FoundFrom ss s lo (some c) =
    Holds c s
    × ((i : ℕ) × (lo ≤ i)
        × (get_elem? ss i ≡ some s)
        × ((j : ℕ) → lo ≤ j → j < i → get_elem? ss j ≢ some s))

-- A miss at `i` extends what is known from `i + 1` on.
miss-extends :
    (ss : List Bytes) (s t : Bytes) (i j : ℕ)
    → get_elem? ss i ≡ some t
    → s ≢ t
    → (i + 1 ≤ j → get_elem? ss j ≢ some s)
    → i ≤ j
    → get_elem? ss j ≢ some s
miss-extends ss s t i j et ne later lo e = elim (Bool-cases (i == j)) [
  | inl here ↦ ne (some_inj (sym e ∙ ap (get_elem? ss) (sym ((==_iff i j).0 here)) ∙ et))
  | inr there ↦ later (ground arith) e
]

module _ {a : CmonStringArray} {xs : List CmonString} {ss : List Bytes} {str : CmonString}
    {s : Bytes} (r : Represents a xs) (held : Texts xs ss) (h : Holds str s) where
  round-FoundFrom :
      (k i : ℕ) (x : CmonString) (t : Bytes) (b : Bool)
      → get_elem? xs i ≡ some x
      → get_elem? ss i ≡ some t
      → Holds x t
      → str_cmp (some str) (some x) ≡ ok b
      → ((b ≡ true → s ≡ t) × (s ≡ t → b ≡ true))
      → (o : Option CmonString) × (find_from a (some str) k (i + 1) ≡ ok o)
        × FoundFrom ss s (i + 1) o
      → (o : Option CmonString) × (find_from a (some str) (suc k) i ≡ ok o) × FoundFrom ss s i o
  unfolding find_from
  round-FoundFrom k i x t true ex et hx cmp agree rest =
      let same = agree.0 refl in
      (
        some x,
        rw (str_arr_get_str-get_elem? i r, ex, cmp),
        (rw same hx, (i, omega arith, et ∙ ap some (sym same), λ j lo hi. absurd (omega arith))),
      )
  round-FoundFrom k i x t false ex et hx cmp agree (none, eo, absent) = (
    none,
    rw (str_arr_get_str-get_elem? i r, ex, cmp) eo,
    λ j lo. miss-extends ss s t i j et (λ e. cc (agree.1 e)) (λ m. absent j m) lo,
  )
  round-FoundFrom k i x t false ex et hx cmp agree (some c, eo, (hc, (n, lo, en, first))) = (
    some c,
    rw (str_arr_get_str-get_elem? i r, ex, cmp) eo,
    (
      hc,
      (
        n,
        omega arith,
        en,
        λ j lo' hi. miss-extends ss s t i j et (λ e. cc (agree.1 e)) (λ m. first j m hi) lo',
      ),
    ),
  )

  find_from-FoundFrom :
      (k i : ℕ)
      → i + k ≡ length xs
      → (o : Option CmonString) × (find_from a (some str) k i ≡ ok o) × FoundFrom ss s i o
  unfolding find_from
  find_from-FoundFrom zero i e =
      (none, refl, λ j lo g. absurd (omega (arith, length-Texts held, index-lt ss j g)))
  find_from-FoundFrom (suc k) i e =
      let (x, t, ex, et, hx) = Texts-get_elem? held i (omega arith) in
      let (b, eb, agree) = str_cmp_iff h hx in
      round-FoundFrom k i x t b ex et hx eb agree (find_from-FoundFrom k (i + 1) (omega arith))

  -- `cmon_str_arr_find` returns the first string of the array that holds the text of `str`, and
  -- NULL exactly where none of them holds it; every string of the array holds a text.
  pub str_arr_find-FoundFrom :
      (o : Option CmonString) × (str_arr_find a (some str) ≡ ok o) × FoundFrom ss s 0 o
  unfolding str_arr_find
  str_arr_find-FoundFrom = find_from-FoundFrom a.len 0 (omega (arith, r.counted))
