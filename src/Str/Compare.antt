-- ===== src/Str/Compare.antt =====
-- `cmon_str_cmp` and `cmon_str_copy_to_char_arr` on strings that hold a text.
use cmon.Base.{
  ℕ, zero, suc, ◌+◌, ◌≤◌, ◌<◌, ◌≡◌, refl, sym, ap, ◌∙◌, ◌↔◌, inl, inr, [], ◌∷◌, ◌++◌, length, drop,
  arith, length-drop, drop-drop, append_assoc, if◌then◌else◌, some, ok, Bool, true, false,
  get_elem?, get_elem?-lt, get_elem?-ge, ltb, ext, Bool-cases, ◌==◌, ==_iff, ge→ltb, lt→ltb,
}
use cmon.Text.{Bytes}
use cmon.Str.CStr.{CStr, nul, chr, Holds, put_mid, copy_arg-CStr}
use cmon.Str.{CmonString, put, cmp_from, str_cmp, copy_to_char_arr}

pub CStr-get_elem? :
    {b s : Bytes} → CStr b s → (i : ℕ) → i < length s → get_elem? b i ≡ get_elem? s i
CStr-get_elem? nul i h = absurd (omega arith)
CStr-get_elem? (chr ne t) zero h = refl
CStr-get_elem? (chr ne t) (suc i) h = CStr-get_elem? t i (omega arith)

-- Agreement at every position from `i` on, below `n`.
abbrev AgreeFrom : Bytes → Bytes → ℕ → ℕ → Type 0
AgreeFrom s t i n = (j : ℕ) → i ≤ j → j < n → get_elem? s j ≡ get_elem? t j

cmp_from-AgreeFrom :
    {a b s t : Bytes} (k i : ℕ)
    → CStr a s
    → CStr b t
    → i + k ≡ length s
    → length s ≡ length t
    → (r : Bool) × (cmp_from a b k i ≡ ok r) × ((r ≡ true) ↔ AgreeFrom s t i (length s))
unfolding cmp_from
cmp_from-AgreeFrom zero i ca cb e same =
    (true, refl, (λ _ j lo hi. absurd (omega arith), λ _. refl))
cmp_from-AgreeFrom {a} {b} {s} {t} (suc k) i ca cb e same =
    let (x, ex) = get_elem?-lt s i (omega arith) in
    let (y, ey) = get_elem?-lt t i (omega arith) in
    let at_a = CStr-get_elem? ca i (omega arith) ∙ ex in
    let at_b = CStr-get_elem? cb i (omega arith) ∙ ey in
    elim (Bool-cases (x == y)) [
      | inl hit ↦
          let (r, er, decided) = cmp_from-AgreeFrom k (i + 1) ca cb (omega arith) same in
          (
            r,
            rw (at_a, at_b, hit) er,
            (
              λ t j lo hi. elim (Bool-cases (i == j)) [
                | inl here ↦ rw (← (==_iff i j).0 here) (ex ∙ ap some ((==_iff x y).0 hit) ∙ sym ey)
                | inr there ↦ decided.0 t j (ground arith) hi
              ],
              λ agree. decided.1 (λ j lo hi. agree j (omega arith) hi),
            ),
          )
      | inr miss ↦ (
        false,
        rw (at_a, at_b, miss),
        (λ f. cc, λ agree. ground (arith, agree i (omega arith) (omega arith))),
      )
    ]

agree_all :
    (s t : Bytes)
    → length s ≡ length t
    → AgreeFrom s t 0 (length s)
    → (j : ℕ) → get_elem? s j ≡ get_elem? t j
agree_all s t e agree j = elim (Bool-cases (ltb j (length s))) [
  | inl inside ↦ agree j (omega arith) (ground arith)
  | inr out ↦ get_elem?-ge s j (ground arith) ∙ sym (get_elem?-ge t j (ground arith))
]

-- `cmon_str_cmp` answers `true` exactly when the two strings hold the same text.
pub str_cmp_iff :
    {a b : CmonString} {s t : Bytes}
    → Holds a s
    → Holds b t
    → (r : Bool) × (str_cmp (some a) (some b) ≡ ok r) × ((r ≡ true) ↔ (s ≡ t))
unfolding str_cmp
str_cmp_iff {a} {b} {s} {t} ha hb = elim (Bool-cases (length s == length t)) [
  | inl same ↦
      let eq = (==_iff (length s) (length t)).0 same in
      let (r, er, decided) =
        cmp_from-AgreeFrom a.size 0 ha.text hb.text (omega (arith, ha.sized)) eq in
      (
        r,
        rw (ha.sized, hb.sized, same) (rw (ha.sized) at er),
        (λ e. ext s t (λ j. agree_all s t eq (decided.0 e) j), λ e. decided.1 (λ j lo hi. rw e)),
      )
  | inr differ ↦
      (false, rw (ha.sized, hb.sized, differ), (λ f. cc, λ e. ground (arith, ap length e)))
]

put-drop :
    (w block : Bytes)
    → length w < length block
    → put (w ++ drop (length w) block) (length w) 0 ≡ ok (w ++ 0 ∷ drop (length w + 1) block)
put-drop w block h =
    go (drop (length w) block) (drop-drop 1 (length w) block)
      (omega (arith, length-drop (length w) block))
  where
    go :
        (tl : Bytes)
        → drop 1 tl ≡ drop (length w + 1) block
        → 0 < length tl
        → put (w ++ tl) (length w) 0 ≡ ok (w ++ 0 ∷ drop (length w + 1) block)
    go [] e pos = absurd (omega arith)
    go (x ∷ t) e pos = put_mid w x 0 t ∙ rw (append_assoc w (0 ∷ []) t, e)

-- `cmon_str_copy_to_char_arr` into a buffer of `buff_size` bytes: it fails and leaves the buffer
-- alone where the text and its NUL do not fit, else it writes just those over the buffer's start.
pub copy_to_char_arr_lem :
    {str : CmonString} {s : Bytes} (buff : Bytes)
    → Holds str s
    → copy_to_char_arr (some str) (some buff) (length buff)
      ≡ ok (
          if ltb (length s) (length buff)
          then (true, some (s ++ 0 ∷ drop (length s + 1) buff))
          else (false, some buff))
unfolding copy_to_char_arr
copy_to_char_arr_lem {str} {s} buff h = elim (Bool-cases (ltb (length s) (length buff))) [
  | inl fits ↦ rw (
    h.sized,
    ge→ltb (length buff) (length s + 1) (ground arith),
    fits,
    copy_arg-CStr [] buff h.text (ground arith),
    put-drop s buff (ground arith),
  )
  | inr full ↦ rw (h.sized, lt→ltb (length buff) (length s + 1) (ground arith), full)
]
