-- ===== src/Str/CStr.antt =====
-- NUL-terminated text: what `strlen`-like loops and copies do on it.
use cmon.Base.{
  ℕ, ◌+◌, ◌≤◌, ◌<◌, ◌≡◌, refl, ap, ◌∙◌, ◌≢◌, List, [], ◌∷◌, ◌++◌, length, drop, set, All, arith,
  append-nil, append_assoc, length-append, length-drop, drop-drop, ok, lt→ltb, ge→ltb, ne→==, fault,
  some, Bool, true, not, ◌&&◌, ◌==◌, ==_iff,
}
use cmon.Text.{Bytes}
use cmon.Str.{CmonString, put, char_arr_len, gather, copy_arg, copy_args}

-- The object `b` holds the text `s`: its bytes, none of them NUL, then a NUL byte, then anything.
pub data CStr : Bytes → Bytes → Type 0 where
  nul : {rest : Bytes} → CStr (0 ∷ rest) []
  chr : {c : ℕ} {b s : Bytes} → c ≢ 0 → CStr b s → CStr (c ∷ b) (c ∷ s)

-- The same of a row of objects.
pub data CStrs : List Bytes → List Bytes → Type 0 where
  nil : CStrs [] []
  cons : {b s : Bytes} {bs ss : List Bytes} → CStr b s → CStrs bs ss → CStrs (b ∷ bs) (s ∷ ss)

-- A string whose `size` is the length of its text.
pub record Holds (str : CmonString) (s : Bytes) : Type 0 where
  pub sized : str.size ≡ length s
  pub text : CStr str.string s

abbrev pub concat : List Bytes → Bytes
concat [] = []
concat (s ∷ ss) = s ++ concat ss

set_mid : (w : Bytes) (x c : ℕ) (t : Bytes) → set (w ++ x ∷ t) (length w) c ≡ w ++ c ∷ t
set_mid [] x c t = refl
set_mid (y ∷ w) x c t = ap (◌∷◌ y) (set_mid w x c t)

pub put_mid :
    (w : Bytes) (x c : ℕ) (t : Bytes) → put (w ++ x ∷ t) (length w) c ≡ ok ((w ++ c ∷ []) ++ t)
put_mid w x c t = rw (
  lt→ltb (length w) (length (w ++ x ∷ t)) (omega (arith, length-append w (x ∷ t))),
  set_mid w x c t,
  append_assoc w (c ∷ []) t,
)

pub char_arr_len-CStr :
    {b s : Bytes} (len : ℕ)
    → CStr b s
    → len + length s ≤ 257
    → char_arr_len b len ≡ ok (len + length s)
unfolding char_arr_len
char_arr_len-CStr len nul h = ap ok (omega arith)
char_arr_len-CStr len (chr {s} ne t) h = ground (arith, char_arr_len-CStr (len + 1) t)

-- A text of more than 257 bytes counts as empty.
pub char_arr_len_long :
    {b s : Bytes} (len : ℕ)
    → CStr b s
    → 257 < len + length s
    → len ≤ 257
    → char_arr_len b len ≡ ok 0
unfolding char_arr_len
char_arr_len_long len nul h k = absurd (omega arith)
char_arr_len_long len (chr {s} ne t) h k = ground (arith, char_arr_len_long (len + 1) t)

pub copy_arg-CStr :
    {b s : Bytes} (w tl : Bytes)
    → CStr b s
    → length s ≤ length tl
    → copy_arg b (w ++ tl) (length w) ≡ ok ((w ++ s) ++ drop (length s) tl, length (w ++ s))
unfolding copy_arg
copy_arg-CStr w tl nul h = rw append-nil
copy_arg-CStr w [] (chr ne t) h = absurd (omega arith)
copy_arg-CStr w (x ∷ tl) (chr {c} {s} ne t) h =
    let at_end : length (w ++ c ∷ []) ≡ length w + 1 = omega (arith, length-append w (c ∷ [])) in
    let next = copy_arg-CStr (w ++ c ∷ []) tl t (omega arith) in
    rw (ne→== c 0 ne, put_mid w x c tl, ← at_end) (next ∙ rw (append_assoc w (c ∷ []) s))

pub copy_args-CStrs :
    {bs ss : List Bytes} (w tl : Bytes)
    → CStrs bs ss
    → length (concat ss) ≤ length tl
    → copy_args bs (w ++ tl) (length w)
      ≡ ok ((w ++ concat ss) ++ drop (length (concat ss)) tl, length (w ++ concat ss))
unfolding copy_args
copy_args-CStrs w tl nil h = rw append-nil
copy_args-CStrs w tl (cons {s} {ss} t ts) h =
    let fits = length-append s (concat ss) in
    rw (copy_arg-CStr w tl t (omega arith)) (
      copy_args-CStrs (w ++ s) (drop (length s) tl) ts (omega (arith, length-drop (length s) tl))
      ∙ rw (append_assoc w s (concat ss), drop-drop, length-append s (concat ss)))

-- The `va_arg` loop on at most 50 texts of at most 257 bytes each.
pub gather-CStrs :
    {bs ss : List Bytes} (n size : ℕ)
    → CStrs bs ss
    → All (λ s. length s ≤ 257) ss
    → n + length ss ≤ 50
    → gather bs n size ≡ ok (some (size + length (concat ss)))
unfolding gather
gather-CStrs n size nil small few = ap (λ k. ok (some k)) (omega arith)
gather-CStrs n size (cons {s} {ss} t ts) small few = ground (
  arith,
  char_arr_len-CStr 0 t,
  gather-CStrs (n + 1) (size + length s) ts,
  length-append s (concat ss),
)

-- A copy of a text into a block that is too short writes past the block's end.
pub copy_arg-fault :
    {b s : Bytes} (w tl : Bytes)
    → CStr b s
    → length tl < length s
    → copy_arg b (w ++ tl) (length w) ≡ fault
unfolding copy_arg
copy_arg-fault w tl nul h = absurd (omega arith)
copy_arg-fault w [] (chr {c} ne t) h =
    rw (ne→== c 0 ne, append-nil, ge→ltb (length w) (length w) (omega arith))
copy_arg-fault w (x ∷ tl) (chr {c} ne t) h =
    let at_end : length (w ++ c ∷ []) ≡ length w + 1 = omega (arith, length-append w (c ∷ [])) in
    rw (ne→== c 0 ne, put_mid w x c tl, ← at_end) (copy_arg-fault (w ++ c ∷ []) tl t (omega arith))

pub CStr-terminated : {b s : Bytes} → CStr b s → CStr (s ++ 0 ∷ []) s
CStr-terminated nul = nul
CStr-terminated (chr ne t) = chr ne (CStr-terminated t)

pub CStr-append : {b s c t : Bytes} → CStr b s → CStr c t → CStr ((s ++ t) ++ 0 ∷ []) (s ++ t)
CStr-append nul u = CStr-terminated u
CStr-append (chr ne a) u = chr ne (CStr-append a u)

-- No byte of the text is NUL.
unfoldable pub no_nul : Bytes → Bool
no_nul [] = true
no_nul (b ∷ s) = not (b == 0) && no_nul s

pub no_nul-CStr : (s : Bytes) → no_nul s ≡ true → CStr (s ++ 0 ∷ []) s
unfolding no_nul
no_nul-CStr [] h = nul
no_nul-CStr (b ∷ s) h = chr (λ e. ground (arith, ==_iff b 0)) (no_nul-CStr s (ground arith))
