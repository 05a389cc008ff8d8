-- ===== src/Str/Tests.antt =====
-- Runs of the strings and the arrays of strings.
use cmon.Base.{
  ℕ, zero, suc, ◌≡◌, refl, some, none, Option, [], ◌∷◌, ◌++◌, replicate, get_elem?, arith, ok, ap,
}
use cmon.Str.Sample.{
  ample, ample-Allocates, ab, ab_nul, c, c_nul, ab-CStr, c-CStr, ab-Holds, c-Holds, two_slots,
  two_slots-Represents,
}
use cmon.Str.{CmonString, str_new_from_char_arrs, str_new_from_str}
use cmon.Str.CStr.{CStr, nul, chr, CStrs}
use cmon.Str.Concat.{of_text, str_new_from_char_arrs-concat}
use cmon.Str.Array.{str_arr_find}
use cmon.Str.Array.Find.{Texts, FoundFrom, str_arr_find-FoundFrom}

str_new_from_char_arrs-concat_example :
    str_new_from_char_arrs ample (some ab_nul) (c_nul ∷ [])
    ≡ ok (some (of_text (b'a' ∷ b'b' ∷ b'c' ∷ [])))
str_new_from_char_arrs-concat_example =
    str_new_from_char_arrs-concat ample ab-CStr (CStrs.cons c-CStr CStrs.nil)
      (omega arith, (omega arith, tt)) (omega arith) (ample-Allocates 3)

-- A text of as many bytes `x`.
repeated-CStr : (n : ℕ) → CStr (replicate n b'x' ++ 0 ∷ []) (replicate n b'x')
repeated-CStr zero = nul
repeated-CStr (suc n) = chr (λ e. cc) (repeated-CStr n)

refusing_run : str_new_from_str ample none [] ≡ ok none
unfolding str_new_from_str
refusing_run = refl

held_fifty :
    (n i : ℕ) (x : CmonString)
    → get_elem? (replicate n (of_text c)) i ≡ some x
    → get_elem? (replicate n (some (of_text c))) i ≡ some (some x)
held_fifty zero i x h = cc h
held_fifty (suc n) zero x h = ap some h
held_fifty (suc n) (suc i) x h = held_fifty n i x h

str_arr_find-FoundFrom_example :
    (o : Option CmonString) × (str_arr_find two_slots (some (of_text c)) ≡ ok o)
    × FoundFrom (ab ∷ c ∷ []) c 0 o
str_arr_find-FoundFrom_example =
    str_arr_find-FoundFrom two_slots-Represents (Texts.cons ab-Holds (Texts.cons c-Holds Texts.nil))
      c-Holds
