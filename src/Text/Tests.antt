-- ===== src/Text/Tests.antt =====
-- Runs of the searches on bytes.
use cmon.Base.{ℕ, ◌≡◌, refl, Option, some, [], ◌∷◌, arith, ok, true, false}
use cmon.Text.{Bytes, find_pattern, str_is_number, get_ext_name}
use cmon.Text.Search.{FirstFrom, find_pattern-FirstFrom}

abbrev aab : Bytes
aab = b'a' ∷ b'a' ∷ b'b' ∷ []

abbrev ab : Bytes
ab = b'a' ∷ b'b' ∷ []

find_pattern-FirstFrom_example :
    (r : Option ℕ) × (find_pattern (some ab) 2 (some aab) 3 ≡ ok r) × FirstFrom ab 2 aab 3 0 r
find_pattern-FirstFrom_example =
    find_pattern-FirstFrom ab aab 2 3 (omega arith) (omega arith) (omega arith) (omega arith)
      (omega arith)

found : find_pattern (some ab) 2 (some aab) 3 ≡ ok (some 1)
unfolding find_pattern
found = refl

digits : str_is_number (b'4' ∷ b'2' ∷ 0 ∷ []) ≡ ok true
unfolding str_is_number
digits = refl

letters : str_is_number (b'4' ∷ b'x' ∷ 0 ∷ []) ≡ ok false
unfolding str_is_number
letters = refl

-- The name starts behind the first dot, not behind the last one.
two_dots : get_ext_name (b'a' ∷ b'.' ∷ b'b' ∷ b'.' ∷ b'c' ∷ []) 5 ≡ ok (some 2)
unfolding get_ext_name
two_dots = refl
