-- ===== src/Integers/Tests.antt =====
-- Runs of the integer arrays.
use cmon.Base.{◌≡◌, refl, some, List, [], ◌∷◌, replicate, arith, ok}
use cmon.Base.Int.{ℤ, pos}
use cmon.Integers.{CmonIntArray, int_arr_add}
use cmon.Integers.Items.{Represents, int_arr_add-append}

-- Both slots are in use.
abbrev two : CmonIntArray
two = record { len = 2; size = 2; arr = pos 7 ∷ pos 8 ∷ [] }

two-Represents : Represents two (pos 7 ∷ pos 8 ∷ [])
two-Represents = record { counted = refl; slots = refl; room = omega arith; items = refl }

int_arr_add-append_example :
    (b : CmonIntArray) × (int_arr_add (some two) (pos 9) (some (replicate 17 (pos 0)))
      ≡ ok (some b))
    × Represents b (pos 7 ∷ pos 8 ∷ pos 9 ∷ [])
int_arr_add-append_example =
    int_arr_add-append (pos 9) (replicate 17 (pos 0)) two-Represents (omega arith) refl

abbrev many : List ℤ
many = replicate 5000 (pos 1)
