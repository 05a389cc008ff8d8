-- ===== src/PsTree/Tests.antt =====
-- "a(12)b(34)" in two reads, the second of which starts in the middle of a number.
use cmon.Base.{
  ℕ, ◌≡◌, refl, Option, some, List, [], ◌∷◌, replicate, length-replicate, map, arith, ok,
}
use cmon.Base.Int.{ℤ, pos}
use cmon.Text.{Bytes, char_is_numeric}
use cmon.Integers.{CmonIntArray}
use cmon.Integers.Items.{Represents}
use cmon.PsTree.{get_pids_from_pipe}
use cmon.PsTree.Pids.{Ample, get_pids_from_pipe-numbers}

abbrev memory : ℕ → Option (List ℤ)
memory n = some (replicate n (pos 0))

memory-Ample : Ample memory
memory-Ample n = (replicate n (pos 0), refl, length-replicate n (pos 0))

abbrev reads : List Bytes
reads = (97 ∷ 40 ∷ 49 ∷ []) ∷ (50 ∷ 41 ∷ 98 ∷ 40 ∷ 51 ∷ 52 ∷ 41 ∷ []) ∷ []

abbrev fresh : CmonIntArray
fresh = record { len = 0; size = 1; arr = pos 0 ∷ [] }

fresh-Represents : Represents fresh []
fresh-Represents = record { counted = refl; slots = refl; room = omega arith; items = refl }

get_pids_from_pipe-numbers_example :
    (b : CmonIntArray) × (get_pids_from_pipe memory (map some reads) (replicate 10 0) (some fresh)
      ≡ ok (some b))
    × Represents b (pos 12 ∷ pos 34 ∷ [])
unfolding char_is_numeric
get_pids_from_pipe-numbers_example =
    get_pids_from_pipe-numbers memory reads (replicate 10 0) memory-Ample fresh-Represents refl
      (omega arith, (omega arith, tt))
      (
        omega arith,
        (
          omega arith,
          (
            omega arith,
            (
              omega arith,
              (
                omega arith,
                (
                  omega arith,
                  (omega arith, (omega arith, (omega arith, (omega arith, omega arith)))),
                ),
              ),
            ),
          ),
        ),
      )
      (omega arith)
