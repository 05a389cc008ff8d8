-- ===== src/PsTree/Exec/Tests.antt =====
-- A process number, and one that is too large.
use cmon.Base.{◌≤◌, ◌≡◌, refl, none, [], ◌∷◌, ◌++◌, length, arith, ok, codes}
use cmon.Base.Int.{pos}
use cmon.Text.{Bytes}
use cmon.Processes.Start.{child, program, goes_on}
use cmon.PsTree.{number_in}
use cmon.PsTree.Exec.{tree_arguments, tree_exec}
use cmon.PsTree.Exec.Digits.{tree_exec-program}

-- The child goes on as a second copy of the program that called.
large_number : tree_exec (pos 123456789) child none ≡ ok (goes_on (pos 1))
unfolding tree_exec
large_number = refl

small_number :
    tree_exec (pos 405) child none
    ≡ ok (program (codes "pstree" ++ 0 ∷ []) (tree_arguments (codes "405" ++ 0 ∷ [])))
unfolding tree_exec
small_number = refl

tree_exec-program_example :
    (digits : Bytes) × (tree_exec (pos 405) child none
      ≡ ok (program (codes "pstree" ++ 0 ∷ []) (tree_arguments (digits ++ 0 ∷ []))))
    × (length digits ≤ 9)
    × (number_in 0 (digits ++ 0 ∷ []) ≡ 405)
tree_exec-program_example = tree_exec-program 405 (omega arith)
