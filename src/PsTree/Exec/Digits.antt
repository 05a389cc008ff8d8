-- ===== src/PsTree/Exec/Digits.antt =====
-- The number of a process, written for `pstree`.
use cmon.Base.{
  codes, ℕ, zero, suc, ◌+◌, ◌*◌, ◌/◌, ◌%◌, ◌≤◌, ◌<◌, ◌≡◌, ap, ◌∙◌, inl, inr, none, [], ◌∷◌, ◌++◌,
  ltb, length, length-append, append_assoc, Bool-cases, lt→ltb, ge→ltb, arith, ok,
}
use cmon.Base.Int.{pos}
use cmon.Text.{Bytes, char_is_numeric}
use cmon.Processes.Start.{child, program}
use cmon.PsTree.{number_in}
use cmon.Text.Decimal.{digits_from}
use cmon.PsTree.Exec.{tree_arguments, tree_exec}

-- `atoi` goes on behind a text whose bytes are digits.
number_in-digit :
    (d acc : ℕ) (rest : Bytes)
    → d < 10
    → number_in acc ((48 + d) ∷ rest) ≡ number_in (acc * 10 + d) rest
unfolding char_is_numeric
number_in-digit d acc rest h = ground arith

abbrev ten_to : ℕ → ℕ
ten_to zero = 1
ten_to (suc k) = 10 * ten_to k

-- At most `k` digits for a number below 10 ^ k.
digits_from-short : (k f n : ℕ) → n < ten_to (suc k) → length (digits_from f n) ≤ suc k
digits_from-short k zero n h = omega arith
digits_from-short zero (suc f) n h = rw (lt→ltb n 10 (omega arith)) (omega arith)
digits_from-short (suc k) (suc f) n h = elim (Bool-cases (ltb n 10)) [
  | inl one ↦ rw one (omega arith)
  | inr more ↦
      let fewer = digits_from-short k f (n / 10) (omega arith) in
      rw more (omega (arith, fewer, length-append (digits_from f (n / 10)) ((48 + n % 10) ∷ [])))
]

digits_from-value :
    (f n : ℕ) (rest : Bytes) → n < f → number_in 0 (digits_from f n ++ rest) ≡ number_in n rest
digits_from-value zero n rest h = absurd (omega arith)
digits_from-value (suc f) n rest h = elim (Bool-cases (ltb n 10)) [
  | inl one ↦
      rw one (number_in-digit n 0 rest (ground arith) ∙ ap (λ k. number_in k rest) (omega arith))
  | inr more ↦
      let digit = (48 + n % 10) ∷ rest in
      rw (more, append_assoc (digits_from f (n / 10)) ((48 + n % 10) ∷ []) rest)
        (digits_from-value f (n / 10) digit (ground arith)
          ∙ number_in-digit (n % 10) (n / 10) rest (omega arith)
          ∙ ap (λ k. number_in k rest) (omega arith))
]

-- For every process number that `ps_tree_exec` lets through, that is up to 100000000, the digits
-- and their NUL byte fit in the ten bytes of `childPidBuff`, and `pstree` is run for a text that
-- reads back as that number.
pub tree_exec-program :
    (pid : ℕ)
    → pid ≤ 100000000
    → (digits : Bytes) × (tree_exec (pos pid) child none
        ≡ ok (program (codes "pstree" ++ 0 ∷ []) (tree_arguments (digits ++ 0 ∷ []))))
      × (length digits ≤ 9)
      × (number_in 0 (digits ++ 0 ∷ []) ≡ pid)
unfolding tree_exec char_is_numeric
tree_exec-program pid small =
    let digits = digits_from (suc pid) pid in
    let short : length digits ≤ 9 = digits_from-short 8 (suc pid) pid (omega arith) in
    (
      digits,
      rw (ge→ltb 100000000 pid (omega arith), lt→ltb (length digits) 10 (omega arith)),
      short,
      digits_from-value (suc pid) pid (0 ∷ []) (omega arith),
    )
