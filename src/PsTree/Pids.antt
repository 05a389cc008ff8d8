-- ===== src/PsTree/Pids.antt =====
-- The array that `_ps_tree_get_pids_from_pipe` fills.
use cmon.Base.{
  ℕ, ◌+◌, ◌≤◌, ◌<◌, ◌≡◌, refl, sym, ap, subst, ◌∙◌, inl, inr, true, false, Option, some, List, [],
  ◌∷◌, ◌++◌, map, append-nil, append_assoc, length, All, take, set, take-set, take-set-before,
  get_elem?, get_elem?-set, length-set, length-append, arith, ok, ltb, ◌==◌, lt→ltb, ge→ltb,
  Bool-cases,
}
use cmon.Base.Int.{ℤ, pos}
use cmon.Text.{Bytes, char_is_numeric}
use cmon.Integers.{CmonIntArray, memory_increment}
use cmon.Integers.Items.{Represents, int_arr_add-append}
use cmon.PsTree.{Scan, take_char, take_chars, get_pids, get_pids_from_pipe}
use cmon.PsTree.Numbers.{
  unfinished, decimal, number_of, finished, numbers, left_over, Short, Digits, Digits-append,
  number_in-decimal, numbers-append, Short-append, joined,
}

-- The variables hold the digits of the number that is being read, and an array of those before it.
record Holds (s : Scan) (ds : Bytes) (xs : List ℤ) : Type 0 where
  array : CmonIntArray
  is_array : s.pid_array ≡ some array
  represents : Represents array xs
  room : length s.pid_buff ≡ 10
  counted : s.used ≡ length ds
  read : take (length ds) s.pid_buff ≡ ds
  digits : Digits ds

-- `malloc` gives blocks of the size that is asked for.
abbrev pub Ample : (ℕ → Option (List ℤ)) → Type 0
Ample mem = (n : ℕ) → (block : List ℤ) × (mem n ≡ some block) × (length block ≡ n)

get_elem?-set_self : (b : Bytes) (i v : ℕ) → i < length b → get_elem? (set b i v) i ≡ some v
get_elem?-set_self b i v lt = ground (arith, get_elem?-set b i i v)

-- At a character that is no digit.
close-Holds :
    (mem : ℕ → Option (List ℤ)) (s : Scan) (ds : Bytes) (xs : List ℤ) (c : ℕ)
    → Ample mem
    → Holds s ds xs
    → (char_is_numeric c == 0) ≡ true
    → length ds ≤ 9
    → length xs + length (number_of ds) ≤ 5000
    → (s' : Scan) × (take_char mem c s ≡ ok s') × Holds s' [] (xs ++ number_of ds)
unfolding take_char
close-Holds mem s [] xs c ample h no_digit short few =
    let none_used : ltb 0 s.used ≡ false = ge→ltb 0 s.used (omega (arith, h.counted)) in
    (s, rw (no_digit, none_used) refl, rw (append-nil xs) h)
close-Holds mem s (d ∷ ds) xs c ample h no_digit short few =
    let b = set s.pid_buff s.used 0 in
    let some_used : ltb 0 s.used ≡ true = lt→ltb 0 s.used (omega (arith, h.counted)) in
    let inside : ltb s.used (length s.pid_buff) ≡ true =
      lt→ltb s.used (length s.pid_buff) (omega (arith, h.counted, h.room, short)) in
    let (block, given, size) = ample (h.array.size + memory_increment) in
    let number =
      number_in-decimal b (d ∷ ds) 0 h.digits
        (ap (λ k. take (length (d ∷ ds)) (set s.pid_buff k 0)) h.counted
          ∙ take-set-before s.pid_buff (length (d ∷ ds)) 0
          ∙ h.read)
        (ap (λ k. get_elem? b k) (sym h.counted)
          ∙ get_elem?-set_self s.pid_buff s.used 0 (omega (arith, h.counted, h.room, short))) in
    let (a', added, rep) =
      int_arr_add-append (pos (decimal 0 (d ∷ ds))) block h.represents (omega (arith, few)) size in
    (
      record { pid_buff = b; used = 0; pid_array = some a' },
      rw (no_digit, some_used, inside, h.is_array) (rw (given, number) (rw added refl)),
      record {
        array = a';
        is_array = refl;
        represents = rep;
        room = length-set s.pid_buff s.used 0 ∙ h.room;
        counted = refl;
        read = refl;
        digits = tt;
      },
    )

-- At a digit.
open-Holds :
    (mem : ℕ → Option (List ℤ)) (s : Scan) (ds : Bytes) (xs : List ℤ) (c : ℕ)
    → Holds s ds xs
    → (char_is_numeric c == 0) ≡ false
    → length ds ≤ 9
    → (s' : Scan) × (take_char mem c s ≡ ok s') × Holds s' (ds ++ c ∷ []) xs
unfolding take_char
open-Holds mem s ds xs c h digit short =
    let inside : s.used < length s.pid_buff = omega (arith, h.counted, h.room, short) in
    let longer = length-append ds (c ∷ []) in
    (
      record s { pid_buff = set s.pid_buff s.used c; used = s.used + 1 },
      rw (digit, lt→ltb s.used (length s.pid_buff) inside) refl,
      record {
        array = h.array;
        is_array = h.is_array;
        represents = h.represents;
        room = length-set s.pid_buff s.used c ∙ h.room;
        counted = omega (arith, h.counted, longer);
        read =
            ap (λ k. take k (set s.pid_buff s.used c)) (omega (arith, h.counted, longer))
            ∙ take-set s.pid_buff s.used c inside
            ∙ ap (λ t. t ++ c ∷ []) (ap (λ k. take k s.pid_buff) h.counted ∙ h.read);
        digits = Digits-append ds c h.digits digit;
      },
    )

take_char-Holds :
    (mem : ℕ → Option (List ℤ)) (s : Scan) (ds : Bytes) (xs : List ℤ) (c : ℕ)
    → Ample mem
    → Holds s ds xs
    → length ds ≤ 9
    → length xs + length (finished ds c) ≤ 5000
    → (s' : Scan) × (take_char mem c s ≡ ok s') × Holds s' (unfinished ds c) (xs ++ finished ds c)
take_char-Holds mem s ds xs c ample h short few = elim (Bool-cases (char_is_numeric c == 0)) [
  | inl no_digit ↦
      let (s', e, h') = close-Holds mem s ds xs c ample h no_digit short (rw no_digit at few) in
      (s', e, rw no_digit h')
  | inr digit ↦
      let (s', e, h') = open-Holds mem s ds xs c h digit short in
      (s', e, rw (digit, append-nil xs) h')
]

take_chars-Holds :
    (mem : ℕ → Option (List ℤ)) (s : Scan) (ds : Bytes) (xs : List ℤ) (cs : Bytes)
    → Ample mem
    → Holds s ds xs
    → Short ds cs
    → length xs + length (numbers ds cs) ≤ 5000
    → (s' : Scan) × (take_chars mem cs s ≡ ok s') × Holds s' (left_over ds cs) (xs ++ numbers ds cs)
unfolding take_chars
take_chars-Holds mem s ds xs [] ample h short few = (s, refl, rw (append-nil xs) h)
take_chars-Holds mem s ds xs (c ∷ cs) ample h (nine, short) few =
    let rest = numbers (unfinished ds c) cs in
    let parts = length-append (finished ds c) rest in
    let size = length-append xs (finished ds c) in
    let (s1, e1, h1) = take_char-Holds mem s ds xs c ample h nine (omega (arith, parts, few)) in
    let (s2, e2, h2) =
      take_chars-Holds mem s1 (unfinished ds c) (xs ++ finished ds c) cs ample h1 short
        (omega (arith, size, parts, few)) in
    (s2, rw e1 e2, rw (sym (append_assoc xs (finished ds c) rest)) h2)

get_pids-Holds :
    (mem : ℕ → Option (List ℤ)) (s : Scan) (ds : Bytes) (xs : List ℤ) (pieces : List Bytes)
    → Ample mem
    → Holds s ds xs
    → All (λ piece. 0 < length piece) pieces
    → Short ds (joined pieces)
    → length xs + length (numbers ds (joined pieces)) ≤ 5000
    → (a : CmonIntArray) × (get_pids mem (map some pieces) s ≡ ok (some a))
      × Represents a (xs ++ numbers ds (joined pieces))
unfolding get_pids
get_pids-Holds mem s ds xs [] ample h full short few =
    (h.array, rw h.is_array refl, rw (append-nil xs) h.represents)
get_pids-Holds mem s ds xs ([] ∷ pieces) ample h (full, _) short few = absurd (omega arith)
get_pids-Holds mem s ds xs ((c ∷ cs) ∷ pieces) ample h (full, more) short few =
    let piece = c ∷ cs in
    let split = numbers-append ds piece (joined pieces) in
    let rest = numbers (left_over ds piece) (joined pieces) in
    let parts = length-append (numbers ds piece) rest in
    let size = length-append xs (numbers ds piece) in
    let (here, there) = Short-append ds piece (joined pieces) short in
    let (s1, e1, h1) =
      take_chars-Holds mem s ds xs piece ample h here
        (omega (arith, ap length split, parts, few)) in
    let (a, e2, r) =
      get_pids-Holds mem s1 (left_over ds piece) (xs ++ numbers ds piece) pieces ample h1 more there
        (omega (arith, ap length split, size, parts, few)) in
    (
      a,
      rw e1 e2,
      subst (Represents a) (append_assoc xs (numbers ds piece) rest ∙ ap (λ t. xs ++ t) (sym split))
          r,
    )

-- However the text that `pstree` prints is cut into reads, `_ps_tree_get_pids_from_pipe` returns
-- an array of the integers that were there with the numbers of the whole text behind them, in
-- order: every number that a character which is no digit follows, also one that two reads share.
-- For numbers of at most nine digits, at most 5000 integers in all, ten bytes for the digits, and
-- where `malloc` does not fail.
pub get_pids_from_pipe-numbers :
    (mem : ℕ → Option (List ℤ)) (pieces : List Bytes) (pid_buff : Bytes) {a : CmonIntArray}
    {xs : List ℤ}
    → Ample mem
    → Represents a xs
    → length pid_buff ≡ 10
    → All (λ piece. 0 < length piece) pieces
    → Short [] (joined pieces)
    → length xs + length (numbers [] (joined pieces)) ≤ 5000
    → (b : CmonIntArray) × (get_pids_from_pipe mem (map some pieces) pid_buff (some a)
        ≡ ok (some b))
      × Represents b (xs ++ numbers [] (joined pieces))
unfolding get_pids_from_pipe
get_pids_from_pipe-numbers mem pieces pid_buff {a} {xs} ample r room full short few =
    get_pids-Holds mem _ [] xs pieces ample
      (record {
        array = a;
        is_array = refl;
        represents = r;
        room = room;
        counted = refl;
        read = refl;
        digits = tt;
      })
      full short few
