-- ===== src/Http/Length.antt =====
-- `_http_get_content_length_headder`: the digits behind the name of the field, and their value.
use cmon.Base.{
  ℕ, zero, suc, ◌+◌, ◌-◌, ◌*◌, ◌%◌, ◌≤◌, ◌<◌, ◌≡◌, refl, sym, ap, ◌∙◌, inl, inr, Bool, true, false,
  not, ◌&&◌, ◌||◌, some, [], ◌∷◌, ◌++◌, length, drop, replicate, set, All, get_elem?, length-set,
  length-append, drop-append, drop-drop, arith, ok, fault, ltb, ◌==◌, ge→ltb, lt→ltb, le→leb, ne→==,
  Bool-cases,
}
use cmon.Base.Int.{pos}
use cmon.Text.{Bytes, size_mod, find_pattern}
use cmon.Text.Search.{Occurs, find_pattern-at, Occurs-middle}
use cmon.Mem.Copy.{overwrite, get_elem?-overwrite}
use cmon.Http.{
  is_digit, parse_from, parse_str_to_int, number_from, number_value, length_after,
  content_length_name, get_content_length,
}

-- The number that digits write, behind one that has been read.
abbrev pub decimal : ℕ → Bytes → ℕ
decimal v [] = v
decimal v (c ∷ cs) = decimal (v * 10 + (c - b'0')) cs

abbrev pub Digits : Bytes → Type 0
Digits ds = All (λ c. is_digit c ≡ true) ds

-- A byte that is no digit and does not end the line.
abbrev pub is_blank : ℕ → Bool
is_blank c = not (is_digit c) && not (c == 10) && not (c == 13)

abbrev ten_to : ℕ → ℕ
ten_to zero = 1
ten_to (suc n) = 10 * ten_to n

ten_to-le_add : (n m : ℕ) → ten_to n ≤ ten_to (m + n)
ten_to-le_add n zero = let e : 0 + n ≡ n = omega arith in omega (arith, ap ten_to e)
ten_to-le_add n (suc m) =
    let e : suc m + n ≡ suc (m + n) = omega arith in omega (arith, ten_to-le_add n m, ap ten_to e)

ten_to-le : (n : ℕ) → n ≤ 9 → ten_to n ≤ 1000000000
ten_to-le n h =
    let e : 9 - n + n ≡ 9 = omega arith in omega (arith, ten_to-le_add n (9 - n), ap ten_to e)

parse_from-decimal :
    (str ds : Bytes) (i k v : ℕ)
    → Digits ds
    → Occurs ds (length ds) str i
    → v < ten_to k
    → k + length ds ≤ 9
    → parse_from str (length ds) i v ≡ ok (pos (decimal v ds))
unfolding parse_from
parse_from-decimal str [] i k v is occ small few = refl
parse_from-decimal str (c ∷ ds) i k v is occ small few =
    let here : get_elem? str i ≡ some c = ap (get_elem? str) (omega arith) ∙ occ 0 (omega arith) in
    let low : c - b'0' < 10 = ground (arith, is.0) in
    let below : v * 10 + (c - b'0') < ten_to (suc k) = omega (arith, low, small) in
    let value : (v * 10 + (c - b'0')) % size_mod ≡ v * 10 + (c - b'0') =
      omega (arith, below, ten_to-le (suc k) (omega arith)) in
    let later : Occurs ds (length ds) str (i + 1) = λ j lt.
      let shift : i + 1 + j ≡ i + suc j = omega arith in
      ap (get_elem? str) shift ∙ occ (suc j) (omega arith) in
    rw (here, is.0, value)
      (parse_from-decimal str ds (i + 1) (suc k) (v * 10 + (c - b'0')) is.1 later below
        (omega arith))

number_from-Digits :
    (ds rest buf : Bytes) (iterations size : ℕ)
    → Digits ds
    → iterations ≤ 20
    → length buf ≡ 9
    → size + length ds ≤ 9
    → number_from (ds ++ 13 ∷ rest) iterations buf size
      ≡ ok (some (overwrite buf size ds, size + length ds))
unfolding number_from
number_from-Digits [] rest buf it size is few whole fits =
    ap (λ n. ok (some (buf, n))) (omega arith)
number_from-Digits (c ∷ ds) rest buf it size is few whole fits =
    let inside : (c == 10 || c == 13) ≡ false = ground (arith, is.0) in
    let next : size + 1 + length ds ≡ size + length (c ∷ ds) = omega arith in
    rw
      (
        inside,
        ge→ltb 20 it few,
        ge→ltb 9 size (omega arith),
        is.0,
        lt→ltb size (length buf) (omega (arith, whole)),
      )
      (number_from-Digits ds rest (set buf size c) it (size + 1) is.1 few
          (length-set buf size c ∙ whole) (omega arith)
        ∙ ap (λ n. ok (some (overwrite buf size (c ∷ ds), n))) next)

number_from-blank :
    (sp t buf : Bytes) (iterations : ℕ)
    → All (λ c. is_blank c ≡ true) sp
    → iterations + length sp ≤ 21
    → number_from (sp ++ t) iterations buf 0 ≡ number_from t (iterations + length sp) buf 0
unfolding number_from
number_from-blank [] t buf it is few = ap (λ n. number_from t n buf 0) (omega arith)
number_from-blank (c ∷ sp) t buf it is few =
    let inside : (c == 10 || c == 13) ≡ false = ground (arith, is.0) in
    let other : is_digit c ≡ false = ground (arith, is.0) in
    let next : it + 1 + length sp ≡ it + length (c ∷ sp) = omega arith in
    rw (inside, ge→ltb 20 it (omega arith), other)
      (number_from-blank sp t buf (it + 1) is.1 (omega arith)
        ∙ ap (λ n. number_from t n buf 0) next)

-- A tenth digit is written behind `number_buf`.
number_from-fault :
    (ds t buf : Bytes) (iterations size : ℕ)
    → Digits ds
    → iterations ≤ 20
    → length buf ≡ 9
    → size ≤ 9
    → 10 ≤ size + length ds
    → number_from (ds ++ t) iterations buf size ≡ fault
unfolding number_from
number_from-fault [] t buf it size is few whole in_buf long = absurd (omega arith)
number_from-fault (c ∷ ds) t buf it size is few whole in_buf long =
    let inside : (c == 10 || c == 13) ≡ false = ground (arith, is.0) in
    elim (Bool-cases (ltb size (length buf))) [
      | inl room ↦
          rw (inside, ge→ltb 20 it few, ge→ltb 9 size in_buf, is.0, room)
            (number_from-fault ds t (set buf size c) it (size + 1) is.1 few
              (length-set buf size c ∙ whole) (ground (arith, whole)) (omega arith))
      | inr full ↦ rw (inside, ge→ltb 20 it few, ge→ltb 9 size in_buf, is.0, full)
    ]

number_value-decimal :
    (ds : Bytes)
    → Digits ds
    → 0 < length ds
    → length ds ≤ 9
    → number_value (some (overwrite (replicate 9 0) 0 ds, 0 + length ds)) ≡ ok (pos (decimal 0 ds))
unfolding number_value parse_str_to_int
number_value-decimal ds is some_digit few =
    let number_buf = overwrite (replicate 9 0) 0 ds in
    let total : 0 + length ds ≡ length ds = omega arith in
    let stored : Occurs ds (length ds) number_buf 0 = λ j lt.
      let back : 0 + j - 0 ≡ j = omega arith in
      get_elem?-overwrite (replicate 9 0) 0 ds (0 + j) (omega arith)
      ∙ rw (le→leb 0 (0 + j) (omega arith), lt→ltb (0 + j) (0 + length ds) (omega arith), back)
          refl in
    rw (total, ne→== (length ds) 0 (λ e. omega (arith, e)), ge→ltb 9 (length ds) few)
      (parse_from-decimal number_buf ds 0 0 0 is stored (omega arith) (omega arith))

-- What the function reads in a header whose first field of that name has `sp` and then `ds` behind
-- the colon.
abbrev pub with_length : Bytes → Bytes → Bytes → Bytes → Bytes
with_length pre sp ds rest = pre ++ (content_length_name ++ (sp ++ (ds ++ rest)))

module _ (pre sp ds rest : Bytes) (small : length (with_length pre sp ds rest) < size_mod)
    (first : (r : ℕ)
      → r < length pre
      → ¬ Occurs content_length_name 15 (with_length pre sp ds rest) r) where
  behind_colon : drop (length pre + 14) (with_length pre sp ds rest) ≡ b':' ∷ (sp ++ (ds ++ rest))
  behind_colon =
      sym (drop-drop 14 (length pre) (with_length pre sp ds rest))
      ∙ ap (drop 14) (drop-append pre (content_length_name ++ (sp ++ (ds ++ rest))))

  name_found :
      find_pattern
        (some content_length_name)
        15
        (some (with_length pre sp ds rest))
        (length (with_length pre sp ds rest))
      ≡ ok (some (length pre))
  name_found =
      let size = length-append pre (content_length_name ++ (sp ++ (ds ++ rest))) in
      find_pattern-at content_length_name (with_length pre sp ds rest) 15 _ (length pre)
        (omega arith) (omega arith) (omega arith) small (omega (arith, size))
        (Occurs-middle pre content_length_name (sp ++ (ds ++ rest))) first

  -- Ten digits or more are written past the nine bytes of `number_buf`, behind the first
  -- `Content-Length:` and at most 19 bytes that are no digits and do not end the line, in a
  -- header of less than 2 ^ 64 bytes.
  pub get_content_length-fault :
      All (λ c. is_blank c ≡ true) sp
      → length sp ≤ 19
      → Digits ds
      → 10 ≤ length ds
      → get_content_length (with_length pre sp ds rest) (length (with_length pre sp ds rest))
        ≡ fault
  unfolding get_content_length length_after
  get_content_length-fault blank few is long =
      let skipped =
        number_from-blank (b':' ∷ sp) (ds ++ rest) (replicate 9 0) 0 (refl, blank) (omega arith) in
      let over =
        number_from-fault ds rest (replicate 9 0) (0 + length (b':' ∷ sp)) 0 is (omega arith) refl
          (omega arith) (omega arith) in
      rw name_found (rw (behind_colon, skipped, over) refl)

  -- One to nine digits before a carriage return, behind the first `Content-Length:` and at most 19
  -- bytes that are no digits and do not end the line, are read as the number that they write, in a
  -- header of less than 2 ^ 64 bytes.
  pub get_content_length-decimal :
      {tail : Bytes}
      → rest ≡ 13 ∷ tail
      → All (λ c. is_blank c ≡ true) sp
      → length sp ≤ 19
      → Digits ds
      → 0 < length ds
      → length ds ≤ 9
      → get_content_length (with_length pre sp ds rest) (length (with_length pre sp ds rest))
        ≡ ok (pos (decimal 0 ds))
  unfolding get_content_length length_after
  get_content_length-decimal {tail} ends blank few is some_digit short =
      let skipped =
        number_from-blank (b':' ∷ sp) (ds ++ 13 ∷ tail) (replicate 9 0) 0 (refl, blank)
          (omega arith) in
      let read =
        number_from-Digits ds tail (replicate 9 0) (0 + length (b':' ∷ sp)) 0 is (omega arith) refl
          (omega arith) in
      let from : drop (length pre + 14) (with_length pre sp ds rest)
          ≡ b':' ∷ (sp ++ (ds ++ 13 ∷ tail)) =
        behind_colon ∙ ap (λ r. b':' ∷ (sp ++ (ds ++ r))) ends in
      rw name_found (rw (from, skipped, read) (number_value-decimal ds is some_digit short))
