-- ===== src/PsTree/Numbers.antt =====
-- The numbers of a text.
use cmon.Base.{
  ℕ, ◌+◌, ◌-◌, ◌*◌, ◌≤◌, ◌≡◌, refl, sym, ap, ◌∙◌, false, some, List, [], ◌∷◌, ◌++◌, append_assoc,
  length, take, get_elem?, ◌==◌, some_inj, if◌then◌else◌,
}
use cmon.Base.Int.{ℤ, pos}
use cmon.Text.{Bytes, char_is_numeric}
use cmon.PsTree.{number_in}

-- The digits of the number that is being read, after one more character.
abbrev pub unfinished : Bytes → ℕ → Bytes
unfinished ds c = if char_is_numeric c == 0 then [] else ds ++ c ∷ []

abbrev pub decimal : ℕ → Bytes → ℕ
decimal acc [] = acc
decimal acc (d ∷ ds) = decimal (acc * 10 + (d - 48)) ds

abbrev pub number_of : Bytes → List ℤ
number_of [] = []
number_of (d ∷ ds) = pos (decimal 0 (d ∷ ds)) ∷ []

-- The number that ends at a character, if one does.
abbrev pub finished : Bytes → ℕ → List ℤ
finished ds c = if char_is_numeric c == 0 then number_of ds else []

-- The numbers of a text, each ended by a character that is no digit, behind digits that were read
-- before.
abbrev pub numbers : Bytes → Bytes → List ℤ
numbers ds [] = []
numbers ds (c ∷ cs) = finished ds c ++ numbers (unfinished ds c) cs

abbrev pub left_over : Bytes → Bytes → Bytes
left_over ds [] = ds
left_over ds (c ∷ cs) = left_over (unfinished ds c) cs

-- No number of the text has more than nine digits.
abbrev pub Short : Bytes → Bytes → Type 0
Short ds [] = length ds ≤ 9
Short ds (c ∷ cs) = (length ds ≤ 9) × Short (unfinished ds c) cs

abbrev pub Digits : Bytes → Type 0
Digits [] = Unit {0}
Digits (d ∷ ds) = ((char_is_numeric d == 0) ≡ false) × Digits ds

pub Digits-append :
    (ds : Bytes) (c : ℕ) → Digits ds → (char_is_numeric c == 0) ≡ false → Digits (ds ++ c ∷ [])
Digits-append [] c all e = (e, tt)
Digits-append (d ∷ ds) c (first, all) e = (first, Digits-append ds c all e)

-- `atoi` stops at the NUL behind the digits.
pub number_in-decimal :
    (b ds : Bytes) (acc : ℕ)
    → Digits ds
    → take (length ds) b ≡ ds
    → get_elem? b (length ds) ≡ some 0
    → number_in acc b ≡ decimal acc ds
unfolding char_is_numeric
number_in-decimal [] [] acc all same ended = absurd (cc)
number_in-decimal (c ∷ b) [] acc all same ended = let nul : c ≡ 0 = some_inj ended in rw nul refl
number_in-decimal [] (d ∷ ds) acc all same ended = absurd (cc)
number_in-decimal (c ∷ b) (d ∷ ds) acc (first, all) same ended =
    let same_head : c ≡ d = cc in
    let same_tail : take (length ds) b ≡ ds = cc in
    rw same_head (rw first (number_in-decimal b ds (acc * 10 + (d - 48)) all same_tail ended))

pub numbers-append :
    (ds front back : Bytes)
    → numbers ds (front ++ back) ≡ numbers ds front ++ numbers (left_over ds front) back
numbers-append ds [] back = refl
numbers-append ds (c ∷ front) back =
    ap (λ t. finished ds c ++ t) (numbers-append (unfinished ds c) front back)
    ∙ sym (
        append_assoc (finished ds c) (numbers (unfinished ds c) front)
          (numbers (left_over (unfinished ds c) front) back))

pub Short-append :
    (ds front back : Bytes)
    → Short ds (front ++ back)
    → Short ds front × Short (left_over ds front) back
Short-append ds [] back short = (first ds back short, short)
  where
    first : (ds back : Bytes) → Short ds back → length ds ≤ 9
    first ds [] short = short
    first ds (b ∷ back) (nine, short) = nine
Short-append ds (c ∷ front) back (nine, short) =
    let (left, right) = Short-append (unfinished ds c) front back short in ((nine, left), right)

abbrev pub joined : List Bytes → Bytes
joined [] = []
joined (piece ∷ pieces) = piece ++ joined pieces
