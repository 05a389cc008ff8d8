-- ===== src/Str/Sample.antt =====
-- Data for the tests: a `malloc` that never fails and gives zeroed blocks, and short texts.
use cmon.Base.{
  ℕ, zero, suc, ◌+◌, get_elem?, ◌≡◌, refl, sym, ap, ◌∙◌, some, none, [], ◌∷◌, replicate, length,
  length-replicate, some_inj,
}
use cmon.Text.{Bytes}
use cmon.Str.{CmonString}
use cmon.Str.Alloc.{Allocator}
use cmon.Str.CStr.{CStr, nul, chr, Holds}
use cmon.Str.Concat.{Allocates, of_text, of_text-Holds}
use cmon.Str.Array.{CmonStringArray}
use cmon.Str.Array.Items.{Represents}

abbrev pub ample : Allocator
ample = record {
  alloc = λ n. some (replicate n 0);
  alloc_size = λ n b h. ap length (sym (some_inj h)) ∙ length-replicate n 0;
}

pub ample-Allocates : (n : ℕ) → Allocates ample n
ample-Allocates n = record {
  header = replicate 16 0;
  block = replicate (n + 1) 0;
  header_given = refl;
  block_given = refl;
}

-- "ab" and "c", with their NUL bytes.
abbrev pub ab : Bytes
ab = b'a' ∷ b'b' ∷ []

abbrev pub ab_nul : Bytes
ab_nul = b'a' ∷ b'b' ∷ 0 ∷ []

abbrev pub c : Bytes
c = b'c' ∷ []

abbrev pub c_nul : Bytes
c_nul = b'c' ∷ 0 ∷ []

pub ab-CStr : CStr ab_nul ab
ab-CStr = chr (λ e. cc) (chr (λ e. cc) nul)

pub c-CStr : CStr c_nul c
c-CStr = chr (λ e. cc) nul

pub ab-Holds : Holds (of_text ab) ab
ab-Holds = of_text-Holds ab-CStr

pub c-Holds : Holds (of_text c) c
c-Holds = of_text-Holds c-CStr

-- An array with these two strings.
abbrev pub two_slots : CmonStringArray
two_slots = record { len = 2; arr = some (of_text ab) ∷ some (of_text c) ∷ replicate 48 none }

held_two :
    (i : ℕ) (x : CmonString)
    → get_elem? (of_text ab ∷ of_text c ∷ []) i ≡ some x
    → get_elem? two_slots.arr i ≡ some (some x)
held_two zero x h = ap some h
held_two (suc zero) x h = ap some h
held_two (suc (suc i)) x h = cc h

pub two_slots-Represents : Represents two_slots (of_text ab ∷ of_text c ∷ [])
two_slots-Represents = record { counted = refl; slots = refl; held = held_two }
