-- ===== src/Integers/Items.antt =====
-- The array stands for a list of integers.
use cmon.Base.{
  ℕ, zero, suc, ◌+◌, ◌≤◌, ◌<◌, ◌≡◌, refl, ap, ◌∙◌, inl, inr, false, Option, none, some, List, [],
  ◌∷◌, ◌++◌, ltb, length, set, take, get_elem?-lt, take-set, take_suc, length-set, length-append,
  arith, ok, ge→ltb, lt→ltb, Bool-cases,
}
use cmon.Base.Int.{ℤ}
use cmon.Integers.{
  CmonIntArray, int_arr_new, copy_slots, add_moved, int_arr_add, memory_increment,
  max_int_array_size,
}

-- Its first `len` slots are the list; it has as many slots as its `size` says.
pub record Represents (a : CmonIntArray) (xs : List ℤ) : Type 0 where
  pub counted : a.len ≡ length xs
  pub slots : length a.arr ≡ a.size
  pub room : a.len ≤ a.size
  pub items : take a.len a.arr ≡ xs

copy_slots-take :
    (src dst : List ℤ) (n i : ℕ)
    → i + n ≤ length src
    → i + n ≤ length dst
    → take i dst ≡ take i src
    → (out : List ℤ) × (copy_slots src dst n i ≡ ok out)
      × (length out ≡ length dst)
      × (take (i + n) out ≡ take (i + n) src)
unfolding copy_slots
copy_slots-take src dst zero i hs hd same =
    let e : i + 0 ≡ i = omega arith in (dst, refl, refl, rw e same)
copy_slots-take src dst (suc n) i hs hd same =
    let (v, ev) = get_elem?-lt src i (omega arith) in
    let next : take (i + 1) (set dst i v) ≡ take (i + 1) src =
      take-set dst i v (omega arith) ∙ ap (λ t. t ++ v ∷ []) same ∙ take_suc src i v ev in
    let (out, run, size, copied) =
      copy_slots-take src (set dst i v) n (i + 1) (omega arith) (omega (arith, length-set dst i v))
        next in
    let shift : i + 1 + n ≡ i + suc n = omega arith in
    (
      out,
      rw (ev, lt→ltb i (length dst) (omega arith)) run,
      size ∙ length-set dst i v,
      rw shift at copied,
    )

int_arr_new-some :
    (n : ℕ) (arr : List ℤ)
    → 0 < n
    → int_arr_new n (some arr) ≡ some (record { len = 0; size = n; arr = arr })
unfolding int_arr_new
int_arr_new-some zero arr pos = absurd (omega arith)
int_arr_new-some (suc n) arr pos = refl

-- `cmon_int_arr_add` below the limit returns an array of the list with the integer behind it, in
-- the slots that were there or, where these are full, in the new ones that `malloc` gives.
pub int_arr_add-append :
    {a : CmonIntArray} {xs : List ℤ} (v : ℤ) (block : List ℤ)
    → Represents a xs
    → length xs < 5000
    → length block ≡ a.size + memory_increment
    → (b : CmonIntArray) × (int_arr_add (some a) v (some block) ≡ ok (some b))
      × Represents b (xs ++ v ∷ [])
unfolding int_arr_add add_moved
int_arr_add-append {a} {xs} v block r few given =
    let below : ltb max_int_array_size (a.len + 1) ≡ false =
      ge→ltb max_int_array_size (a.len + 1) (omega (arith, r.counted)) in
    let longer = length-append xs (v ∷ []) in
    elim (Bool-cases (ltb a.size (a.len + 1))) [
      | inl full ↦
          let (out, run, size, copied) =
            copy_slots-take a.arr block a.len 0 (omega (arith, r.slots, r.room))
              (omega (arith, given, r.room)) refl in
          let kept : take a.len out ≡ xs =
            let e : 0 + a.len ≡ a.len = omega arith in (rw e at copied) ∙ r.items in
          let inside : a.len < length out = omega (arith, size, given, r.room) in
          (
            record { len = a.len + 1; size = a.size + memory_increment; arr = set out a.len v },
            rw
                (
                  below,
                  full,
                  int_arr_new-some (a.size + memory_increment) block (omega arith),
                  run,
                  lt→ltb a.len (length out) inside,
                )
                refl,
            record {
              counted = omega (arith, r.counted, longer);
              slots = length-set out a.len v ∙ size ∙ given;
              room = omega (arith, r.room);
              items = take-set out a.len v inside ∙ ap (λ t. t ++ v ∷ []) kept;
            },
          )
      | inr room ↦ (
        record a { len = a.len + 1; arr = set a.arr a.len v },
        rw (below, room, lt→ltb a.len (length a.arr) (ground (arith, r.slots))) refl,
        record {
          counted = omega (arith, r.counted, longer);
          slots = length-set a.arr a.len v ∙ r.slots;
          room = ground arith;
          items = take-set a.arr a.len v (ground (arith, r.slots)) ∙ ap (λ t. t ++ v ∷ []) r.items;
        },
      )
    ]

-- At 5000 integers it returns NULL, so that a caller that goes on with the result loses the array.
pub int_arr_add-full :
    {a : CmonIntArray} {xs : List ℤ} (v : ℤ) (block : Option (List ℤ))
    → Represents a xs
    → 5000 ≤ length xs
    → int_arr_add (some a) v block ≡ ok none
unfolding int_arr_add
int_arr_add-full {a} v block r full =
    rw (lt→ltb max_int_array_size (a.len + 1) (omega (arith, r.counted)))
