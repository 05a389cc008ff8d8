-- ===== src/Buffer/Empty.antt =====
-- `c_u_buffer_empty`, whatever `malloc` answers.
use cmon.Base.{
  ℕ, zero, suc, ◌<◌, ◌≡◌, ◌≢◌, ◌⊎◌, refl, subst, ap, ◌∙◌, inl, inr, true, false, Option, none, some,
  List, [], ◌∷◌, length, arith, ok, ◌==◌, ne→==, ==_iff, ==_self, Bool-cases, Option-cases,
}
use cmon.Text.{Bytes, size_mod}
use cmon.Mem.{
  Ptr, null, is_null, Grant, Heap, update, with_block, fill, vacant, malloc_in, malloc, free,
}
use cmon.Buffer.{CmonBuffer, buffer_struct_size, buffer_empty}
use cmon.Buffer.Insert.{Owns}

-- `malloc` gives NULL and keeps every block, or a fresh block of the size that was asked for.
pub record Fresh (n : ℕ) (h : Heap) (p : Ptr) (h' : Heap) : Type 0 where
  pub answers : malloc n h ≡ ok (p, h')
  pub start : p.off ≡ 0
  pub somewhere : p.block ≢ 0
  pub unused : h.cell p.block ≡ none
  pub bytes : Bytes
  pub sized : length bytes ≡ n
  pub adds : h'.cell ≡ update h.cell p.block (some bytes)

abbrev pub Refused : ℕ → Heap → Type 0
Refused n h = (h' : Heap) × (malloc n h ≡ ok (null, h')) × (h'.cell ≡ h.cell)

length-fill : (junk : ℕ → ℕ) (n : ℕ) → length (fill junk n) ≡ n
length-fill junk zero = refl
length-fill junk (suc n) = let rest = length-fill junk n in omega (arith, rest)

vacant-cases :
    (h : Heap) (a : ℕ) → (vacant h a ≡ false) ⊎ ((vacant h a ≡ true) × (a ≢ 0) × (h.cell a ≡ none))
vacant-cases h a = elim (Bool-cases (a == 0)) [
  | inl at_null ↦ inl (rw at_null)
  | inr other ↦ elim (Option-cases (h.cell a)) [
    | inl e ↦ inr (rw (other, e), λ same. ground arith, e)
    | inr (b, e) ↦ inl (rw (other, e))
  ]
]

malloc_in-cases :
    (gs : List Grant) (n : ℕ) (h : Heap)
    → h.supply ≡ gs
    → Refused n h ⊎ ((p : Ptr) × (h' : Heap) × Fresh n h p h')
unfolding malloc malloc_in
malloc_in-cases [] n h e = inl (h, rw e refl, refl)
malloc_in-cases (g ∷ gs) n h e = elim (vacant-cases h g.address) [
  | inl taken ↦ inl (record h { supply = gs }, rw e (rw taken refl), refl)
  | inr (room, somewhere, unused) ↦ inr (
    record { block = g.address; off = 0 },
    record { cell = update h.cell g.address (some (fill g.junk n)); supply = gs },
    record {
      answers = rw e (rw room refl);
      start = refl;
      somewhere = somewhere;
      unused = unused;
      bytes = fill g.junk n;
      sized = length-fill g.junk n;
      adds = refl;
    },
  )
]

malloc-cases : (n : ℕ) (h : Heap) → Refused n h ⊎ ((p : Ptr) × (h' : Heap) × Fresh n h p h')
malloc-cases n h = malloc_in-cases h.supply n h refl

Fresh-not_null : {n : ℕ} {h h' : Heap} {p : Ptr} → Fresh n h p h' → is_null p ≡ false
Fresh-not_null {p} f = let no = ne→== p.block 0 f.somewhere in rw no refl

-- Every block that there was is as it was.
abbrev pub Keeps : Heap → Heap → Type 0
Keeps h h' = (k : ℕ) (v : Bytes) → h.cell k ≡ some v → h'.cell k ≡ some v

Fresh-apart :
    {n : ℕ} {h h' : Heap} {p : Ptr}
    → Fresh n h p h'
    → (k : ℕ) (v : Bytes) → h.cell k ≡ some v
    → (p.block == k) ≡ false
Fresh-apart {h} {p} f k v at = elim (Bool-cases (p.block == k)) [
  | inl same ↦
      let e = (==_iff p.block k).0 same in
      let unused = f.unused in absurd (differ (at ∙ refl) (ap h.cell e) unused)
  | inr other ↦ other
]
  where
    differ : {a b : Option Bytes} {w : Bytes} → a ≡ some w → b ≡ a → b ≡ none → ⊥
    differ x y z = cc

Fresh-Keeps : {n : ℕ} {h h' : Heap} {p : Ptr} → Fresh n h p h' → Keeps h h'
Fresh-Keeps f k v at = rw f.adds (rw (Fresh-apart f k v at) at)

Fresh-cell : {n : ℕ} {h h' : Heap} {p : Ptr} (f : Fresh n h p h') → h'.cell p.block ≡ some f.bytes
Fresh-cell {p} f = rw f.adds (rw (==_self p.block) refl)

-- The two blocks of an empty buffer, in a heap that has them beside what it had.
pub record Emptied (capacity : ℕ) (h : Heap) (b : CmonBuffer) (h' : Heap) : Type 0 where
  pub block : Bytes
  pub owned : Owns h' b block
  pub capped : b.cap ≡ capacity
  pub no_len : b.len ≡ 0
  pub kept : Keeps h h'

-- `c_u_buffer_empty` never faults, whatever `malloc` answers: it gives NULL, or a buffer of
-- length 0 and of the capacity that was asked for, which owns a block of that size of its own;
-- every block that there was is as it was. For a capacity below 2 ^ 64.
pub buffer_empty-Emptied :
    (capacity : ℕ) (h : Heap)
    → capacity < size_mod
    → ((h' : Heap) × (buffer_empty capacity h ≡ ok (none, h')) × Keeps h h')
      ⊎ ((b : CmonBuffer) × (h' : Heap) × (buffer_empty capacity h ≡ ok (some b, h'))
          × Emptied capacity h b h')
unfolding buffer_empty free
buffer_empty-Emptied capacity h small = elim (malloc-cases capacity h) [
  | inl (h', e, same) ↦ inl (h', rw e refl, λ k v at. rw same at)
  | inr (p, h1, f) ↦
      let p_ok = Fresh-not_null f in
      elim (malloc-cases buffer_struct_size h1) [
        | inl (h2, e, same) ↦
            let at : h2.cell p.block ≡ some f.bytes = rw same (Fresh-cell f) in
            let start = (==_iff p.off 0).1 f.start in
            inl (
              with_block h2 p.block none,
              rw f.answers (rw p_ok (rw e (rw p_ok (rw (at, start) refl)))),
              λ k v held. rw (Fresh-apart f k v held) (rw same (Fresh-Keeps f k v held)),
            )
        | inr (self, h2, g) ↦ inr (
          record { self = self; cap = capacity; len = 0; avl = capacity; buf = p },
          h2,
          rw f.answers (rw p_ok (rw g.answers (rw (Fresh-not_null g) refl))),
          record {
            block = f.bytes;
            owned = record {
              held = Fresh-Keeps g p.block f.bytes (Fresh-cell f);
              start = f.start;
              somewhere = f.somewhere;
              sized = f.sized;
              room = omega arith;
              small = small;
            };
            capped = refl;
            no_len = refl;
            kept = λ k v at. Fresh-Keeps g k v (Fresh-Keeps f k v at);
          },
        )
      ]
]

pub Emptied-granted :
    (capacity : ℕ) (h h' : Heap) (b : CmonBuffer)
    → capacity < size_mod
    → buffer_empty capacity h ≡ ok (some b, h')
    → Emptied capacity h b h'
Emptied-granted capacity h h' b small granted = elim (buffer_empty-Emptied capacity h small) [
  | inl (h1, e, kept) ↦ absurd (cc)
  | inr (b1, h1, e, empty) ↦
      let same_b : b1 ≡ b = cc in
      let same_h : h1 ≡ h' = cc in
      subst (λ k. Emptied capacity h b k) same_h (subst (λ c. Emptied capacity h c h1) same_b empty)
]
