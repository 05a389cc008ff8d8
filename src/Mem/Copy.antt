-- ===== src/Mem/Copy.antt =====
-- What loads, stores and `c_u_str_copy_n` do to the block that is written.
use mathlib.Core.Path.{fun_ext}
use cmon.Base.{
  ℕ, zero, suc, ◌+◌, ◌-◌, ◌≤◌, ◌<◌, ◌≡◌, ◌≢◌, refl, sym, ap, ◌∙◌, inl, inr, ◌&&◌, Option, some, [],
  ◌∷◌, ◌++◌, length, get_elem?, get_elem?-set, get_elem?-lt, get_elem?-append, get_elem?-take,
  get_elem?-drop, length-set, length-take, length-append, take-append, append_assoc, set, take,
  drop, ext, arith, ok, ltb, leb, ◌==◌, ==_iff, ==_self, ne→==, lt→ltb, Bool-cases, some_inj,
  if◌then◌else◌,
}
use cmon.Text.{Bytes}
use cmon.Mem.{Ptr, Heap, with_block, load, store, copy_from}

-- The block `b` with `xs` written over it from position `k` on.
abbrev pub overwrite : Bytes → ℕ → Bytes → Bytes
overwrite b k [] = b
overwrite b k (x ∷ xs) = overwrite (set b k x) (k + 1) xs

pub length-overwrite : (b : Bytes) (k : ℕ) (xs : Bytes) → length (overwrite b k xs) ≡ length b
length-overwrite b k [] = refl
length-overwrite b k (x ∷ xs) = length-overwrite (set b k x) (k + 1) xs ∙ length-set b k x

pub get_elem?-overwrite :
    (b : Bytes) (k : ℕ) (xs : Bytes) (j : ℕ)
    → k + length xs ≤ length b
    → get_elem? (overwrite b k xs) j
      ≡ (if leb k j && ltb j (k + length xs) then get_elem? xs (j - k) else get_elem? b j)
get_elem?-overwrite b k [] j h = ground arith
get_elem?-overwrite b k (x ∷ xs) j h = ground (
  arith,
  get_elem?-overwrite (set b k x) (k + 1) xs j,
  get_elem?-set b k j x,
  length-set b k x,
  index_shift x xs k j,
)
  where
    index_shift :
        (x : ℕ) (xs : Bytes) (k j : ℕ)
        → k < j
        → get_elem? (x ∷ xs) (j - k) ≡ get_elem? xs (j - (k + 1))
    index_shift x xs k j lt =
        let e : j - k ≡ suc (j - (k + 1)) = omega arith in ap (get_elem? (x ∷ xs)) e

-- A write inside the block replaces just that part of it.
pub overwrite-parts :
    (b : Bytes) (k : ℕ) (xs : Bytes)
    → k + length xs ≤ length b
    → overwrite b k xs ≡ take k b ++ (xs ++ drop (k + length xs) b)
overwrite-parts b k xs h = ext _ _ λ j.
    let rest = drop (k + length xs) b in
    ground (
      arith,
      get_elem?-overwrite b k xs j,
      get_elem?-append (take k b) (xs ++ rest) j,
      get_elem?-append xs rest (j - length (take k b)),
      get_elem?-take k b j,
      get_elem?-drop (k + length xs) b (j - length (take k b) - length xs),
      length-take k b,
    )

pub take-overwrite :
    (b : Bytes) (k : ℕ) (xs : Bytes)
    → k + length xs ≤ length b
    → take (k + length xs) (overwrite b k xs) ≡ take k b ++ xs
take-overwrite b k xs h =
    let front = take k b ++ xs in
    let rest = drop (k + length xs) b in
    let size : k + length xs ≡ length front =
      omega (arith, length-append (take k b) xs, length-take k b) in
    ap (take (k + length xs)) (overwrite-parts b k xs h ∙ sym (append_assoc (take k b) xs rest))
    ∙ ap (λ n. take n (front ++ rest)) size
    ∙ take-append front rest

pub with_block_self :
    (h : Heap) (k : ℕ) (b : Bytes) → h.cell k ≡ some b → with_block h k (some b) ≡ h
with_block_self h k b e =
    ap (λ c. record h { cell = c })
      (fun_ext λ q. elim (Bool-cases (k == q)) [
        | inl here ↦ rw here (sym e ∙ ap h.cell ((==_iff k q).0 here))
        | inr there ↦ rw there
      ])

pub with_block_twice :
    (h : Heap) (k : ℕ) (b c : Option Bytes) → with_block (with_block h k b) k c ≡ with_block h k c
with_block_twice h k b c = ap (λ f. record h { cell = f }) (fun_ext λ q. ground arith)

drop-get_elem? :
    (b : Bytes) (j : ℕ) {v : ℕ} → get_elem? b j ≡ some v → drop j b ≡ v ∷ drop (j + 1) b
drop-get_elem? [] j e = cc
drop-get_elem? (x ∷ b) zero e = ap (λ y. y ∷ b) (some_inj e)
drop-get_elem? (x ∷ b) (suc j) {v} e =
    let next : suc (j + 1) ≡ suc j + 1 = omega arith in
    drop-get_elem? b j e ∙ ap (λ k. v ∷ drop k (x ∷ b)) next

-- The state in which a pointer is at the bytes of a block.
pub load-block :
    (p : Ptr) (i : ℕ) (h : Heap) {b : Bytes} {v : ℕ}
    → h.cell p.block ≡ some b
    → get_elem? b (p.off + i) ≡ some v
    → load p i h ≡ ok (v, h)
unfolding load
load-block p i h e g = rw (load, e, g)

pub store-block :
    (p : Ptr) (i v : ℕ) (h : Heap) {b : Bytes}
    → h.cell p.block ≡ some b
    → p.off + i < length b
    → store p i v h ≡ ok (tt, with_block h p.block (some (set b (p.off + i) v)))
unfolding store
store-block p i v h {b} e lt = rw (store, e, lt→ltb (p.off + i) (length b) lt)

pub cell-with_block_ne :
    (h : Heap) (k q : ℕ) (c : Option Bytes) → k ≢ q → (with_block h k c).cell q ≡ h.cell q
cell-with_block_ne h k q c ne = rw (ne→== k q ne)

pub cell-with_block_self : (h : Heap) (k : ℕ) (c : Option Bytes) → (with_block h k c).cell k ≡ c
cell-with_block_self h k c = rw (==_self k)

-- A copy between two blocks writes the bytes that it reads over the target.
pub copy_from-overwrite :
    (src dst : Ptr) (n i : ℕ) (h : Heap) {a b : Bytes}
    → src.block ≢ dst.block
    → h.cell src.block ≡ some a
    → h.cell dst.block ≡ some b
    → src.off + i + n ≤ length a
    → dst.off + i + n ≤ length b
    → copy_from src dst n i h
      ≡ ok (
        tt,
        with_block h dst.block (some (overwrite b (dst.off + i) (take n (drop (src.off + i) a)))),
      )
unfolding copy_from
copy_from-overwrite src dst zero i h {b} ne ea eb ha hb =
    ap (λ g. ok (tt, g)) (sym (with_block_self h dst.block b eb))
copy_from-overwrite src dst (suc n) i h {a} {b} ne ea eb ha hb =
    let (v, ev) = get_elem?-lt a (src.off + i) (omega arith) in
    let h' = with_block h dst.block (some (set b (dst.off + i) v)) in
    let at_src =
      cell-with_block_ne h dst.block src.block (some (set b (dst.off + i) v)) (λ e. ne (sym e))
      ∙ ea in
    let at_dst = cell-with_block_self h dst.block (some (set b (dst.off + i) v)) in
    let rest =
      copy_from-overwrite src dst n (i + 1) h' ne at_src at_dst (omega arith)
        (omega (arith, length-set b (dst.off + i) v)) in
    let target : dst.off + (i + 1) ≡ dst.off + i + 1 = omega arith in
    let source : src.off + (i + 1) ≡ src.off + i + 1 = omega arith in
    let written =
      ap (λ c. ok (tt, with_block h dst.block (some c)))
        (rw (target, source, drop-get_elem? a (src.off + i) ev)) in
    rw (load-block src i h ea ev) (
      rw (store-block dst i v h eb (omega arith))
        (rest ∙ ap (λ g. ok (tt, g)) (with_block_twice h dst.block _ _) ∙ written))
