-- ===== src/Buffer/Grow.antt =====
-- `c_u_buffer_set_capacity` where it has to grow the buffer.
use cmon.Base.{
  ℕ, ◌<◌, ◌≡◌, ◌≢◌, ◌⊎◌, inl, inr, refl, true, false, none, some, List, [], ◌∷◌, arith, ok, fault,
  leb, ◌==◌, ==_iff, ==_self, ne→==, Bool-cases,
}
use cmon.Base.Int.{ℤ, pos, minus}
use cmon.Text.{Bytes}
use cmon.Mem.{
  Grant, Ptr, is_null, Heap, with_block, update, vacant, free, resized, realloc, realloc_in,
}
use cmon.Mem.Copy.{cell-with_block_self}
use cmon.Buffer.{CmonBuffer, set_capacity}
use cmon.Buffer.Insert.{Owns}

-- The call has undefined behaviour, or it fails with -2, or the buffer that it leaves has no block.
abbrev pub Unusable : CmonBuffer → ℕ → Heap → Type 0
Unusable b min_cap h =
    (set_capacity (some b) min_cap h ≡ fault)
    ⊎ ((rc : ℤ) × (b' : CmonBuffer) × (h' : Heap) × (set_capacity (some b) min_cap h
          ≡ ok ((rc, some b'), h'))
        × ((rc ≡ minus 2) ⊎ (h'.cell b'.buf.block ≡ none)))

vacant-nonzero : (h : Heap) (a : ℕ) → vacant h a ≡ true → a ≢ 0
vacant-nonzero h a v e =
    let zero_taken : (k : ℕ) → k ≡ 0 → vacant h k ≡ false = λ k z. rw z refl in
    cc (v, zero_taken a e)

is_null-block : (p : Ptr) → p.block ≢ 0 → is_null p ≡ false
is_null-block p ne = rw (ne→== p.block 0 ne)

realloc-held :
    (h : Heap) (p : Ptr) (n : ℕ) {b : Bytes}
    → p.block ≢ 0
    → p.off ≡ 0
    → h.cell p.block ≡ some b
    → realloc p n h ≡ realloc_in h.supply p b n h
unfolding realloc
realloc-held h p n ne start e = rw (realloc, ne→== p.block 0 ne, e, (==_iff p.off 0).1 start)

free-held :
    (h : Heap) (p : Ptr) {b : Bytes}
    → p.block ≢ 0
    → p.off ≡ 0
    → h.cell p.block ≡ some b
    → free p h ≡ ok (tt, with_block h p.block none)
unfolding free
free-held h p ne start e = rw (free, ne→== p.block 0 ne, e, (==_iff p.off 0).1 start)

free-gone : (h : Heap) (p : Ptr) → p.block ≢ 0 → h.cell p.block ≡ none → free p h ≡ fault
unfolding free
free-gone h p ne e = rw (free, ne→== p.block 0 ne, e)

-- A buffer that owns its block is never left usable by a growth: `c_u_buffer_set_capacity` fails
-- with -2, or frees a block that `realloc` has freed, or frees the block that it keeps.
pub set_capacity-Unusable :
    (h : Heap) (b : CmonBuffer) (min_cap : ℕ) {block : Bytes}
    → Owns h b block
    → b.cap < min_cap
    → Unusable b min_cap h
unfolding set_capacity realloc_in
set_capacity-Unusable h b min_cap {block} o more = granted h.supply refl
  where
    k : ℕ
    k = b.buf.block

    smaller : leb min_cap b.cap ≡ false
    smaller = ground arith

    asked : realloc b.buf min_cap h ≡ realloc_in h.supply b.buf block min_cap h
    asked = realloc-held h b.buf min_cap o.somewhere o.start o.held

    granted : (gs : List Grant) → h.supply ≡ gs → Unusable b min_cap h
    granted [] e = inr (minus 2, b, h, rw (smaller, asked, e), inl refl)
    granted (g ∷ gs) e = elim (Bool-cases (g.address == k)) [
      | inl stays ↦
          let kept : Heap = record {
            cell = update h.cell k (some (resized block g.junk min_cap));
            supply = gs;
          } in
          let freed = free-held kept b.buf o.somewhere o.start (cell-with_block_self h k _) in
          inr (
            pos 0,
            record b { cap = min_cap },
            with_block kept k none,
            rw (smaller, asked, e, stays, is_null-block b.buf o.somewhere, freed),
            inr (cell-with_block_self kept k none),
          )
      | inr moves ↦ elim (Bool-cases (vacant h g.address)) [
        | inl there ↦
            let moved : Heap = record {
              cell = update (update h.cell k none) g.address (some (resized block g.junk min_cap));
              supply = gs;
            } in
            let gone : moved.cell k ≡ none = rw (moves, ==_self k) in
            inl (
              rw (
                smaller,
                asked,
                e,
                moves,
                there,
                ne→== g.address 0 (vacant-nonzero h g.address there),
                free-gone moved b.buf o.somewhere gone,
              ))
        | inr taken ↦
            inr
              (minus 2, b, record h { supply = gs }, rw (smaller, asked, e, moves, taken), inl refl)
      ]
    ]
