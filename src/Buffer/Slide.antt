-- ===== src/Buffer/Slide.antt =====
-- The loop that makes room inside a buffer: it moves the tail of the contents up, last byte first.
use cmon.Base.{
  ℕ, zero, suc, ◌+◌, ◌-◌, ◌≤◌, ◌<◌, ◌≡◌, refl, sym, ap, ◌∙◌, ◌&&◌, some, length, get_elem?,
  get_elem?-set, get_elem?-lt, length-set, set, arith, ok, ltb, leb, ◌==◌, if◌then◌else◌,
  Bool-cases, ==_iff, inl, inr,
}
use cmon.Text.{Bytes, size_mod}
use cmon.Mem.{Ptr, Heap, with_block}
use cmon.Mem.Copy.{load-block, store-block, with_block_self, with_block_twice, cell-with_block_self}
use cmon.Buffer.{add_size, slide_from}

-- The bytes of `c` are those of `b`, but from `lo` on `k` of them stand `n` further.
abbrev pub Slid : Bytes → Bytes → ℕ → ℕ → ℕ → Type 0
Slid b c lo k n =
    (j : ℕ)
    → get_elem? c j
      ≡ (if leb (lo + n) j && ltb j (lo + k + n) then get_elem? b (j - n) else get_elem? b j)

-- One more byte, moved first.
Slid-suc :
    (b c : Bytes) (lo k n v : ℕ)
    → get_elem? b (lo + k) ≡ some v
    → lo + k + n < length b
    → Slid (set b (lo + k + n) v) c lo k n
    → Slid b c lo (suc k) n
Slid-suc b c lo k n v e room s j = elim (Bool-cases (lo + k + n == j)) [
  | inl here ↦
      let same = (==_iff (lo + k + n) j).0 here in
      let back : j - n ≡ lo + k = omega (arith, same) in
      ground (arith, s j, get_elem?-set b (lo + k + n) j v, same, e, ap (get_elem? b) back)
  | inr there ↦
      ground (arith, s j, get_elem?-set b (lo + k + n) j v, get_elem?-set b (lo + k + n) (j - n) v)
]

pub slide_from-Slid :
    (p : Ptr) (len n k i lo : ℕ) (h : Heap) {b : Bytes}
    → h.cell p.block ≡ some b
    → 1 ≤ i
    → lo + k + i ≡ p.off + len + 1
    → i + k ≤ len + 1
    → p.off + len + n ≤ length b
    → len + n < size_mod
    → (c : Bytes) × (slide_from p len n k i h ≡ ok (tt, with_block h p.block (some c)))
      × (length c ≡ length b)
      × Slid b c lo k n
unfolding slide_from
slide_from-Slid p len n zero i lo h {b} e pos at in_len fits small =
    (b, ap (λ g. ok (tt, g)) (sym (with_block_self h p.block b e)), refl, λ j. ground arith)
slide_from-Slid p len n (suc k) i lo h {b} e pos at in_len fits small =
    let from : p.off + (len - i) ≡ lo + k = omega (arith, at) in
    let to : p.off + add_size (len - i) n ≡ lo + k + n = omega (arith, at) in
    let (v, ev) = get_elem?-lt b (lo + k) (omega arith) in
    let b' = set b (lo + k + n) v in
    let h' = with_block h p.block (some b') in
    let (c, run, size, slid) =
      slide_from-Slid p len n k (i + 1) lo h' (cell-with_block_self h p.block (some b'))
        (omega arith) (omega arith) (omega arith) (omega (arith, length-set b (lo + k + n) v))
        small in
    (
      c,
      rw (load-block p (len - i) h e (ap (get_elem? b) from ∙ ev)) (
          rw (store-block p (add_size (len - i) n) v h e (omega arith))
            (rw to (run ∙ ap (λ g. ok (tt, g)) (with_block_twice h p.block (some b') (some c))))),
      size ∙ length-set b (lo + k + n) v,
      Slid-suc b c lo k n v ev (omega arith) slid,
    )
