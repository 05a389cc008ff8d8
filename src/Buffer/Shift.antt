-- ===== src/Buffer/Shift.antt =====
-- `c_u_buffer_shift_from` in place, and the view to the end of a buffer.
use cmon.Base.{
  ℕ, ◌+◌, ◌-◌, ◌≤◌, ◌<◌, ◌≡◌, false, some, none, length, arith, ok, ltb, leb, ge→ltb, lt→ltb,
  Bool-cases, inl, inr, refl, ◌∙◌,
}
use cmon.Base.Int.{pos}
use cmon.Text.{Bytes, size_mod, sub_size}
use cmon.Mem.{Ptr, is_null, Heap, with_block}
use cmon.Buffer.{CmonBuffer, add_size, shift_in_place, shift_from, view_buffer_new, view_end}
use cmon.Buffer.Slide.{Slid, slide_from-Slid}
use cmon.Buffer.Insert.{Owns}

-- Where the buffer owns its block, the index is before the end of the contents, and the capacity is
-- enough, `c_u_buffer_shift_from` returns 0, the bytes from the index on stand `n` further, every
-- other byte of the block stays, and the length and the free space are those of the new contents.
-- This holds for the index of the last byte of the contents too, while the function's comment
-- promises -2 "if `index` refers to the last valid position".
pub shift_from-Slid :
    (h : Heap) (b : CmonBuffer) (index n : ℕ) {block : Bytes}
    → Owns h b block
    → index < b.len
    → b.len + n ≤ b.cap
    → (after : Bytes) × (shift_from (some b) index n h
        ≡ ok (
          (pos 0, some (record b { len = b.len + n; avl = b.cap - (b.len + n) })),
          with_block h b.buf.block (some after),
        ))
      × (length after ≡ b.cap)
      × Slid block after index (b.len - index) n
unfolding shift_from shift_in_place
shift_from-Slid h b index n {block} o below fits =
    let (c, run, size, slid) =
      slide_from-Slid b.buf b.len n (b.len - index) 1 index h o.held (omega arith)
        (omega (arith, o.start)) (omega arith) (omega (arith, o.start, o.sized))
        (omega (arith, o.small)) in
    let inside : leb b.len index ≡ false = ground arith in
    let roomy : ltb (sub_size b.cap b.len) n ≡ false =
      ge→ltb (sub_size b.cap b.len) n (omega (arith, o.small, o.room)) in
    let total : add_size b.len n ≡ b.len + n = omega (arith, o.small) in
    let free : sub_size b.cap (b.len + n) ≡ b.cap - (b.len + n) = omega (arith, o.small) in
    (c, rw (inside, roomy, run, total, free) refl, size ∙ o.sized, slid)

-- A view from the start of a buffer to its end, asked for by `C_U_BUFFER_VIEW_END`, is refused
-- whatever the size: the sum of the start and the length is never at most the size.
pub view_buffer_new-none :
    (buf : Ptr) (size : ℕ) (h : Heap)
    → size < size_mod - 1
    → view_buffer_new buf size 0 view_end h ≡ ok (none, h)
unfolding view_buffer_new
view_buffer_new-none buf size h small = elim (Bool-cases (is_null buf)) [
  | inl is ↦ rw is
  | inr not ↦ rw (not, lt→ltb size (add_size view_end 0) (omega arith))
]
