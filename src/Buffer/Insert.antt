-- ===== src/Buffer/Insert.antt =====
-- `c_u_buffer_insert_at` where the new bytes fit in the buffer.
use cmon.Base.{
  ℕ, ◌+◌, ◌-◌, ◌≤◌, ◌<◌, ◌≡◌, ◌≢◌, refl, sym, ap, ◌∙◌, false, some, ◌++◌, length, get_elem?-append,
  get_elem?-take, get_elem?-drop, length-take, take, drop, ext, arith, ok, ltb, ge→ltb, ap₂, ne→==,
}
use cmon.Base.Int.{pos}
use cmon.Text.{Bytes, size_mod}
use cmon.Mem.{Ptr, is_null, Heap, with_block, copy_n, advance}
use cmon.Mem.Copy.{
  overwrite, get_elem?-overwrite, length-overwrite, copy_from-overwrite, with_block_twice,
  cell-with_block_self, cell-with_block_ne,
}
use cmon.Buffer.{CmonBuffer, add_size, insert_in_place, insert_at}
use cmon.Buffer.Slide.{Slid, slide_from-Slid}

-- The buffer owns a block of `cap` bytes, from its start on, and has its first `len` bytes in use.
pub record Owns (h : Heap) (b : CmonBuffer) (block : Bytes) : Type 0 where
  pub held : h.cell b.buf.block ≡ some block
  pub start : b.buf.off ≡ 0
  pub somewhere : b.buf.block ≢ 0
  pub sized : length block ≡ b.cap
  pub room : b.len ≤ b.cap
  pub small : b.cap < size_mod

-- What the source points to, outside the buffer: `payload`, of the length that is given.
pub record Source (h : Heap) (b : CmonBuffer) (src : Ptr) (payload : Bytes) : Type 0 where
  pub bytes : Bytes
  pub held : h.cell src.block ≡ some bytes
  pub apart : src.block ≢ b.buf.block
  pub somewhere : is_null src ≡ false
  pub inside : src.off + length payload ≤ length bytes
  pub reads : take (length payload) (drop src.off bytes) ≡ payload

copy_n-overwrite :
    (src dst : Ptr) (n room : ℕ) (h : Heap) {a b : Bytes}
    → is_null src ≡ false
    → is_null dst ≡ false
    → n ≤ room
    → src.block ≢ dst.block
    → h.cell src.block ≡ some a
    → h.cell dst.block ≡ some b
    → src.off + 0 + n ≤ length a
    → dst.off + 0 + n ≤ length b
    → copy_n src n dst room h
      ≡ ok (
        pos 0,
        with_block h dst.block (some (overwrite b (dst.off + 0) (take n (drop (src.off + 0) a)))),
      )
unfolding copy_n
copy_n-overwrite src dst n room h ns nd le ne ea eb ha hb =
    rw (ns, nd, ge→ltb room n le, copy_from-overwrite src dst n 0 h ne ea eb ha hb) refl

-- The bytes after both steps: the source stands between the two parts of what was there.
module _ (block c payload : Bytes) (index len : ℕ) (below : index ≤ len)
    (fits : len + length payload ≤ length block) (size : length c ≡ length block)
    (slid : Slid block c index (len - index) (length payload)) where
  inserted :
      take (len + length payload) (overwrite c index payload)
      ≡ take index block ++ (payload ++ drop index (take len block))
  inserted = ext _ _ λ j.
      let back : j - length (take index block) ≡ j - index =
        ap (λ k. j - k) (length-take index block ∙ omega arith) in
      let shift : index ≤ j - length payload
          → index + (j - index - length payload) ≡ j - length payload =
        λ le. omega arith in
      ground (
        arith,
        get_elem?-take (len + length payload) (overwrite c index payload) j,
        get_elem?-overwrite c index payload j,
        slid j,
        get_elem?-append (take index block) (payload ++ drop index (take len block)) j,
        get_elem?-append payload (drop index (take len block)) (j - length (take index block)),
        get_elem?-take index block j,
        get_elem?-drop index (take len block) (j - length (take index block) - length payload),
        get_elem?-take len block (index + (j - length (take index block) - length payload)),
        back,
        length-take index block,
      )

insert_in_place-eq :
    (h : Heap) (b : CmonBuffer) (src : Ptr) (index : ℕ) {block payload : Bytes}
    → Owns h b block
    → Source h b src payload
    → index ≤ b.len
    → b.len + length payload ≤ b.cap
    → (c : Bytes) × (insert_in_place b src (length payload) index h
        ≡ ok (
          (pos 0, record b { len = b.len + length payload }),
          with_block h b.buf.block (some (overwrite c index payload)),
        ))
      × (length c ≡ length block)
      × Slid block c index (b.len - index) (length payload)
unfolding insert_in_place
insert_in_place-eq h b src index {block} {payload} o s below fits =
    let n = length payload in
    let (c, run, size, slid) =
      slide_from-Slid b.buf b.len n (b.len - index) 1 index h o.held (omega arith)
        (omega (arith, o.start)) (omega arith) (omega (arith, o.start, o.sized))
        (omega (arith, o.small)) in
    let h' = with_block h b.buf.block (some c) in
    let total : add_size b.len n ≡ b.len + n = omega (arith, o.small) in
    let at : b.buf.off + index + 0 ≡ index = omega (arith, o.start) in
    let from : src.off + 0 ≡ src.off = omega arith in
    let copied =
      copy_n-overwrite src (advance b.buf index) n (b.len + n) h' s.somewhere
        (rw (ne→== b.buf.block 0 o.somewhere)) (omega arith) s.apart
        (cell-with_block_ne h b.buf.block src.block (some c) (λ e. s.apart (sym e)) ∙ s.held)
        (cell-with_block_self h b.buf.block (some c)) (omega (arith, s.inside))
        (omega (arith, o.start, o.sized, size)) in
    let written = ap₂ (overwrite c) at (ap (λ k. take n (drop k s.bytes)) from ∙ s.reads) in
    let same =
      with_block_twice h b.buf.block (some c) _
      ∙ ap (λ x. with_block h b.buf.block (some x)) written in
    let result = record b { len = b.len + n } in
    (c, rw (run, total) (rw copied (ap (λ g. ok ((pos 0, result), g)) same)), size, slid)

-- Where the buffer owns its block, the source lies outside it, the index is within the contents and
-- the capacity is enough, `c_u_buffer_insert_at` returns 0, the length grows by that of the source,
-- the contents are the bytes before the index, the source, and the bytes from the index on, and
-- the buffer still owns a block of its capacity.
pub insert_at-insert :
    (h : Heap) (b : CmonBuffer) (src : Ptr) (index : ℕ) {block payload : Bytes}
    → Owns h b block
    → Source h b src payload
    → index ≤ b.len
    → b.len + length payload ≤ b.cap
    → (after : Bytes) × (insert_at (some b) src (length payload) index h
        ≡ ok (
          (pos 0, some (record b { len = b.len + length payload })),
          with_block h b.buf.block (some after),
        ))
      × Owns
          (with_block h b.buf.block (some after))
          (record b { len = b.len + length payload })
          after
      × (take (b.len + length payload) after
          ≡ take index block ++ (payload ++ drop index (take b.len block)))
unfolding insert_at
insert_at-insert h b src index {block} {payload} o s below fits =
    let (c, run, size, slid) = insert_in_place-eq h b src index o s below fits in
    let after = overwrite c index payload in
    let kept : length after ≡ b.cap = length-overwrite c index payload ∙ size ∙ o.sized in
    let roomy : ltb b.cap (add_size b.len (length payload)) ≡ false =
      ge→ltb b.cap (add_size b.len (length payload)) (omega (arith, o.small)) in
    (
      after,
      rw (s.somewhere, ge→ltb b.len index below, roomy) (rw run refl),
      record {
        held = cell-with_block_self h b.buf.block (some after);
        start = o.start;
        somewhere = o.somewhere;
        sized = kept;
        room = fits;
        small = o.small;
      },
      inserted block c payload index b.len below (omega (arith, o.sized)) size slid,
    )
