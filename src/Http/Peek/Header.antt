-- ===== src/Http/Peek/Header.antt =====
-- A header that has arrived whole, in a buffer that it fits.
use cmon.Base.{
  ℕ, ◌+◌, ◌≤◌, ◌<◌, ◌≡◌, refl, sym, ap, ◌∙◌, true, false, some, [], ◌∷◌, ◌++◌, length, take, set,
  length-append, length-set, length-replicate, arith, ok, ltb, ◌==◌, ge→ltb, ne→==, ==_iff,
}
use cmon.Base.Int.{ℤ}
use cmon.Text.{Bytes}
use cmon.Text.Search.{Occurs}
use cmon.Mem.{Ptr, Heap, with_block}
use cmon.Mem.Copy.{
  overwrite, take-overwrite, store-block, with_block_self, with_block_twice, cell-with_block_self,
}
use cmon.Buffer.{CmonBuffer, set_len}
use cmon.Buffer.Insert.{Owns}
use cmon.Http.{header_delim}
use cmon.Http.Delim.{delim_found}
use cmon.Http.Message.{http_max_header_size, is_negative}
use cmon.Http.View.{success}
use cmon.Http.Peek.{
  Peer, zeroed, deliver, received, enlarged, peeked_end, after_peek, after_end, c_buf_recv_header,
}

deliver-overwrite :
    (p : Ptr) (bytes : Bytes) (i : ℕ) (h : Heap) {b : Bytes}
    → h.cell p.block ≡ some b
    → p.off + i + length bytes ≤ length b
    → deliver p bytes i h ≡ ok (tt, with_block h p.block (some (overwrite b (p.off + i) bytes)))
unfolding deliver
deliver-overwrite p [] i h {b} e fits = ap (λ g. ok (tt, g)) (sym (with_block_self h p.block b e))
deliver-overwrite p (c ∷ cs) i h {b} e fits =
    let b' = set b (p.off + i) c in
    let h' = with_block h p.block (some b') in
    let next : p.off + (i + 1) ≡ p.off + i + 1 = omega arith in
    let rest =
      deliver-overwrite p cs (i + 1) h' (cell-with_block_self h p.block (some b'))
        (omega (arith, length-set b (p.off + i) c)) in
    rw (store-block p i c h e (omega arith)) (
      rest
      ∙ ap (λ g. ok (tt, g))
          (with_block_twice h p.block (some b') (some (overwrite b' (p.off + (i + 1)) cs)))
      ∙ ap (λ k. ok (tt, with_block h p.block (some (overwrite b' k cs)))) next)

length-zeroed : (n : ℕ) → length (zeroed n) ≡ n
unfolding zeroed
length-zeroed n = length-replicate n 0

after_peek-some :
    (net : Peer) (fd : ℤ) (b : CmonBuffer) (bytes : Bytes) (h : Heap) (w : net.World)
    → 0 < length bytes
    → after_peek net fd b (some bytes) h w ≡ after_end net fd b (peeked_end bytes) h w
after_peek-some net fd b [] h w some_byte = absurd (omega arith)
after_peek-some net fd b (c ∷ cs) h w some_byte = refl

peeked_end-eq :
    (head rest : Bytes)
    → length (head ++ (header_delim ++ rest)) ≤ http_max_header_size
    → ((r : ℕ) → r < length head → ¬ Occurs header_delim 4 (head ++ (header_delim ++ rest)) r)
    → peeked_end (head ++ (header_delim ++ rest)) ≡ ok (some (length head))
unfolding peeked_end
peeked_end-eq head rest fits first =
    let size = length-zeroed http_max_header_size in
    delim_found (zeroed http_max_header_size) head rest (omega (arith, fits, size))
      (omega (arith, size)) first (length (head ++ (header_delim ++ rest))) refl

received-eq :
    (h : Heap) (b : CmonBuffer) {block : Bytes} (bytes : Bytes) (n : ℕ)
    → Owns h b block
    → n ≡ length bytes
    → 0 < n
    → n ≤ b.cap
    → received b n (some bytes) h
      ≡ ok (
        (success, some (record b { len = n })),
        with_block h b.buf.block (some (overwrite block 0 bytes)),
      )
unfolding received set_len
received-eq h b {block} bytes n o size some_byte fits =
    let at : b.buf.off + 0 ≡ 0 = omega (arith, o.start) in
    let same : (length bytes == n) ≡ true = (==_iff (length bytes) n).1 (sym size) in
    let not_none : (length bytes == 0) ≡ false =
      ne→== (length bytes) 0 (λ e. omega (arith, e, size)) in
    let room : ltb b.cap (length bytes) ≡ false =
      ge→ltb b.cap (length bytes) (omega (arith, size)) in
    rw
      (
        deliver-overwrite b.buf bytes 0 h o.held (omega (arith, o.start, o.sized, size)),
        same,
        not_none,
        room,
        at,
        size,
      )
      refl

-- Where all of a header has arrived, with whatever follows it, and the buffer is empty and has
-- room for the header, `c_http_c_buf_recv_header` succeeds: it takes just the header from the
-- socket, up to and with its empty line, the buffer's contents are those bytes, its length is
-- theirs, and no other block changes. For less than 8192 bytes, an open descriptor, and a `recv`
-- that gives what was peeked.
pub c_buf_recv_header-whole :
    (net : Peer) (fd : ℤ) (h : Heap) (b : CmonBuffer) (head rest : Bytes) (w w1 w2 : net.World)
    {block : Bytes}
    → Owns h b block
    → b.len ≡ 0
    → is_negative fd ≡ false
    → length head + 4 ≤ b.cap
    → ((r : ℕ) → r < length head → ¬ Occurs header_delim 4 (head ++ (header_delim ++ rest)) r)
    → net.peek fd http_max_header_size w ≡ (some (head ++ (header_delim ++ rest)), w1)
    → net.recv fd (length head + 4) w1 ≡ (some (head ++ header_delim), w2)
    → (after : Bytes) × (c_buf_recv_header net fd (some b) h w
        ≡ ok (
          (success, some (record b { len = length head + 4 })),
          with_block h b.buf.block (some after),
          w2,
        ))
      × (take (length head + 4) after ≡ head ++ header_delim)
unfolding c_buf_recv_header enlarged
c_buf_recv_header-whole net fd h b head rest w w1 w2 {block} o empty valid room first peeked taken =
    let bytes = head ++ (header_delim ++ rest) in
    let header = head ++ header_delim in
    let size = length-append head header_delim in
    let all = length-append head (header_delim ++ rest) in
    let most = net.peek_size fd http_max_header_size w w1 bytes peeked in
    let got = received-eq h b header (length head + 4) o (omega (arith, size)) (omega arith) room in
    let found = peeked_end-eq head rest most first in
    let some_cap : (b.cap == 0) ≡ false = ne→== b.cap 0 (λ e. omega (arith, e)) in
    let no_len : (b.len == 0) ≡ true = (==_iff b.len 0).1 empty in
    let large : ltb b.cap (length head + 4) ≡ false = ge→ltb b.cap (length head + 4) room in
    let content = take-overwrite block 0 header (omega (arith, size, o.sized)) in
    (
      overwrite block 0 header,
      rw
          (
            some_cap,
            no_len,
            valid,
            peeked,
            after_peek-some net fd b bytes h w1 (omega (arith, all)),
            found,
            large,
          )
          (rw (taken, got) refl),
      ap (λ n. take n (overwrite block 0 header)) (omega (arith, size)) ∙ content,
    )
