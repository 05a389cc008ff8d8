-- ===== src/Http/Message/Receive.antt =====
-- `c_http_recv_header` where the first read holds the whole header.
use cmon.Base.{
  ℕ, ◌+◌, ◌≤◌, ◌<◌, ◌≡◌, refl, ap, some, [], ◌∷◌, ◌++◌, length, length-append, arith, ok, ◌>>=◌,
  ge→ltb, ne→==,
}
use cmon.Base.Int.{ℤ}
use cmon.Text.{Bytes, size_mod}
use cmon.Text.Search.{Occurs}
use cmon.Mem.Copy.{overwrite}
use cmon.Http.{header_delim}
use cmon.Http.Delim.{delim_found}
use cmon.Http.Message.{
  Sockets, header, round_end, round_read, end_of_header, recv_from, recv_header,
}

round_read-some :
    (buff bytes : Bytes) (tot : ℕ)
    → 0 < length bytes
    → tot + length bytes ≤ length buff
    → round_read buff tot (some bytes) ≡ (
        end_of_header (overwrite buff tot bytes) (tot + length bytes) >>= λ size.
        ok (round_end (overwrite buff tot bytes) (tot + length bytes) size))
unfolding round_read
round_read-some buff [] tot pos fits = absurd (omega arith)
round_read-some buff (c ∷ cs) tot pos fits =
    rw (ge→ltb (length buff) (tot + length (c ∷ cs)) fits) refl

module _ (buff head rest : Bytes) (fits : length (head ++ (header_delim ++ rest)) ≤ length buff)
    (small : length buff < size_mod)
    (first : (r : ℕ)
      → r < length head
      → ¬ Occurs header_delim 4 (head ++ (header_delim ++ rest)) r) where
  end_of_header-eq :
      end_of_header
        (overwrite buff 0 (head ++ (header_delim ++ rest)))
        (0 + length (head ++ (header_delim ++ rest)))
      ≡ ok (some (length head + 4))
  unfolding end_of_header
  end_of_header-eq =
      let bytes = head ++ (header_delim ++ rest) in
      rw (delim_found buff head rest fits small first (0 + length bytes) (omega arith)) refl

  -- Where the first read gives the whole header, up to the first empty line, and what follows it,
  -- the result is the header's length with that line, the bytes stand at the front of the buffer,
  -- and the length that was read counts them all; the buffer has less than 2 ^ 64 bytes.
  pub recv_header-first :
      (net : Sockets) (fd : ℤ) (w w' : net.World)
      → net.read fd (length buff) w ≡ (some (head ++ (header_delim ++ rest)), w')
      → recv_header net fd buff (length buff) w
        ≡ ok (
          header
              (length head + 4)
              (overwrite buff 0 (head ++ (header_delim ++ rest)))
              (0 + length (head ++ (header_delim ++ rest))),
          w',
        )
  unfolding recv_header recv_from
  recv_header-first net fd w w' answer =
      let bytes = head ++ (header_delim ++ rest) in
      let size = length-append head (header_delim ++ rest) in
      rw
        (
          ne→== (length buff) 0 (λ e. omega (arith, e, size)),
          answer,
          round_read-some buff bytes 0 (omega (arith, size)) (omega arith),
          end_of_header-eq,
        )
        (ap (λ v. ok (header (length head + 4) (overwrite buff 0 bytes) (0 + length bytes), v))
          (ap (λ p. p.1) answer))
