-- ===== src/Http/Message/Tests.antt =====
-- Runs of the functions on messages, with sockets that always give the bytes 1, 2, 3 and take all.
use cmon.Base.{
  ℕ, ◌+◌, ◌≤◌, ◌≡◌, refl, ap, Option, some, [], ◌∷◌, ◌++◌, length, take, replicate,
  length-replicate, length-take, some_inj, arith, zero, suc, ◌<◌, ok,
}
use cmon.Base.Int.{pos}
use cmon.Text.{Bytes}
use cmon.Http.Message.{Sockets, CmonHttpMessage, header, recv_header, recv_body_chunk}
use cmon.Http.{header_delim}
use cmon.Text.Search.{Occurs}
use cmon.Http.Message.Receive.{recv_header-first}
use cmon.Http.Message.Body.{recv_body_chunk-append}

abbrev three : Bytes
three = 1 ∷ 2 ∷ 3 ∷ []

abbrev given : ℕ → Option Bytes × Unit {0}
given n = (some (take n three), tt)

given-size : (n : ℕ) (w : Unit {0}) (b : Bytes) → given n ≡ (some b, w) → length b ≤ n
given-size n w b e =
    let same : take n three ≡ b = some_inj (ap (λ p. p.0) e) in
    omega (arith, ap length same, length-take n three)

abbrev echo : Sockets
echo = record {
  World = Unit {0};
  read = λ fd n w. given n;
  write = λ fd b w. (some (length b), w);
  read_size = λ fd n w w' b e. given-size n w' b e;
}

abbrev message : CmonHttpMessage
message = record {
  headers_buff = [];
  body_chunk = replicate 8192 0;
  fd = pos 4;
  headers_size = 0;
  cur_body_size = 2;
  content_length = 10;
  total_msg_size = 10;
  remaining_data = 8;
}

recv_body_chunk-append_example :
    (msg' : CmonHttpMessage) × (recv_body_chunk echo (some message) tt ≡ ok (pos 3, some msg', tt))
    × (take msg'.cur_body_size msg'.body_chunk ≡ take 2 (replicate 8192 0) ++ three)
    × (msg'.cur_body_size ≡ 5)
    × (msg'.cur_body_size + msg'.remaining_data ≡ 10)
recv_body_chunk-append_example =
    recv_body_chunk-append echo message tt tt three refl (length-replicate {A = ℕ} 8192 0)
      (omega arith) refl (omega arith) (omega arith) (omega arith)

-- A short header, its empty line, and a byte of the body.
abbrev request : Bytes
request = 120 ∷ 13 ∷ 10 ∷ 13 ∷ 10 ∷ 121 ∷ []

abbrev asked : ℕ → Option Bytes × Unit {0}
asked n = (some (take n request), tt)

asked-size : (n : ℕ) (w : Unit {0}) (b : Bytes) → asked n ≡ (some b, w) → length b ≤ n
asked-size n w b e =
    let same : take n request ≡ b = some_inj (ap (λ p. p.0) e) in
    omega (arith, ap length same, length-take n request)

abbrev client : Sockets
client = record {
  World = Unit {0};
  read = λ fd n w. asked n;
  write = λ fd b w. (some (length b), w);
  read_size = λ fd n w w' b e. asked-size n w' b e;
}

delim_first : (r : ℕ) → r < 1 → ¬ Occurs header_delim 4 request r
delim_first zero lt occ = omega (arith, some_inj (occ 0 (omega arith)))
delim_first (suc r) lt occ = absurd (omega arith)

recv_header-first_example :
    recv_header client (pos 4) (replicate 8 0) 8 tt
    ≡ ok (header 5 (120 ∷ 13 ∷ 10 ∷ 13 ∷ 10 ∷ 121 ∷ 0 ∷ 0 ∷ []) 6, tt)
recv_header-first_example =
    recv_header-first (replicate 8 0) (120 ∷ []) (121 ∷ []) (omega arith) (omega arith) delim_first
      client (pos 4) tt tt refl
