-- ===== src/Http/Message/Body.antt =====
-- Receiving and sending the body of a message.
use cmon.Base.{
  ℕ, ◌+◌, ◌-◌, ◌≤◌, ◌<◌, ◌≡◌, ◌≢◌, refl, false, some, ◌++◌, length, take, arith, ok, ltb, leb,
  ge→ltb, le→leb, ne→==, ==_self,
}
use cmon.Base.Int.{ℤ, pos, minus}
use cmon.Text.{Bytes, size_mod, sub_size}
use cmon.Mem.Copy.{overwrite, take-overwrite}
use cmon.Http.Message.{
  Sockets, CmonHttpMessage, is_negative, recv_body_chunk, send_body_chunk, http_max_body_chunk,
}

-- Where the descriptor is not negative, the chunk has room and the message is not yet complete, what
-- a read gives, of at most the bytes that remain, is appended to the chunk: the result is how many
-- bytes were read, they stand behind those that were there, and the two counts move by it, so that
-- their sum is kept. So it is too where the peer has closed the connection and the read gives no
-- bytes: the result is then 0, and not the `C_HTTP_CONNECTION_CLOSED` that the function's comment
-- promises.
pub recv_body_chunk-append :
    (net : Sockets) (msg : CmonHttpMessage) (w w' : net.World) (bytes : Bytes)
    → is_negative msg.fd ≡ false
    → length msg.body_chunk ≡ http_max_body_chunk
    → msg.cur_body_size < http_max_body_chunk
    → net.read msg.fd (http_max_body_chunk - msg.cur_body_size) w ≡ (some bytes, w')
    → 0 < msg.remaining_data
    → length bytes ≤ msg.remaining_data
    → msg.remaining_data < size_mod
    → (msg' : CmonHttpMessage) × (recv_body_chunk net (some msg) w
        ≡ ok (pos (length bytes), some msg', w'))
      × (take msg'.cur_body_size msg'.body_chunk ≡ take msg.cur_body_size msg.body_chunk ++ bytes)
      × (msg'.cur_body_size ≡ msg.cur_body_size + length bytes)
      × (msg'.cur_body_size + msg'.remaining_data ≡ msg.cur_body_size + msg.remaining_data)
unfolding recv_body_chunk
recv_body_chunk-append net msg w w' bytes connected whole room answer more within small =
    let n = length bytes in
    let asked : sub_size http_max_body_chunk msg.cur_body_size
        ≡ http_max_body_chunk - msg.cur_body_size =
      omega arith in
    let most = net.read_size msg.fd (http_max_body_chunk - msg.cur_body_size) w w' bytes answer in
    let fits : ltb (length msg.body_chunk) (msg.cur_body_size + n) ≡ false =
      ge→ltb (length msg.body_chunk) (msg.cur_body_size + n) (omega (arith, most, whole)) in
    let not_full : leb http_max_body_chunk msg.cur_body_size ≡ false = ground arith in
    let after = overwrite msg.body_chunk msg.cur_body_size bytes in
    (
      record msg {
        body_chunk = after;
        remaining_data = sub_size msg.remaining_data n;
        cur_body_size = msg.cur_body_size + n;
      },
      rw
          (
            connected,
            not_full,
            ne→== msg.remaining_data 0 (λ e. omega (arith, e)),
            asked,
            answer,
            fits,
          )
          refl,
      take-overwrite msg.body_chunk msg.cur_body_size bytes (omega (arith, most, whole)),
      refl,
      omega arith,
    )

-- A chunk that is sent whole: the result is its size, and with `op` 0 the chunk is empty after it.
pub send_body_chunk-flush :
    (net : Sockets) (msg : CmonHttpMessage) (receiver : ℤ) (w w' : net.World)
    → is_negative receiver ≡ false
    → msg.cur_body_size ≤ length msg.body_chunk
    → net.write receiver (take msg.cur_body_size msg.body_chunk) w ≡ (some msg.cur_body_size, w')
    → send_body_chunk net (some msg) receiver 0 w
      ≡ ok (pos msg.cur_body_size, some (record msg { cur_body_size = 0 }), w')
unfolding send_body_chunk
send_body_chunk-flush net msg receiver w w' valid inside answer =
    rw
      (
        valid,
        le→leb (0 + msg.cur_body_size) (length msg.body_chunk) (omega arith),
        answer,
        ==_self msg.cur_body_size,
      )
      refl

-- A chunk that is not sent whole: the result is -1, and the message stays as it was.
pub send_body_chunk-short :
    (net : Sockets) (msg : CmonHttpMessage) (receiver : ℤ) (op n : ℕ) (w w' : net.World)
    → is_negative receiver ≡ false
    → msg.cur_body_size ≤ length msg.body_chunk
    → net.write receiver (take msg.cur_body_size msg.body_chunk) w ≡ (some n, w')
    → n ≢ msg.cur_body_size
    → send_body_chunk net (some msg) receiver op w ≡ ok (minus 1, some msg, w')
unfolding send_body_chunk
send_body_chunk-short net msg receiver op n w w' valid inside answer short =
    rw
      (
        valid,
        le→leb (0 + msg.cur_body_size) (length msg.body_chunk) (omega arith),
        answer,
        ne→== n msg.cur_body_size short,
      )
      refl
