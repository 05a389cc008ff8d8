-- ===== src/Proxy/Relay/Bodyless.antt =====
-- A message that is all header.
use cmon.Base.{
  ℕ, suc, ◌+◌, ◌≤◌, ◌<◌, ◌≡◌, refl, false, some, take, length, arith, ok, le→leb, ge→ltb, lt→ltb,
  ◌%◌, ◌^◌, ==_self,
}
use cmon.Base.Int.{ℤ, pos}
use cmon.Text.{Bytes}
use cmon.Str.Alloc.{Allocator}
use cmon.Http.Message.{Sockets, CmonHttpMessage, is_negative, send_headers}
use cmon.Proxy.Relay.{int_of, relay_from, send_message}

int_of-small : (n : ℕ) → n < 2 ^ 31 → int_of n ≡ pos n
int_of-small n small = let low : n % 2 ^ 32 ≡ n = omega arith in rw (low, lt→ltb n (2 ^ 31) small)

-- A message without a body is passed on with one `write` of exactly its header, whatever the
-- bound on the rounds: when the socket takes all of it, `c_proxy_send_message` returns the
-- message's size, and puts it in `*send_size`. The receiver is a descriptor, and the header is
-- within its buffer and of less than 2 ^ 31 bytes.
pub send_message-bodyless :
    (net : Sockets) (mem : Allocator) (rounds : ℕ) (buff : Bytes) (msg : CmonHttpMessage)
    (receiver : ℤ) (w w' : net.World)
    → is_negative receiver ≡ false
    → msg.headers_size ≤ length msg.headers_buff
    → msg.headers_size < 2 ^ 31
    → msg.total_msg_size ≡ msg.headers_size
    → net.write receiver (take msg.headers_size msg.headers_buff) w ≡ (some msg.headers_size, w')
    → send_message net mem (suc rounds) buff (some msg) receiver w
      ≡ ok (
        some (record {
          rc = pos msg.total_msg_size;
          send_size = some msg.total_msg_size;
          msg = some msg;
        }),
        w',
      )
unfolding send_message relay_from send_headers
send_message-bodyless net mem rounds buff msg receiver w w' valid held small bodyless sent =
    let fits = le→leb (0 + msg.headers_size) (length msg.headers_buff) (omega arith) in
    let end = ge→ltb msg.headers_size msg.headers_size (omega arith) in
    let all = ==_self msg.headers_size in
    let same = int_of-small msg.headers_size small in
    rw (valid, fits) (rw sent (rw all (rw bodyless (rw (relay_from, end, all, same) refl))))
