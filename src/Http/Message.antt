-- ===== src/Http/Message.antt =====
-- Messages that are received and sent: the second half of src/cmon_proxy/cmon_http.c, over the
-- socket calls of the C library. `cur_body_size` is the bit pattern of its `ssize_t`.
pub mod Body
pub mod Receive
pub mod Whole
mod Tests
use cmon.Base.{
  ℕ, zero, suc, ◌+◌, ◌-◌, ◌%◌, ◌^◌, ◌&&◌, ◌≤◌, ◌≡◌, Bool, true, false, Option, none, some, [], ◌∷◌,
  leb, ltb, ◌==◌, if◌then◌else◌, length, take, Run, ok, fault, ◌>>=◌,
}
use cmon.Base.Int.{ℤ, pos, negsuc, minus}
use cmon.Text.{Bytes, size_mod, sub_size, find_pattern}
use cmon.Str.Alloc.{Allocator}
use cmon.Mem.Copy.{overwrite}
use cmon.Http.{header_delim, slice, get_content_length}

-- `read` and `write` on descriptors: an error, or the bytes that were read, at most as many as were
-- asked for; an error, or how many bytes were written.
pub record Sockets : Type 1 where
  pub World : Type 0
  pub read : ℤ → ℕ → World → Option Bytes × World
  pub write : ℤ → Bytes → World → Option ℕ × World
  pub read_size :
      (fd : ℤ) (n : ℕ) (w w' : World) (b : Bytes) → read fd n w ≡ (some b, w') → length b ≤ n

abbrev pub http_max_header_size : ℕ
http_max_header_size = 8192

abbrev pub http_max_body_chunk : ℕ
http_max_body_chunk = 8192

abbrev pub lf_delim : Bytes
lf_delim = 10 ∷ 10 ∷ []

-- `sizeof(CmonHttpMessage)`
abbrev pub message_struct_size : ℕ
message_struct_size = 8248

abbrev pub is_negative : ℤ → Bool
is_negative (pos n) = false
is_negative (negsuc n) = true

pub record CmonHttpMessage : Type 0 where
  pub headers_buff : Bytes
  pub body_chunk : Bytes
  pub fd : ℤ
  pub headers_size : ℕ
  pub cur_body_size : ℕ
  pub content_length : ℕ
  pub total_msg_size : ℕ
  pub remaining_data : ℕ

-- What `c_http_recv_header` returns: -1, or the length of the header, with `buff` and `*read_len`.
pub data Received : Type 0 where
  failed : Received
  closed : Bytes → ℕ → Received
  header : ℕ → Bytes → ℕ → Received

-- Where the header ends, once `tot_size` bytes have been read; both delimiters count as four bytes.
unfoldable pub end_of_header : Bytes → ℕ → Run (Option ℕ)
end_of_header buff tot_size = do
  at_crlf ← find_pattern (some header_delim) 4 (some buff) tot_size
  elim at_crlf [
    | some p ↦ ok (some (p + 4))
    | none ↦ do
      at_lf ← find_pattern (some lf_delim) 2 (some buff) tot_size
      elim at_lf [ some p ↦ ok (some (p + 4)) | none ↦ ok none ]
  ]

-- A round of the loop of `c_http_recv_header`: it returns, or goes on with a longer buffer.
pub data Round : Type 0 where
  done : Received → Round
  again : Bytes → ℕ → Round

abbrev pub round_end : Bytes → ℕ → Option ℕ → Round
round_end buff tot_size none = again buff tot_size
round_end buff tot_size (some size) = done (header size buff tot_size)

-- What a round does with the answer of `read`.
unfoldable pub round_read : Bytes → ℕ → Option Bytes → Run Round
unfolding end_of_header
round_read buff tot_size none = ok (done failed)
round_read buff tot_size (some []) = ok (done (closed buff tot_size))
round_read buff tot_size (some (c ∷ cs)) =
    let buff' = overwrite buff tot_size (c ∷ cs) in
    let tot_size' = tot_size + length (c ∷ cs) in
    if ltb (length buff) tot_size'
    then fault
    else do size ← end_of_header buff' tot_size'; ok (round_end buff' tot_size' size)

-- The copy of what was read past the header into the chunk of the body.
abbrev pub move_excess : Bytes → Bytes → ℕ → ℕ → Run Bytes
move_excess buff chunk size total = do
  excess ← slice buff size (total - size)
  if leb (length excess) (length chunk) then ok (overwrite chunk 0 excess) else fault

-- The message of `c_http_get_message`, once its content length is known.
abbrev pub message_of : ℤ → Bytes → Bytes → ℕ → ℕ → ℤ → Option CmonHttpMessage
message_of fd buff chunk size total (negsuc n) = none
message_of fd buff chunk size total (pos content_length) = some (record {
  headers_buff = buff;
  body_chunk = chunk;
  fd = fd;
  headers_size = size;
  cur_body_size = sub_size total size;
  content_length = content_length;
  total_msg_size = (size + content_length) % size_mod;
  remaining_data = sub_size ((size + content_length) % size_mod) total;
})

unfoldable pub received_message : ℤ → Bytes → Received → Run (Option CmonHttpMessage)
received_message fd chunk failed = ok none
received_message fd chunk (closed buff total) = ok none
received_message fd chunk (header size buff total) = do
  chunk' ← move_excess buff chunk size total
  content_length ← get_content_length buff size
  ok (message_of fd buff chunk' size total content_length)

module _ (net : Sockets) where
  -- The loop of `c_http_recv_header`, with the rounds left: each round reads at least a byte, so
  -- one more than `buff_len` is enough.
  unfoldable pub recv_from : ℕ → ℤ → Bytes → ℕ → ℕ → net.World → Run (Received × net.World)
  unfolding round_read
  recv_from zero fd buff tot_size buff_len w = fault
  recv_from (suc fuel) fd buff tot_size buff_len w = if buff_len == 0 then ok (failed, w) else do
    let answer = net.read fd buff_len w
    round ← round_read buff tot_size answer.0
    elim round [
      | done r ↦ ok (r, answer.1)
      | again buff' tot_size' ↦
          recv_from fuel fd buff' tot_size' (buff_len - (tot_size' - tot_size)) answer.1
    ]

  -- `c_http_recv_header`
  unfoldable pub recv_header : ℤ → Bytes → ℕ → net.World → Run (Received × net.World)
  unfolding recv_from
  recv_header fd buff buff_len w = recv_from (suc buff_len) fd buff 0 buff_len w

  abbrev pub recv_message :
      ℤ → Option Bytes → Option Bytes → net.World → Run (Option CmonHttpMessage × net.World)
  recv_message fd none chunk w = ok (none, w)
  recv_message fd (some m) none w = ok (none, w)
  recv_message fd (some m) (some chunk) w = do
    (received, w') ← recv_header fd (take http_max_header_size m) http_max_header_size w
    msg ← received_message fd chunk received
    ok (msg, w')

  -- `c_http_get_message`
  unfoldable pub get_message : Allocator → ℤ → net.World → Run (Option CmonHttpMessage × net.World)
  unfolding recv_header received_message
  get_message mem fd w =
      if is_negative fd
      then ok (none, w)
      else recv_message fd (mem.alloc message_struct_size) (mem.alloc http_max_body_chunk) w

  -- The end of a function that wrote `size` bytes of a buffer: all of them, or -1.
  abbrev pub written : ℕ → Option ℕ → ℤ
  written size none = minus 1
  written size (some n) = if n == size then pos n else minus 1

  -- `c_http_send_headers`
  unfoldable pub send_headers : Option CmonHttpMessage → ℤ → net.World → Run (ℤ × net.World)
  send_headers none fd w = ok (minus 1, w)
  send_headers (some msg) fd w = do
    bytes ← slice msg.headers_buff 0 msg.headers_size
    let answer = net.write fd bytes w
    ok (written msg.headers_size answer.0, answer.1)

  abbrev pub flushed : ℕ → ℤ → CmonHttpMessage → CmonHttpMessage
  flushed op (negsuc n) msg = msg
  flushed op (pos n) msg = if op == 0 then record msg { cur_body_size = 0 } else msg

  -- `c_http_send_body_chunk`, with the message after it.
  unfoldable pub send_body_chunk :
      Option CmonHttpMessage → ℤ → ℕ → net.World → Run (ℤ × Option CmonHttpMessage × net.World)
  send_body_chunk none receiver op w = ok (minus 1, none, w)
  send_body_chunk (some msg) receiver op w =
      if is_negative receiver then ok (minus 1, some msg, w) else do
        bytes ← slice msg.body_chunk 0 msg.cur_body_size
        let answer = net.write receiver bytes w
        let rc = written msg.cur_body_size answer.0
        ok (rc, some (flushed op rc msg), answer.1)

  -- What `c_http_recv_body_chunk` does with the answer of `read`.
  abbrev pub chunk_read : CmonHttpMessage → Option Bytes → Run (ℤ × CmonHttpMessage)
  chunk_read msg none = ok (minus 1, msg)
  chunk_read msg (some bytes) =
      if ltb (length msg.body_chunk) (msg.cur_body_size + length bytes)
      then fault
      else ok (
        pos (length bytes),
        record msg {
          body_chunk = overwrite msg.body_chunk msg.cur_body_size bytes;
          remaining_data = sub_size msg.remaining_data (length bytes);
          cur_body_size = msg.cur_body_size + length bytes;
        },
      )

  -- `c_http_recv_body_chunk`
  unfoldable pub recv_body_chunk :
      Option CmonHttpMessage → net.World → Run (ℤ × Option CmonHttpMessage × net.World)
  recv_body_chunk none w = ok (minus 1, none, w)
  recv_body_chunk (some msg) w =
      if is_negative msg.fd
      then ok (minus 2, some msg, w)
      else if leb http_max_body_chunk msg.cur_body_size && ltb msg.cur_body_size (2 ^ 63)
      then ok (minus 3, some msg, w)
      else if msg.remaining_data == 0
      then ok (minus 4, some msg, w)
      else do
        let answer = net.read msg.fd (sub_size http_max_body_chunk msg.cur_body_size) w
        (rc, msg') ← chunk_read msg answer.0
        ok (rc, some msg', answer.1)
