-- ===== src/Http/Peek.antt =====
-- `c_http_c_buf_recv_header` of src/cmon_proxy/cmon_http.c: it looks at what has arrived
-- (`c_sockets_peek` of src/cmon_proxy/cmon_sockets.h), and takes just the header from the socket.
pub mod Header
mod Tests
use cmon.Base.{
  ℕ, ◌+◌, ◌≤◌, ◌≡◌, Bool, true, false, ◌||◌, not, Option, none, some, [], ◌∷◌, length, replicate,
  ltb, ◌==◌, if◌then◌else◌, Run, ok, exited, fault,
}
use cmon.Base.Int.{ℤ, pos, negsuc}
use cmon.Text.{Bytes, find_pattern}
use cmon.Mem.{Ptr, Heap, Cmd, pure, and_then, ◌>>=◌, ◌>>◌, store}
use cmon.Mem.Copy.{overwrite}
use cmon.Buffer.{CmonBuffer, set_capacity, set_len}
use cmon.Http.{header_delim}
use cmon.Http.Buffered.{lift}
use cmon.Http.View.{
  CmonHttpErrCodes, success, header_parsing_err, recv_err, buffer_err, socket_fd_err, socket_close,
}
use cmon.Http.Message.{http_max_header_size, is_negative}

-- `recv` with MSG_PEEK and without it: an error, or at most as many bytes as were asked for; and
-- what the program does with descriptors besides.
pub record Peer : Type 1 where
  pub World : Type 0
  pub peek : ℤ → ℕ → World → Option Bytes × World
  pub recv : ℤ → ℕ → World → Option Bytes × World
  pub peek_size :
      (fd : ℤ) (n : ℕ) (w w' : World) (b : Bytes) → peek fd n w ≡ (some b, w') → length b ≤ n
  pub recv_size :
      (fd : ℤ) (n : ℕ) (w w' : World) (b : Bytes) → recv fd n w ≡ (some b, w') → length b ≤ n

-- `char peek_buf[HTTP_MAX_HEADDER_SIZE] = {0};`
unfoldable pub zeroed : ℕ → Bytes
zeroed n = replicate n 0

-- What the system writes to a buffer that it is handed.
unfoldable pub deliver : Ptr → Bytes → ℕ → Cmd (Unit {0})
deliver p [] i = pure tt
deliver p (c ∷ cs) i = do store p i c; deliver p cs (i + 1)

abbrev pub with_len : ℤ × Option CmonBuffer → CmonHttpErrCodes × Option CmonBuffer
with_len (negsuc n, b) = (buffer_err, b)
with_len (pos n, b) = (success, b)

-- The end of the function, with what `recv` answers.
unfoldable pub received : CmonBuffer → ℕ → Option Bytes → Cmd (CmonHttpErrCodes × Option CmonBuffer)
unfolding deliver set_len
received b expected none = pure (recv_err, some b)
received b expected (some bytes) = do
  deliver b.buf bytes 0
  if length bytes == expected
      then (if length bytes == 0
          then pure (socket_close, some b)
          else pure (with_len (set_len (some b) (length bytes))))
      else pure (recv_err, some b)

-- The part that makes the buffer large enough.
unfoldable pub enlarged : CmonBuffer → ℕ → Cmd (ℤ × Option CmonBuffer)
enlarged b expected =
    if ltb b.cap expected then set_capacity (some b) expected else pure (pos 0, some b)

-- Where the header ends in what was peeked.
unfoldable pub peeked_end : Bytes → Run (Option ℕ)
peeked_end bytes =
    find_pattern (some header_delim) 4 (some (overwrite (zeroed http_max_header_size) 0 bytes))
      (length bytes)

module _ (net : Peer) where
  abbrev pub Act : Type 0 → Type 0
  Act A = Heap → net.World → Run (A × Heap × net.World)

  abbrev pub beside : {A : Type 0} → net.World → Run (A × Heap) → Run (A × Heap × net.World)
  beside w (ok (a, h)) = ok (a, h, w)
  beside w (exited n) = exited n
  beside w fault = fault

  abbrev pub after_enlarged :
      ℤ → ℕ → ℤ × Option CmonBuffer → Act (CmonHttpErrCodes × Option CmonBuffer)
  after_enlarged fd expected (rc, none) h w = ok ((buffer_err, none), h, w)
  after_enlarged fd expected (pos n, some b) h w =
      if n == 0
      then (let answer = net.recv fd expected w in beside answer.1 (received b expected answer.0 h))
      else ok ((buffer_err, some b), h, w)
  after_enlarged fd expected (negsuc n, some b) h w = ok ((buffer_err, some b), h, w)

  abbrev pub take_header :
      ℤ
      → ℕ
      → Run ((ℤ × Option CmonBuffer) × Heap)
      → net.World
      → Run ((CmonHttpErrCodes × Option CmonBuffer) × Heap × net.World)
  take_header fd expected (ok (grown, h)) w = after_enlarged fd expected grown h w
  take_header fd expected (exited n) w = exited n
  take_header fd expected fault w = fault

  abbrev pub after_end :
      ℤ → CmonBuffer → Run (Option ℕ) → Act (CmonHttpErrCodes × Option CmonBuffer)
  after_end fd b (ok none) h w = ok ((header_parsing_err, some b), h, w)
  after_end fd b (ok (some e)) h w = take_header fd (e + 4) (enlarged b (e + 4) h) w
  after_end fd b (exited n) h w = exited n
  after_end fd b fault h w = fault

  abbrev pub after_peek : ℤ → CmonBuffer → Option Bytes → Act (CmonHttpErrCodes × Option CmonBuffer)
  after_peek fd b none h w = ok ((recv_err, some b), h, w)
  after_peek fd b (some []) h w = ok ((socket_close, some b), h, w)
  after_peek fd b (some (c ∷ cs)) h w = after_end fd b (peeked_end (c ∷ cs)) h w

  -- `c_http_c_buf_recv_header`, with `buf` after it.
  unfoldable pub c_buf_recv_header :
      ℤ → Option CmonBuffer → Act (CmonHttpErrCodes × Option CmonBuffer)
  unfolding received enlarged peeked_end
  c_buf_recv_header fd none h w = ok ((buffer_err, none), h, w)
  c_buf_recv_header fd (some b) h w =
      if b.cap == 0 || not (b.len == 0)
      then ok ((buffer_err, some b), h, w)
      else if is_negative fd
      then ok ((socket_fd_err, some b), h, w)
      else let answer = net.peek fd http_max_header_size w in after_peek fd b answer.0 h answer.1
