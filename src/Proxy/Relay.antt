-- ===== src/Proxy/Relay.antt =====
-- `c_proxy_send_message` of src/cmon_proxy/cmon_proxy.c: a message goes on to the receiver, and a
-- script is put in front of `</body>`. The rounds of its loop that are looked at are a bound on
-- the model.
pub mod Bodyless
pub mod Overflow
mod Tests
use cmon.Base.{
  ℕ, zero, suc, ◌+◌, ◌%◌, ◌^◌, ◌-◌, Bool, true, false, Option, none, some, [], ◌∷◌, length, drop,
  ltb, ◌==◌, if◌then◌else◌, Run, ok, fault, ◌>>=◌, of_option, min,
}
use cmon.Base.Int.{ℤ, pos, negsuc, minus}
use cmon.Text.{Bytes, size_mod, sub_size, find_pattern}
use cmon.Str.{put, strncpy}
use cmon.Str.Alloc.{Allocator}
use cmon.Http.Message.{
  Sockets, CmonHttpMessage, is_negative, send_headers, send_body_chunk, recv_body_chunk,
}

-- `</body>`
abbrev pub search_tag : Bytes
search_tag = b'<' ∷ b'/' ∷ b'b' ∷ b'o' ∷ b'd' ∷ b'y' ∷ b'>' ∷ 0 ∷ []

-- `CMON_SSE_PAYLOAD`, with its NUL byte
abbrev pub sse_payload : Bytes
sse_payload =
    60 ∷ 115 ∷ 99 ∷ 114 ∷ 105 ∷ 112 ∷ 116 ∷ 62 ∷ 10 ∷ 32 ∷ 32 ∷ 99 ∷ 111 ∷ 110 ∷ 115 ∷ 116 ∷ 32
    ∷ 101 ∷ 115 ∷ 32 ∷ 61 ∷ 32 ∷ 110 ∷ 101 ∷ 119 ∷ 32 ∷ 69 ∷ 118 ∷ 101 ∷ 110 ∷ 116 ∷ 83 ∷ 111 ∷ 117
    ∷ 114 ∷ 99 ∷ 101 ∷ 40 ∷ 34 ∷ 47 ∷ 101 ∷ 118 ∷ 101 ∷ 110 ∷ 116 ∷ 115 ∷ 34 ∷ 41 ∷ 59 ∷ 10 ∷ 32
    ∷ 32 ∷ 101 ∷ 115 ∷ 46 ∷ 111 ∷ 110 ∷ 109 ∷ 101 ∷ 115 ∷ 115 ∷ 97 ∷ 103 ∷ 101 ∷ 32 ∷ 61 ∷ 32 ∷ 40
    ∷ 41 ∷ 32 ∷ 61 ∷ 62 ∷ 32 ∷ 108 ∷ 111 ∷ 99 ∷ 97 ∷ 116 ∷ 105 ∷ 111 ∷ 110 ∷ 46 ∷ 114 ∷ 101 ∷ 108
    ∷ 111 ∷ 97 ∷ 100 ∷ 40 ∷ 41 ∷ 59 ∷ 10 ∷ 60 ∷ 47 ∷ 115 ∷ 99 ∷ 114 ∷ 105 ∷ 112 ∷ 116 ∷ 62 ∷ 10 ∷ 0
    ∷ []

-- `strnlen(CMON_SSE_PAYLOAD, 100)`, of a text of 102 bytes
abbrev pub payload_size : ℕ
payload_size = 100

-- The new chunk, with the payload behind the first `rc` bytes; nothing tests `malloc` for NULL.
unfoldable pub inject : Allocator → Bytes → ℕ → ℕ → Run Bytes
unfolding strncpy
inject mem body cur rc = do
  chunk ← of_option (mem.alloc ((cur + payload_size) % size_mod))
  front ← strncpy chunk 0 body false (sub_size rc 1)
  middle ← strncpy front rc sse_payload false payload_size
  strncpy middle (rc + 1 + payload_size) (drop rc body) false (sub_size cur rc)

-- The search across two chunks, in `buff`: does it inject?
unfoldable pub inject_across : Allocator → Bytes → Bytes → ℕ → Option ℕ → Run (Bytes × Bool)
unfolding inject
inject_across mem buff body cur none = ok (body, false)
inject_across mem buff body cur (some zero) = ok (body, false)
inject_across mem buff body cur (some (suc r)) = do
  chunk ← inject mem body cur (suc r)
  ok (chunk, true)

-- With what the search in the chunk finds: `buff`, the chunk, and whether the payload is in.
unfoldable pub inject_found : Allocator → Bytes → Bytes → ℕ → Option ℕ → Run (Bytes × Bytes × Bool)
unfolding inject_across
inject_found mem buff body cur none = do
  buff' ← strncpy buff 7 body false 6
  rc ← find_pattern (some search_tag) 7 (some buff') 12
  (chunk, done) ← inject_across mem buff' body cur rc
  ok (buff', chunk, done)
inject_found mem buff body cur (some rc) = do chunk ← inject mem body cur rc; ok (buff, chunk, true)

-- `if (payload_inyect == 0) { ... }`
unfoldable pub inject_round : Allocator → Bytes → Bytes → ℕ → Bool → Run (Bytes × Bytes × Bool)
unfolding inject_found
inject_round mem buff body cur true = ok (buff, body, true)
inject_round mem buff body cur false = do
  rc ← find_pattern (some search_tag) 7 (some body) cur
  (buff', chunk, done) ← inject_found mem buff body cur rc
  kept ← strncpy buff' 0 (drop (sub_size (sub_size cur 7) 1) chunk) false 6
  ok (kept, chunk, done)

-- A `size_t` as an `int`
abbrev pub int_of : ℕ → ℤ
int_of n = let low = n % 2 ^ 32 in if ltb low (2 ^ 31) then pos low else negsuc (2 ^ 32 - 1 - low)

-- How the function ends: its result, what it writes to `*send_size`, and the message; or it goes
-- on.
pub record Sent : Type 0 where
  pub rc : ℤ
  pub send_size : Option ℕ
  pub msg : Option CmonHttpMessage

module _ (net : Sockets) (mem : Allocator) where
  abbrev pub finish : CmonHttpMessage → ℕ → net.World → Run (Option Sent × net.World)
  finish msg total w =
      if total == msg.total_msg_size
      then ok (some (record { rc = int_of total; send_size = some total; msg = some msg }), w)
      else ok (some (record { rc = minus 1; send_size = none; msg = some msg }), w)

  -- What a round has when it goes on: `buff`, whether the payload is in, how much has been sent.
  abbrev pub Going : Type 0
  Going = Bytes × Bool × ℕ × CmonHttpMessage

  -- A round with a chunk that was received.
  unfoldable pub relay_chunk :
      ℤ → Bytes → Bool → ℕ → CmonHttpMessage → net.World → Run (ℤ × Going × net.World)
  unfolding inject_round
  relay_chunk receiver buff injected total msg w = do
    (buff', chunk, done) ← inject_round mem buff msg.body_chunk msg.cur_body_size injected
    ended ← put chunk msg.cur_body_size 0
    (rc, msg', w') ← send_body_chunk net (some (record msg { body_chunk = ended })) receiver 0 w
    msg'' ← of_option msg'
    ok (rc, (buff', done, total, msg''), w')

  abbrev pub stopped :
      ℤ → Option ℕ → Option CmonHttpMessage → net.World → Run (Option Sent × net.World)
  stopped rc size msg w = ok (some (record { rc = rc; send_size = size; msg = msg }), w)

  abbrev pub relay_sent :
      (Going → net.World → Run (Option Sent × net.World))
      → ℤ
      → Going
      → net.World
      → Run (Option Sent × net.World)
  relay_sent again (negsuc n) (buff, injected, total, msg) w = stopped (minus 1) none (some msg) w
  relay_sent again (pos n) (buff, injected, total, msg) w =
      again (buff, injected, (total + n) % size_mod, msg) w

  -- A round, with what `c_http_recv_body_chunk` answers: -1 and -2 end the loop.
  unfoldable pub relay_received :
      (Going → net.World → Run (Option Sent × net.World))
      → ℤ
      → Bytes
      → Bool
      → ℕ
      → ℤ × Option CmonHttpMessage × net.World
      → Run (Option Sent × net.World)
  unfolding relay_chunk
  relay_received again receiver buff injected total (rc, none, w) = fault
  relay_received again receiver buff injected total (negsuc zero, some msg, w) =
      stopped (minus 1) (some total) (some msg) w
  relay_received again receiver buff injected total (negsuc (suc zero), some msg, w) =
      stopped (minus 2) (some total) (some msg) w
  relay_received again receiver buff injected total (rc, some msg, w) = do
    (sent, going, w') ← relay_chunk receiver buff injected total msg w
    relay_sent again sent going w'

  -- The loop, with the rounds that are looked at; `none` where it still runs.
  unfoldable pub relay_from : ℕ → Going → ℤ → net.World → Run (Option Sent × net.World)
  unfolding relay_received
  relay_from zero going receiver w = ok (none, w)
  relay_from (suc rounds) (buff, injected, total, msg) receiver w =
      elim (ltb total msg.total_msg_size) [
        | false ↦ finish msg total w
        | true ↦ do
          answer ← recv_body_chunk net (some msg) w
          relay_received (λ going w'. relay_from rounds going receiver w') receiver buff injected
              total answer
      ]

  abbrev pub relay_headers :
      ℕ → CmonHttpMessage → ℤ → Bytes → ℤ × net.World → Run (Option Sent × net.World)
  relay_headers rounds msg receiver buff (negsuc n, w) = stopped (minus 1) (some 0) (some msg) w
  relay_headers rounds msg receiver buff (pos n, w) =
      relay_from rounds (buff, false, n, msg) receiver w

  -- `c_proxy_send_message`; `buff` is what its `malloc` of twelve bytes gives, and the loop runs at
  -- most `rounds` times.
  unfoldable pub send_message :
      ℕ → Bytes → Option CmonHttpMessage → ℤ → net.World → Run (Option Sent × net.World)
  unfolding relay_from
  send_message rounds buff none receiver w = stopped (minus 1) (some 0) none w
  send_message rounds buff (some msg) receiver w =
      if is_negative receiver then stopped (minus 1) (some 0) (some msg) w else do
        sent ← send_headers net (some msg) receiver w
        relay_headers rounds msg receiver buff sent
