-- ===== src/Proxy/Client.antt =====
-- `c_proxy_handle_client` of src/cmon_proxy/cmon_proxy.c: requests go to the server and its
-- answers come back, until one side is lost. The blocks that it frees are no part of the model.

pub mod Conversation
pub mod Closed
mod Tests
use cmon.Base.{
  ℕ, zero, suc, Bool, true, false, Option, none, some, ◌==◌, if◌then◌else◌, Run, ok, fault, ◌>>=◌,
}
use cmon.Base.Int.{ℤ, pos, negsuc}
use cmon.Text.{Bytes}
use cmon.Str.Alloc.{Allocator}
use cmon.Http.Message.{CmonHttpMessage, get_message}
use cmon.Sockets.{Host, get_server_connection}
use cmon.Proxy.Relay.{Sent, send_message}

abbrev pub server_port : ℕ
server_port = 3000

-- -1 and `C_HTTP_CONNECTION_CLOSED`
abbrev pub is_lost : ℤ → Bool
is_lost (pos n) = false
is_lost (negsuc zero) = true
is_lost (negsuc (suc zero)) = true
is_lost (negsuc (suc (suc n))) = false

-- What a turn of the loop comes to: it is still relaying, it has hung up, or the next turn follows.
pub data Turn (World : Type 0) : Type 0 where
  relaying : Turn World
  hung_up : World → Turn World
  next : World → Turn World

-- `buff` is what `c_proxy_send_message` gets from its `malloc` of twelve bytes, `rounds` the
-- bound on its loop.
module _ (host : Host) (mem : Allocator) (rounds : ℕ) (buff : Bytes) (client server : ℤ) where
  abbrev pub hang_up : host.net.World → host.net.World
  hang_up w = host.close server (host.close client w)

  -- With what became of the answer to the client.
  abbrev pub answered : Option Sent × host.net.World → Run (Turn host.net.World)
  answered (none, w) = ok relaying
  answered (some sent, w) = if is_lost sent.rc then ok (hung_up (hang_up w)) else ok (next w)

  -- The server's half, with what it answers; NULL is not tested for.
  unfoldable pub respond : Option CmonHttpMessage × host.net.World → Run (Turn host.net.World)
  respond (none, w) = fault
  respond (some res, w) =
      if res.headers_size == 0
      then ok (hung_up (hang_up w))
      else do sent ← send_message host.net mem rounds buff (some res) client w; answered sent

  -- With what became of the request.
  unfoldable pub requested : Option Sent × host.net.World → Run (Turn host.net.World)
  unfolding respond
  requested (none, w) = ok relaying
  requested (some sent, w) =
      if is_lost sent.rc
      then ok (hung_up (hang_up w))
      else do answer ← get_message host.net mem server w; respond answer

  -- The client's half, with what it asks.
  unfoldable pub request : Option CmonHttpMessage × host.net.World → Run (Turn host.net.World)
  unfolding requested
  request (none, w) = ok (hung_up (hang_up w))
  request (some req, w) = do
    sent ← send_message host.net mem rounds buff (some req) server w
    requested sent

  -- A turn of the loop.
  unfoldable pub exchange : host.net.World → Run (Turn host.net.World)
  unfolding request
  exchange w = do asked ← get_message host.net mem client w; request asked

  -- The loop, with the turns that are looked at; `none` where it still runs.
  unfoldable pub serve : ℕ → host.net.World → Run (Option host.net.World)
  unfolding exchange
  serve zero w = ok none
  serve (suc turns) w = do
    turn ← exchange w
    elim turn [ relaying ↦ ok none | hung_up w' ↦ ok (some w') | next w' ↦ serve turns w' ]

abbrev pub with_server :
    (host : Host)
    → Allocator
    → ℕ
    → Bytes
    → ℤ
    → ℕ
    → Option (ℤ × host.net.World)
    → Run (Option host.net.World)
with_server host mem rounds buff client turns none = ok none
with_server host mem rounds buff client turns (some (server, w)) =
    serve host mem rounds buff client server turns w

-- `c_proxy_handle_client`, with the attempts to connect and the turns that are looked at.
unfoldable pub handle_client :
    (host : Host) → Allocator → ℕ → Bytes → ℤ → ℕ → ℕ → host.net.World → Run (Option host.net.World)
unfolding serve
handle_client host mem rounds buff client attempts turns w =
    with_server host mem rounds buff client turns
      (get_server_connection host attempts server_port none w)
