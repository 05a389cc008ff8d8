-- ===== src/Proxy/Manager.antt =====
-- `c_proxy_communication_manager` of src/cmon_proxy/cmon_proxy.c: a state machine that takes the
-- header of a request, over the `CmonProxyCommManager` of src/cmon_proxy/cmon_proxy.h.
pub mod Runs
mod Tests
use cmon.Base.{
  ℕ, zero, suc, ◌≤◌, ◌≡◌, Bool, true, false, Option, none, some, length, Run, ok, exited, fault,
  ◌>>=◌,
}
use cmon.Base.Int.{ℤ, pos, minus}
use cmon.Text.{Bytes}
use cmon.Mem.{Heap}
use cmon.Buffer.{CmonBuffer, buffer_empty}
use cmon.Http.View.{CmonHttpErrCodes, success}
use cmon.Http.Peek.{Peer, c_buf_recv_header}
use cmon.Sockets.{Host, get_server_connection}
use cmon.Proxy.Client.{server_port}

pub data CommState : Type 0 where
  connecting : CommState
  ended : CommState
  waiting_header : CommState
  procesing_header : CommState

pub record CmonProxyCommManager : Type 0 where
  pub state : CommState
  pub sender : ℤ
  pub receiver : ℤ
  pub data_send_size : ℕ
  pub content_length : ℕ
  pub header : Option CmonBuffer

-- How the loop stands after some rounds, beside the blocks and the connections: it still runs, with
-- what its manager is then, or it has called `exit` with a status.
pub data Looped : Type 0 where
  loops : CmonProxyCommManager → Looped
  calls_exit : ℕ → Looped

-- The calls on connections, with those that look at what has arrived.
pub record Wire : Type 1 where
  pub host : Host
  pub peek : ℤ → ℕ → host.net.World → Option Bytes × host.net.World
  pub recv : ℤ → ℕ → host.net.World → Option Bytes × host.net.World
  pub peek_size :
      (fd : ℤ) (n : ℕ) (w w' : host.net.World) (b : Bytes)
      → peek fd n w ≡ (some b, w')
      → length b ≤ n
  pub recv_size :
      (fd : ℤ) (n : ℕ) (w w' : host.net.World) (b : Bytes)
      → recv fd n w ≡ (some b, w')
      → length b ≤ n

abbrev pub peer_of : Wire → Peer
peer_of wire = record {
  World = wire.host.net.World;
  peek = wire.peek;
  recv = wire.recv;
  peek_size = wire.peek_size;
  recv_size = wire.recv_size;
}

-- What a received header makes of the manager, and the result; any other answer leaves it as it is.
unfoldable pub header_taken :
    CmonProxyCommManager → CmonHttpErrCodes × Option CmonBuffer → ℤ × CmonProxyCommManager
header_taken comm (success, header) =
    (pos 0, record comm { header = header; state = procesing_header })
header_taken comm (rc, header) = (minus 1, comm)

-- `_c_proxy_handle_proecessing_header`
unfoldable pub handle_processing_header : CmonProxyCommManager → ℤ
handle_processing_header comm = pos 0

module _ (wire : Wire) where
  abbrev pub Turning : Type 0 → Type 0
  Turning A = Run (A × Heap × wire.host.net.World)

  abbrev pub wait_in :
      CmonProxyCommManager
      → wire.host.net.World
      → Run (Option CmonBuffer × Heap)
      → Turning (CmonHttpErrCodes × Option CmonBuffer)
  wait_in comm w (ok (header, h)) = c_buf_recv_header (peer_of wire) comm.sender header h w
  wait_in comm w (exited n) = exited n
  wait_in comm w fault = fault

  -- `_c_proxy_handle_waiting_header_state`, with its argument after it.
  unfoldable pub handle_waiting_header_state :
      CmonProxyCommManager → Heap → wire.host.net.World → Turning (ℤ × CmonProxyCommManager)
  unfolding header_taken
  handle_waiting_header_state comm h w = do
    (answer, h', w') ← wait_in comm w (buffer_empty 500 h)
    ok (header_taken comm answer, h', w')

  -- A round of the loop: the branch of the `switch`.
  unfoldable pub turn :
      CommState → CmonProxyCommManager → Heap → wire.host.net.World → Turning Looped
  unfolding handle_waiting_header_state
  turn waiting_header comm h w = do
    ((rc, comm'), h', w') ← handle_waiting_header_state comm h w
    ok (loops comm', h', w')
  turn procesing_header comm h w = ok (calls_exit 0, h, w)
  turn connecting comm h w = ok (loops comm, h, w)
  turn ended comm h w = ok (loops comm, h, w)

  -- The loop, with the rounds that are looked at.
  unfoldable pub communicate :
      ℕ → CmonProxyCommManager → Heap → wire.host.net.World → Turning Looped
  unfolding turn
  communicate zero comm h w = ok (loops comm, h, w)
  communicate (suc rounds) comm h w = do
    (looped, h', w') ← turn comm.state comm h w
    elim looped [
      | loops comm' ↦ communicate rounds comm' h' w'
      | calls_exit status ↦ ok (calls_exit status, h', w')
    ]

  abbrev pub started :
      ℕ
      → ℤ
      → CmonProxyCommManager
      → Heap
      → Option (ℤ × wire.host.net.World)
      → Run (Option (Looped × Heap × wire.host.net.World))
  started rounds client comm h none = ok none
  started rounds client comm h (some (server, w)) = do
    still ←
        communicate rounds
          (record comm {
            content_length = 0;
            state = waiting_header;
            sender = client;
            receiver = server;
          })
          h w
    ok (some still)

  -- `c_proxy_communication_manager`; `comm` is what its variable holds when it starts. The result
  -- is how it stands after the rounds, and `none` where it is still connecting.
  unfoldable pub communication_manager :
      ℕ
      → ℕ
      → ℤ
      → CmonProxyCommManager
      → Heap
      → wire.host.net.World
      → Run (Option (Looped × Heap × wire.host.net.World))
  unfolding communicate
  communication_manager attempts rounds client comm h w =
      started rounds client comm h (get_server_connection wire.host attempts server_port none w)
