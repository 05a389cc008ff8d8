-- ===== src/Proxy/Manager/Runs.antt =====
-- Runs of `c_proxy_communication_manager`: with a header that arrives, and with a client that has
-- gone.
use cmon.Base.{
  ℕ, zero, suc, ◌+◌, ◌≤◌, ◌<◌, ◌≡◌, refl, ap, ◌∙◌, inl, inr, true, false, none, some, [], ◌++◌,
  length, take, arith, ok, ◌==◌, ==_iff, ne→==,
}
use cmon.Base.Int.{ℤ, pos, minus}
use cmon.Text.{Bytes}
use cmon.Text.Search.{Occurs}
use cmon.Mem.{Heap, with_block}
use cmon.Buffer.{CmonBuffer, buffer_empty}
use cmon.Buffer.Empty.{Keeps, Emptied, buffer_empty-Emptied, Emptied-granted}
use cmon.Http.{header_delim}
use cmon.Http.Message.{http_max_header_size, is_negative}
use cmon.Http.Peek.{c_buf_recv_header}
use cmon.Http.Peek.Header.{c_buf_recv_header-whole}
use cmon.Sockets.{get_server_connection}
use cmon.Proxy.Client.{server_port}
use cmon.Proxy.Manager.{
  loops, calls_exit, Wire, peer_of, CmonProxyCommManager, waiting_header, procesing_header,
  header_taken, handle_waiting_header_state, turn, communicate, communication_manager,
}

module _ (wire : Wire) where
  -- One fruitless look at a connection that has been closed.
  wait-gone :
      (comm : CmonProxyCommManager) (h : Heap) (w : wire.host.net.World)
      → is_negative comm.sender ≡ false
      → wire.peek comm.sender http_max_header_size w ≡ (some [], w)
      → (h' : Heap) × (handle_waiting_header_state wire comm h w ≡ ok ((minus 1, comm), h', w))
        × Keeps h h'
  unfolding handle_waiting_header_state header_taken c_buf_recv_header
  wait-gone comm h w valid gone = elim (buffer_empty-Emptied 500 h (omega arith)) [
    | inl (h', e, kept) ↦ (h', rw e refl, kept)
    | inr (b, h', e, empty) ↦
        let cap : (b.cap == 0) ≡ false = ne→== b.cap 0 (λ q. omega (arith, q, empty.capped)) in
        let len : (b.len == 0) ≡ true = (==_iff b.len 0).1 empty.no_len in
        (h', rw e (rw (cap, len, valid, gone) refl), empty.kept)
  ]

  turn-waiting :
      (comm comm' : CmonProxyCommManager) (h h' : Heap) (w w' : wire.host.net.World) (rc : ℤ)
      → comm.state ≡ waiting_header
      → handle_waiting_header_state wire comm h w ≡ ok ((rc, comm'), h', w')
      → turn wire comm.state comm h w ≡ ok (loops comm', h', w')
  unfolding turn
  turn-waiting comm comm' h h' w w' rc waits e =
      let after : turn wire waiting_header comm h w ≡ ok (loops comm', h', w') = rw e refl in
      ap (λ s. turn wire s comm h w) waits ∙ after

  -- Where the client has closed its connection and no header has come, the loop of
  -- `c_proxy_communication_manager` never ends: after any number of rounds it still waits for the
  -- header, with the manager as it was, nothing closed, and every block that was allocated still
  -- there.
  pub communicate-gone :
      (rounds : ℕ) (comm : CmonProxyCommManager) (h : Heap) (w : wire.host.net.World)
      → comm.state ≡ waiting_header
      → is_negative comm.sender ≡ false
      → wire.peek comm.sender http_max_header_size w ≡ (some [], w)
      → (h' : Heap) × (communicate wire rounds comm h w ≡ ok (loops comm, h', w)) × Keeps h h'
  unfolding communicate
  communicate-gone zero comm h w waits valid gone = (h, refl, λ k v at. at)
  communicate-gone (suc rounds) comm h w waits valid gone =
      let (h1, e, kept) = wait-gone comm h w valid gone in
      let (h2, rest, more) = communicate-gone rounds comm h1 w waits valid gone in
      (
        h2,
        rw (turn-waiting comm comm h h1 w w (minus 1) waits e) rest,
        λ k v at. more k v (kept k v at),
      )

  -- A header that is all there ends the wait.
  wait-whole :
      (comm : CmonProxyCommManager) (h h1 : Heap) (b : CmonBuffer) (head rest : Bytes)
      (w w1 w2 : wire.host.net.World)
      → is_negative comm.sender ≡ false
      → buffer_empty 500 h ≡ ok (some b, h1)
      → Emptied 500 h b h1
      → length head + 4 ≤ 500
      → ((r : ℕ) → r < length head → ¬ Occurs header_delim 4 (head ++ (header_delim ++ rest)) r)
      → wire.peek comm.sender http_max_header_size w ≡ (some (head ++ (header_delim ++ rest)), w1)
      → wire.recv comm.sender (length head + 4) w1 ≡ (some (head ++ header_delim), w2)
      → (after : Bytes) × (handle_waiting_header_state wire comm h w
          ≡ ok (
            (
              pos 0,
              record comm {
                header = some (record b { len = length head + 4 });
                state = procesing_header;
              },
            ),
            with_block h1 b.buf.block (some after),
            w2,
          ))
        × (take (length head + 4) after ≡ head ++ header_delim)
  unfolding handle_waiting_header_state header_taken
  wait-whole comm h h1 b head rest w w1 w2 valid granted empty fits first peeked taken =
      let (after, e, content) =
        c_buf_recv_header-whole (peer_of wire) comm.sender h1 b head rest w w1 w2 empty.owned
          empty.no_len valid (omega (arith, fits, empty.capped)) first peeked taken in
      (after, rw granted (rw e refl), content)

-- The manager of a connection when it has the client's header, which it keeps in `header`.
abbrev pub holding : CmonProxyCommManager → ℤ → ℤ → CmonBuffer → CmonProxyCommManager
holding comm client server header = record comm {
  content_length = 0;
  state = procesing_header;
  sender = client;
  receiver = server;
  header = some header;
}

-- The first request whose header arrives whole ends the whole process, with the exit code 0, and
-- no byte of it is passed on to the server. `c_proxy_communication_manager` connects to the
-- server and after one round it has taken the header: its state is that of a header to be processed,
-- and the buffer that it keeps holds the header with its empty line. The round after that calls
-- `exit`, and till then the last call on the connections is the `recv` from the client that took the
-- header, so that nothing has been written. For a server that can be reached, a header of at most
-- 500 bytes with its empty line, an open descriptor, a `recv` that gives what was peeked, and where
-- `malloc` does not fail.
pub communication_manager-exits :
    (wire : Wire) (attempts rounds : ℕ) (client server : ℤ) (comm : CmonProxyCommManager)
    (h h1 : Heap) (b : CmonBuffer) (head rest : Bytes) (w w0 w1 w2 : wire.host.net.World)
    → get_server_connection wire.host attempts server_port none w ≡ some (server, w0)
    → is_negative client ≡ false
    → buffer_empty 500 h ≡ ok (some b, h1)
    → length head + 4 ≤ 500
    → ((r : ℕ) → r < length head → ¬ Occurs header_delim 4 (head ++ (header_delim ++ rest)) r)
    → wire.peek client http_max_header_size w0 ≡ (some (head ++ (header_delim ++ rest)), w1)
    → wire.recv client (length head + 4) w1 ≡ (some (head ++ header_delim), w2)
    → (after : Bytes) × (communication_manager wire attempts 1 client comm h w
        ≡ ok (
            some (
              loops (holding comm client server (record b { len = length head + 4 })),
              with_block h1 b.buf.block (some after),
              w2,
            )))
      × (take (length head + 4) after ≡ head ++ header_delim)
      × (communication_manager wire attempts (suc (suc rounds)) client comm h w
          ≡ ok (some (calls_exit 0, with_block h1 b.buf.block (some after), w2)))
unfolding communication_manager communicate turn
communication_manager-exits wire attempts rounds client server comm h h1 b head rest w w0 w1 w2
      found valid granted fits first peeked taken =
    let comm' = record comm {
      content_length = 0;
      state = waiting_header;
      sender = client;
      receiver = server;
    } in
    let empty = Emptied-granted 500 h h1 b (omega arith) granted in
    let (after, e, content) =
      wait-whole wire comm' h h1 b head rest w0 w1 w2 valid granted empty fits first peeked taken in
    let one =
      turn-waiting wire comm' _ h (with_block h1 b.buf.block (some after)) w0 w2 (pos 0) refl e in
    (after, rw found (rw one refl), content, rw found (rw one refl))
