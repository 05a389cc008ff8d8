-- ===== src/Sockets/Connect.antt =====
-- `c_sockets_get_server_connection` where the server refuses some attempts before it accepts one.
use cmon.Base.{ℕ, zero, suc, ◌+◌, ◌≡◌, refl, true, false, Option, some, arith}
use cmon.Base.Int.{pos}
use cmon.Text.{Bytes}
use cmon.Sockets.{Host, try_connect, get_server_connection, address_of}

-- So many attempts that are refused, each on a socket of its own, which is closed.
pub data Refused (host : Host) (ip : Bytes) (port : ℕ)
    : ℕ → host.net.World → host.net.World → Type 0 where
  none_yet : {w : host.net.World} → Refused host ip port zero w w
  refused :
      {n fd : ℕ} {w opened answered last : host.net.World}
      → host.socket w ≡ (pos fd, opened)
      → host.connect (pos fd) ip port opened ≡ (false, answered)
      → Refused host ip port n (host.close (pos fd) answered) last
      → Refused host ip port (suc n) w last

module _ (host : Host) (ip : Bytes) (port : ℕ) where
  try_connect-Refused :
      {n fd : ℕ} (more : ℕ) {w last opened done : host.net.World}
      → Refused host ip port n w last
      → host.socket last ≡ (pos fd, opened)
      → host.connect (pos fd) ip port opened ≡ (true, done)
      → try_connect host (n + suc more) ip port w ≡ some (pos fd, done)
  unfolding try_connect
  try_connect-Refused more none_yet s c =
      let e : 0 + suc more ≡ suc more = omega arith in rw e (rw (s, c) refl)
  try_connect-Refused more (refused {n} s' c' r) s c =
      let e : suc n + suc more ≡ suc (n + suc more) = omega arith in
      rw e (rw (s', c') (try_connect-Refused more r s c))

  -- `c_sockets_get_server_connection` gives the socket of the first attempt that the server
  -- accepts, each refused one before it closed, as soon as it looks at one attempt more than were
  -- refused; where no call of `socket` fails.
  pub get_server_connection-Refused :
      {n fd : ℕ} (more : ℕ) (addr : Option Bytes) {w last opened done : host.net.World}
      → address_of host addr ≡ ip
      → Refused host ip port n w last
      → host.socket last ≡ (pos fd, opened)
      → host.connect (pos fd) ip port opened ≡ (true, done)
      → get_server_connection host (n + suc more) port addr w ≡ some (pos fd, done)
  unfolding get_server_connection
  get_server_connection-Refused more addr at r s c = rw (at, try_connect-Refused more r s c) refl
