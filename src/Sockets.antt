-- ===== src/Sockets.antt =====
-- Connections: src/cmon_proxy/cmon_sockets.c, over the socket calls of the C library. A
-- descriptor is an integer, negative where the call failed. `listener_addr` and `server_addr` are
-- the port and the address that the code puts there; the log is left out.
pub mod Connect
mod Tests
use cmon.Base.{ℕ, zero, suc, Bool, true, false, Option, none, some, if◌then◌else◌, [], ◌∷◌}
use cmon.Base.Int.{ℤ, pos, negsuc, minus}
use cmon.Text.{Bytes}
use cmon.Http.Message.{Sockets, is_negative}

-- The calls that make and end connections, beside those that read and write: do they succeed?
pub record Host : Type 1 where
  pub net : Sockets
  pub socket : net.World → ℤ × net.World
  pub bind : ℤ → ℕ → net.World → Bool × net.World
  pub listen : ℤ → net.World → Bool × net.World
  pub connect : ℤ → Bytes → ℕ → net.World → Bool × net.World
  pub close : ℤ → net.World → net.World

-- `127.0.0.1`
abbrev pub localhost : Bytes
localhost = b'1' ∷ b'2' ∷ b'7' ∷ b'.' ∷ b'0' ∷ b'.' ∷ b'0' ∷ b'.' ∷ b'1' ∷ []

module _ (host : Host) where
  abbrev listened : ℤ → Bool × host.net.World → ℤ × host.net.World
  listened fd (true, w) = (fd, w)
  listened fd (false, w) = (minus 2, w)

  abbrev bound : ℤ → Bool × host.net.World → ℤ × host.net.World
  bound fd (true, w) = listened fd (host.listen fd w)
  bound fd (false, w) = (minus 1, w)

  -- `c_sockets_get_listening_socket`
  unfoldable pub get_listening_socket : ℕ → host.net.World → ℤ × host.net.World
  get_listening_socket port w =
      let opened = host.socket w in
      if is_negative opened.0
      then (minus 1, opened.1)
      else bound opened.0 (host.bind opened.0 port opened.1)

  -- The loop of `_try_connect`, with the attempts that are looked at: `none` where it still tries.
  unfoldable pub try_connect : ℕ → Bytes → ℕ → host.net.World → Option (ℤ × host.net.World)
  try_connect zero ip port w = none
  try_connect (suc n) ip port w =
      let opened = host.socket w in
      let answer = host.connect opened.0 ip port opened.1 in
      let rest = try_connect n ip port (host.close opened.0 answer.1) in
      if is_negative opened.0
      then some (minus 1, opened.1)
      else if answer.0
      then some (opened.0, answer.1)
      else rest

  abbrev pub address_of : Option Bytes → Bytes
  address_of none = localhost
  address_of (some ip) = ip

  abbrev pub connected : Option (ℤ × host.net.World) → Option (ℤ × host.net.World)
  connected none = none
  connected (some (fd, w)) = if is_negative fd then some (minus 1, w) else some (fd, w)

  -- `c_sockets_get_server_connection`
  unfoldable pub get_server_connection :
      ℕ → ℕ → Option Bytes → host.net.World → Option (ℤ × host.net.World)
  unfolding try_connect
  get_server_connection attempts port addr w =
      connected (try_connect attempts (address_of addr) port w)
