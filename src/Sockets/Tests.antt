-- ===== src/Sockets/Tests.antt =====
-- A server that refuses one attempt. The world counts the calls.
use cmon.Base.{ℕ, ◌+◌, ◌≤◌, ◌≡◌, refl, true, Option, none, some, [], ◌==◌, length, arith}
use cmon.Base.Int.{pos}
use cmon.Text.{Bytes}
use cmon.Http.Message.{Sockets}
use cmon.Sockets.{Host, localhost, get_server_connection}
use cmon.Sockets.Connect.{none_yet, refused, get_server_connection-Refused}

abbrev silent_read : ℕ → Option Bytes × ℕ
silent_read w = (some [], w)

silent-size : (n w : ℕ) {w' : ℕ} (b : Bytes) → silent_read w ≡ (some b, w') → length b ≤ n
silent-size n w b e = ground arith

abbrev silent : Sockets
silent = record {
  World = ℕ;
  read = λ fd n w. silent_read w;
  write = λ fd b w. (some (length b), w);
  read_size = λ fd n w w' b e. silent-size n w b e;
}

-- A socket's descriptor is the count of the calls; the second one is accepted.
abbrev shy : Host
shy = record {
  net = silent;
  socket = λ w. (pos w, w + 1);
  bind = λ fd port w. (true, w);
  listen = λ fd w. (true, w);
  connect = λ fd ip port w. (5 == w, w + 1);
  close = λ fd w. w + 1;
}

get_server_connection-Refused_example : get_server_connection shy 3 3000 none 1 ≡ some (pos 4, 6)
get_server_connection-Refused_example =
    get_server_connection-Refused shy localhost 3000 1 none refl (refused refl refl none_yet) refl
      refl
