-- ===== src/Proxy/Sample.antt =====
-- Data for the tests: sides that all send one header, up to some call, and nothing from then on.
-- The world counts the calls.
use cmon.Base.{
  ℕ, suc, ◌≤◌, ◌≡◌, ap, true, Option, none, some, [], ◌∷◌, length, take, length-take, some_inj, leb,
  if◌then◌else◌, arith, Run, ok, exited, fault,
}
use cmon.Base.Int.{pos}
use cmon.Text.{Bytes}
use cmon.Http.Message.{CmonHttpMessage}
use cmon.Sockets.{Host}

-- A short header, with its empty line.
abbrev pub greeting : Bytes
greeting =
    71 ∷ 69 ∷ 84 ∷ 32 ∷ 47 ∷ 32 ∷ 72 ∷ 84 ∷ 84 ∷ 80 ∷ 47 ∷ 49 ∷ 46 ∷ 49 ∷ 13 ∷ 10 ∷ 13 ∷ 10 ∷ []

abbrev pub spoken : ℕ → ℕ → ℕ → Option Bytes × ℕ
spoken last n w = (some (take n (if leb w last then greeting else [])), suc w)

pub spoken-size : (last n w w' : ℕ) (b : Bytes) → spoken last n w ≡ (some b, w') → length b ≤ n
spoken-size last n w w' b e =
    let all = if leb w last then greeting else [] in
    let same : take n all ≡ b = some_inj (ap (λ p. p.0) e) in
    omega (arith, ap length same, length-take n all)

abbrev pub speaking : ℕ → Host
speaking last = record {
  net = record {
    World = ℕ;
    read = λ fd n w. spoken last n w;
    write = λ fd b w. (some (length b), suc w);
    read_size = λ fd n w w' b e. spoken-size last n w w' b e;
  };
  socket = λ w. (pos 3, suc w);
  bind = λ fd port w. (true, suc w);
  listen = λ fd w. (true, suc w);
  connect = λ fd ip port w. (true, suc w);
  close = λ fd w. suc w;
}

abbrev pub blank : CmonHttpMessage
blank = record {
  headers_buff = [];
  body_chunk = [];
  fd = pos 0;
  headers_size = 0;
  cur_body_size = 0;
  content_length = 0;
  total_msg_size = 0;
  remaining_data = 0;
}

abbrev pub message_in : {W : Type 0} → Run (Option CmonHttpMessage × W) → CmonHttpMessage
message_in (ok (some m, w)) = m
message_in (ok (none, w)) = blank
message_in (exited n) = blank
message_in fault = blank
