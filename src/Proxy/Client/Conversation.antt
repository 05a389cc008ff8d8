-- ===== src/Proxy/Client/Conversation.antt =====
-- A conversation of messages that are all header, and its two ends.
use cmon.Base.{
  ℕ, zero, suc, ◌+◌, ◌≡◌, refl, sym, ap, ◌∙◌, ◌⊎◌, false, Option, none, some, [], take, length,
  arith, ok, fault, ◌==◌, ne→==, Run, ◌>>=◌,
}
use cmon.Base.Int.{ℤ, pos}
use cmon.Text.{Bytes}
use cmon.Str.Alloc.{Allocator}
use cmon.Http.Message.{CmonHttpMessage, http_max_header_size, is_negative, get_message}
use cmon.Http.Message.Whole.{
  HeaderOnly, GivesMessage, ended, get_message-Bodyless, get_message-none,
}
use cmon.Sockets.{Host}
use cmon.Proxy.Relay.{send_message}
use cmon.Proxy.Relay.Bodyless.{send_message-bodyless}
use cmon.Proxy.Client.{next, respond, requested, request, exchange, serve}

-- One `read` of a descriptor gives a header with its empty line, and one `write` of those bytes to
-- the other descriptor takes them all.
pub record Passes (host : Host) (sender receiver : ℤ) (w w' : host.net.World) : Type 0 where
  pub head : Bytes
  pub only_header : HeaderOnly head
  pub between : host.net.World
  pub arrives : host.net.read sender http_max_header_size w ≡ (some (ended head), between)
  pub leaves : host.net.write receiver (ended head) between ≡ (some (length (ended head)), w')

-- So many requests with their answers.
pub data Conversation (host : Host) (client server : ℤ)
    : ℕ → host.net.World → host.net.World → Type 0 where
  nothing_yet : {w : host.net.World} → Conversation host client server zero w w
  exchanged :
      {n : ℕ} {w asked answered last : host.net.World}
      → Passes host client server w asked
      → Passes host server client asked answered
      → Conversation host client server n answered last
      → Conversation host client server (suc n) w last

-- What one side makes of a header: a message that is not empty, and that the other side gets with
-- that one write.
record Relayed (host : Host) (mem : Allocator) (rounds : ℕ) (buff : Bytes) (sender receiver : ℤ)
    (w w' : host.net.World) : Type 0 where
  msg : CmonHttpMessage
  between : host.net.World
  got : get_message host.net mem sender w ≡ ok (some msg, between)
  not_empty : (msg.headers_size == 0) ≡ false
  sent :
      send_message host.net mem (suc rounds) buff (some msg) receiver between
      ≡ ok (
        some (record {
          rc = pos msg.total_msg_size;
          send_size = some msg.total_msg_size;
          msg = some msg;
        }),
        w',
      )

module _ (host : Host) (mem : Allocator) (rounds : ℕ) (buff : Bytes)
    (given : GivesMessage mem) where
  Passes-Relayed :
      (sender receiver : ℤ) {w w' : host.net.World}
      → is_negative sender ≡ false
      → is_negative receiver ≡ false
      → Passes host sender receiver w w'
      → Relayed host mem rounds buff sender receiver w w'
  Passes-Relayed sender receiver {w} {w'} sender_open receiver_open p =
      let (msg, got, only) =
        get_message-Bodyless host.net mem sender given sender_open p.head w p.between p.only_header
          p.arrives in
      let most =
        host.net.read_size sender http_max_header_size w p.between (ended p.head) p.arrives in
      let leaves : host.net.write receiver (take msg.headers_size msg.headers_buff) p.between
          ≡ (some msg.headers_size, w') =
        ap (λ b. host.net.write receiver b p.between) only.bytes
        ∙ p.leaves
        ∙ ap (λ n. (some n, w')) (sym only.size) in
      record {
        msg = msg;
        between = p.between;
        got = got;
        not_empty = ne→== msg.headers_size 0 (λ e. omega (arith, e, only.size, p.only_header.long));
        sent =
            send_message-bodyless host.net mem rounds buff msg receiver p.between w' receiver_open
              only.held (omega (arith, only.size, most)) only.no_body leaves;
      }

module _ (host : Host) (mem : Allocator) (rounds : ℕ) (buff : Bytes) (client server : ℤ)
    (given : GivesMessage mem) (client_open : is_negative client ≡ false)
    (server_open : is_negative server ≡ false) where
  exchange-request :
      {w asked : host.net.World} {last : Run (Option CmonHttpMessage × host.net.World)}
      → Passes host client server w asked
      → get_message host.net mem server asked ≡ last
      → exchange host mem (suc rounds) buff client server w
        ≡ (last >>= respond host mem (suc rounds) buff client server)
  unfolding exchange request requested
  exchange-request p e =
      let r = Passes-Relayed host mem rounds buff given client server client_open server_open p in
      rw r.got (rw r.sent (rw e refl))

  exchange-next :
      {w asked answered : host.net.World}
      → Passes host client server w asked
      → Passes host server client asked answered
      → exchange host mem (suc rounds) buff client server w ≡ ok (next answered)
  unfolding respond
  exchange-next p q =
      let r = Passes-Relayed host mem rounds buff given server client server_open client_open q in
      rw (exchange-request p r.got) (rw r.not_empty (rw r.sent refl))

  -- The loop of `c_proxy_handle_client` relays any number of requests and answers that are all
  -- header, byte for byte and in turn: each is given by one `read`, and just the bytes that were read are written, in
  -- one `write`, to the other side. When the client then sends no more, since it has closed its end
  -- or by an error, both descriptors are closed, and no other call is made in between. Each header
  -- ends with its only empty line, is of at least 15 bytes with it and has no `Content-Length:`;
  -- each write takes the whole header, as the code does not try again; both descriptors are open,
  -- `malloc` does not fail, and `turns` is at least one more than the number of the requests.
  pub serve-Conversation :
      {n : ℕ} {w last w' : host.net.World} {answer : Option Bytes} (more : ℕ)
      → Conversation host client server n w last
      → host.net.read client http_max_header_size last ≡ (answer, w')
      → (answer ≡ none) ⊎ (answer ≡ some [])
      → serve host mem (suc rounds) buff client server (n + suc more) w
        ≡ ok (some (host.close server (host.close client w')))
  unfolding serve exchange request
  serve-Conversation {last} {w'} more nothing_yet e over =
      let turns : 0 + suc more ≡ suc more = omega arith in
      let ended = get_message-none host.net mem client given client_open _ last w' over e in
      rw turns (rw ended refl)
  serve-Conversation more (exchanged {n} p q rest) e over =
      let turns : suc n + suc more ≡ suc (n + suc more) = omega arith in
      rw turns (rw (exchange-next p q) (serve-Conversation more rest e over))

  -- Where the server closes its end after it has been asked, or its `read` fails, whatever it
  -- answered before, `c_proxy_handle_client` reads through a null pointer: `c_http_get_message`
  -- gives NULL, and only the length of the header is looked at.
  pub serve-no_answer :
      {n : ℕ} {w last asked w' : host.net.World} {answer : Option Bytes} (more : ℕ)
      → Conversation host client server n w last
      → Passes host client server last asked
      → host.net.read server http_max_header_size asked ≡ (answer, w')
      → (answer ≡ none) ⊎ (answer ≡ some [])
      → serve host mem (suc rounds) buff client server (n + suc more) w ≡ fault
  unfolding serve respond
  serve-no_answer {asked} {w'} more nothing_yet p e over =
      let turns : 0 + suc more ≡ suc more = omega arith in
      let ended = get_message-none host.net mem server given server_open _ asked w' over e in
      rw turns (rw (exchange-request p ended) refl)
  serve-no_answer more (exchanged {n} p' q' rest) p e over =
      let turns : suc n + suc more ≡ suc (n + suc more) = omega arith in
      rw turns (rw (exchange-next p' q') (serve-no_answer more rest p e over))
