-- ===== src/Proxy/Client/Closed.antt =====
-- How `c_proxy_handle_client` ends.
use cmon.Base.{
  ℕ, zero, suc, ◌≡◌, refl, subst, inl, inr, Option, none, some, Run, ok, exited, fault, ◌>>=◌,
  Bool-cases, ◌==◌,
}
use cmon.Base.Int.{ℤ}
use cmon.Text.{Bytes}
use cmon.Str.Alloc.{Allocator}
use cmon.Http.Message.{CmonHttpMessage, get_message}
use cmon.Sockets.{Host, get_server_connection}
use cmon.Proxy.Relay.{Sent, send_message}
use cmon.Proxy.Client.{
  Turn, relaying, hung_up, next, is_lost, hang_up, answered, respond, requested, request, exchange,
  serve, with_server, handle_client, server_port,
}

-- Whatever the run returns has the property.
abbrev Always {ℓ} : {A : Type ℓ} → (A → Type 0) → Run A → Type 0
Always P (ok a) = P a
Always P (exited n) = Unit {0}
Always P fault = Unit {0}

>>=-Always :
    {A B : Type 0} (P : B → Type 0) (r : Run A) (k : A → Run B)
    → ((a : A) → Always P (k a))
    → Always P (r >>= k)
>>=-Always P (ok a) k all = all a
>>=-Always P (exited n) k all = tt
>>=-Always P fault k all = tt

module _ (host : Host) (mem : Allocator) (rounds : ℕ) (buff : Bytes) (client server : ℤ) where
  -- Its last acts are to close the two descriptors.
  abbrev Closes : host.net.World → Type 0
  Closes w = (w0 : host.net.World) × (w ≡ hang_up host mem rounds buff client server w0)

  abbrev TurnCloses : Turn host.net.World → Type 0
  TurnCloses relaying = Unit {0}
  TurnCloses (hung_up w) = Closes w
  TurnCloses (next w) = Unit {0}

  abbrev EndCloses : Option host.net.World → Type 0
  EndCloses none = Unit {0}
  EndCloses (some w) = Closes w

  answered-Closes :
      (p : Option Sent × host.net.World)
      → Always TurnCloses (answered host mem rounds buff client server p)
  answered-Closes (none, w) = tt
  answered-Closes (some sent, w) = elim (Bool-cases (is_lost sent.rc)) [
    | inl e ↦ rw e (w, refl)
    | inr e ↦ rw e tt
  ]

  respond-Closes :
      (p : Option CmonHttpMessage × host.net.World)
      → Always TurnCloses (respond host mem rounds buff client server p)
  unfolding respond
  respond-Closes (none, w) = tt
  respond-Closes (some res, w) = elim (Bool-cases (res.headers_size == 0)) [
    | inl e ↦ rw e (w, refl)
    | inr e ↦ rw e (
        >>=-Always TurnCloses (send_message host.net mem rounds buff (some res) client w) _
          answered-Closes)
  ]

  requested-Closes :
      (p : Option Sent × host.net.World)
      → Always TurnCloses (requested host mem rounds buff client server p)
  unfolding requested
  requested-Closes (none, w) = tt
  requested-Closes (some sent, w) = elim (Bool-cases (is_lost sent.rc)) [
    | inl e ↦ rw e (w, refl)
    | inr e ↦ rw e (>>=-Always TurnCloses (get_message host.net mem server w) _ respond-Closes)
  ]

  request-Closes :
      (p : Option CmonHttpMessage × host.net.World)
      → Always TurnCloses (request host mem rounds buff client server p)
  unfolding request
  request-Closes (none, w) = (w, refl)
  request-Closes (some req, w) =
      >>=-Always TurnCloses (send_message host.net mem rounds buff (some req) server w) _
        requested-Closes

  exchange-Closes :
      (w : host.net.World) → Always TurnCloses (exchange host mem rounds buff client server w)
  unfolding exchange
  exchange-Closes w = >>=-Always TurnCloses (get_message host.net mem client w) _ request-Closes

  serve-Closes :
      (turns : ℕ) (w : host.net.World)
      → Always EndCloses (serve host mem rounds buff client server turns w)
  unfolding serve
  serve-Closes zero w = tt
  serve-Closes (suc turns) w =
      after (exchange host mem rounds buff client server w) (exchange-Closes w)
        (λ w'. serve-Closes turns w')
    where
      after :
          (r : Run (Turn host.net.World))
          → Always TurnCloses r
          → ((w' : host.net.World)
              → Always EndCloses (serve host mem rounds buff client server turns w'))
          → Always EndCloses (
              r >>= λ turn. elim turn [
                | relaying ↦ ok none
                | hung_up w' ↦ ok (some w')
                | next w' ↦ serve host mem rounds buff client server turns w'
              ])
      after (ok relaying) c rest = tt
      after (ok (hung_up w')) c rest = c
      after (ok (next w')) c rest = rest w'
      after (exited n) c rest = tt
      after fault c rest = tt

closing : {A : Type 0} (P : A → Type 0) {r : Run A} {a : A} → r ≡ ok a → Always P r → P a
closing P e always = subst (Always P) e always

-- Whenever `c_proxy_handle_client` returns, however many requests it has relayed and whichever
-- side was lost, the last things it did were to close the client's descriptor and then the
-- server's, which is the one that it got when it connected.
pub handle_client-closed :
    (host : Host) (mem : Allocator) (rounds : ℕ) (buff : Bytes) (client : ℤ) (attempts turns : ℕ)
    (w w' : host.net.World)
    → handle_client host mem rounds buff client attempts turns w ≡ ok (some w')
    → (server : ℤ) × (w1 : host.net.World) × (w0 : host.net.World) × (get_server_connection host
          attempts server_port none w
        ≡ some (server, w1))
      × (w' ≡ host.close server (host.close client w0))
unfolding handle_client
handle_client-closed host mem rounds buff client attempts turns w w' e =
    go (get_server_connection host attempts server_port none w) refl e
  where
    go :
        (o : Option (ℤ × host.net.World))
        → get_server_connection host attempts server_port none w ≡ o
        → with_server host mem rounds buff client turns o ≡ ok (some w')
        → (server : ℤ) × (w1 : host.net.World) × (w0 : host.net.World) × (get_server_connection host
              attempts server_port none w
            ≡ some (server, w1))
          × (w' ≡ host.close server (host.close client w0))
    go none found run = absurd (cc)
    go (some (server, w1)) found run =
        let (w0, last) =
          closing (EndCloses host mem rounds buff client server) run
            (serve-Closes host mem rounds buff client server turns w1) in
        (server, w1, w0, found, last)
