-- ===== src/Proxy/Client/Tests.antt =====
-- A client that asks once and hangs up, and a server that hangs up before it answers.
use cmon.Base.{
  ℕ, zero, suc, ◌+◌, ◌<◌, ◌≡◌, refl, ap, ◌∙◌, inr, true, false, none, some, [], ◌∷◌, ◌++◌, length,
  take, replicate, get_elem?, Bool, ◌||◌, ◌==◌, ==_iff, arith, ok, some_inj,
}
use cmon.Base.Int.{ℤ, pos}
use cmon.Text.{Bytes}
use cmon.Http.{header_delim}
use cmon.Http.Message.{http_max_body_chunk, message_struct_size}
use cmon.Http.Message.Whole.{HeaderOnly, GivesMessage}
use cmon.Str.Sample.{ample}
use cmon.Sockets.{get_server_connection}
use cmon.Proxy.Sample.{greeting, speaking}
use cmon.Proxy.Client.{serve, handle_client, server_port}
use cmon.Proxy.Client.Closed.{handle_client-closed}
use cmon.Proxy.Client.Conversation.{Passes, nothing_yet, exchanged, serve-Conversation}

-- "GET / HTTP/1.1"
abbrev asking : Bytes
asking = take 14 greeting

abbrev has : ℕ → Bytes → Bool
has c [] = false
has c (x ∷ xs) = x == c || has c xs

-- A byte that is not among the first ones.
not_at :
    (c : ℕ) (ts us : Bytes) (r : ℕ)
    → has c ts ≡ false
    → r < length ts
    → ¬ (get_elem? (ts ++ us) r ≡ some c)
not_at c [] us r others lt e = absurd (omega arith)
not_at c (x ∷ ts) us zero others lt e =
    let same : (x == c) ≡ true = (==_iff x c).1 (some_inj e) in ground (arith, others, same)
not_at c (x ∷ ts) us (suc r) others lt e = not_at c ts us r (ground (arith, others)) (omega arith) e

not_in_asking : (c r : ℕ) → has c asking ≡ false → r < 14 → ¬ (get_elem? greeting (r + 0) ≡ some c)
not_in_asking c r others lt e =
    let here : r ≡ r + 0 = omega arith in
    not_at c asking header_delim r others lt (ap (get_elem? greeting) here ∙ e)

asking-HeaderOnly : HeaderOnly asking
asking-HeaderOnly = record {
  first = λ r lt occ. not_in_asking 13 r refl lt (occ 0 (omega arith));
  long = omega arith;
  no_length = λ r le occ. not_in_asking b'C' r refl (omega (arith, le)) (occ 0 (omega arith));
}

blocks : GivesMessage ample
blocks = record {
  message = replicate message_struct_size 0;
  chunk = replicate http_max_body_chunk 0;
  message_given = refl;
  chunk_given = refl;
}

asks : Passes (speaking 6) (pos 4) (pos 3) 3 5
asks = record {
  head = asking;
  only_header = asking-HeaderOnly;
  between = 4;
  arrives = refl;
  leaves = refl;
}

answers : Passes (speaking 6) (pos 3) (pos 4) 5 7
answers = record {
  head = asking;
  only_header = asking-HeaderOnly;
  between = 6;
  arrives = refl;
  leaves = refl;
}

serve-Conversation_example :
    serve (speaking 6) ample 1 [] (pos 4) (pos 3) (1 + suc 0) 3 ≡ ok (some 10)
serve-Conversation_example =
    serve-Conversation (speaking 6) ample 0 [] (pos 4) (pos 3) blocks refl refl 0
      (exchanged asks answers nothing_yet) refl (inr refl)

relayed : handle_client (speaking 6) ample 1 [] (pos 4) 1 2 1 ≡ ok (some 10)
unfolding handle_client serve get_server_connection
relayed =
    serve-Conversation (speaking 6) ample 0 [] (pos 4) (pos 3) blocks refl refl 0
      (exchanged asks answers nothing_yet) refl (inr refl)

handle_client-closed_example :
    (server : ℤ) × (w1 : ℕ) × (w0 : ℕ) × (get_server_connection (speaking 6) 1 server_port none 1
      ≡ some (server, w1))
    × (10 ≡ suc (suc w0))
handle_client-closed_example = handle_client-closed (speaking 6) ample 1 [] (pos 4) 1 2 1 10 relayed
