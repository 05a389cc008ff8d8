-- ===== src/Proxy/Manager/Tests.antt =====
-- A client whose header is there, and one that has gone.
use cmon.Base.{
  ℕ, zero, suc, ◌≤◌, ◌<◌, ◌≡◌, refl, ap, Option, none, some, [], ◌∷◌, length, length-take, take,
  some_inj, arith, Run, ok, exited,
}
use cmon.Base.Int.{pos}
use cmon.Text.{Bytes}
use cmon.Text.Search.{Occurs}
use cmon.Mem.{Heap, with_block, malloc}
use cmon.Buffer.{CmonBuffer, buffer_empty}
use cmon.Buffer.Empty.{Keeps}
use cmon.Http.{header_delim}
use cmon.Sockets.{get_server_connection}
use cmon.Proxy.Sample.{speaking}
use cmon.Proxy.Manager.{
  loops, calls_exit, Wire, CmonProxyCommManager, waiting_header, communicate, communication_manager,
}
use cmon.Proxy.Manager.Runs.{holding, communicate-gone, communication_manager-exits}

-- One byte, the empty line, and a byte of what follows.
abbrev arrived : Bytes
arrived = 120 ∷ 13 ∷ 10 ∷ 13 ∷ 10 ∷ 121 ∷ []

abbrev given : ℕ → ℕ → Option Bytes × ℕ
given n w = (some (take n arrived), w)

given-size : (n w w' : ℕ) (b : Bytes) → given n w ≡ (some b, w') → length b ≤ n
given-size n w w' b e =
    let same : take n arrived ≡ b = some_inj (ap (λ p. p.0) e) in
    omega (arith, ap length same, length-take n arrived)

abbrev nothing : ℕ → ℕ → Option Bytes × ℕ
nothing n w = (some (take n []), w)

nothing-size : (n w w' : ℕ) (b : Bytes) → nothing n w ≡ (some b, w') → length b ≤ n
nothing-size n w w' b e =
    let same : take n [] ≡ b = some_inj (ap (λ p. p.0) e) in
    omega (arith, ap length same, length-take {A = ℕ} n [])

abbrev here : Wire
here = record {
  host = speaking 6;
  peek = λ fd n w. given n w;
  recv = λ fd n w. given n w;
  peek_size = λ fd n w w' b e. given-size n w w' b e;
  recv_size = λ fd n w w' b e. given-size n w w' b e;
}

abbrev gone : Wire
gone = record {
  host = speaking 6;
  peek = λ fd n w. nothing n w;
  recv = λ fd n w. nothing n w;
  peek_size = λ fd n w w' b e. nothing-size n w w' b e;
  recv_size = λ fd n w w' b e. nothing-size n w w' b e;
}

abbrev unset : CmonProxyCommManager
unset = record {
  state = waiting_header;
  sender = pos 4;
  receiver = pos 3;
  data_send_size = 0;
  content_length = 0;
  header = none;
}

abbrev heap : Heap
heap = record {
  cell = λ k. none;
  supply = record { address = 1; junk = λ i. i } ∷ record { address = 2; junk = λ i. i } ∷ [];
}

communicate-gone_example :
    (h' : Heap) × (communicate gone 3 unset heap 1 ≡ ok (loops unset, h', 1)) × Keeps heap h'
communicate-gone_example = communicate-gone gone 3 unset heap 1 refl refl refl

abbrev granted : CmonBuffer
granted = record {
  self = record { block = 2; off = 0 };
  cap = 500;
  len = 0;
  avl = 500;
  buf = record { block = 1; off = 0 };
}

abbrev heap_in : Run (Option CmonBuffer × Heap) → Heap
heap_in (ok (b, h)) = h
heap_in (exited n) = heap
heap_in Run.fault = heap

delim_first : (r : ℕ) → r < 1 → ¬ Occurs header_delim 4 arrived r
delim_first zero lt occ = omega (arith, some_inj (occ 0 (omega arith)))
delim_first (suc r) lt occ = absurd (omega arith)

reached : get_server_connection (speaking 6) 1 3000 none 1 ≡ some (pos 3, 3)
unfolding get_server_connection
reached = refl

emptied : buffer_empty 500 heap ≡ ok (some granted, heap_in (buffer_empty 500 heap))
unfolding buffer_empty malloc
emptied = refl

communication_manager-exits_example :
    (after : Bytes) × (communication_manager here 1 1 (pos 4) unset heap 1
      ≡ ok (
          some (
            loops (holding unset (pos 4) (pos 3) (record granted { len = 5 })),
            with_block (heap_in (buffer_empty 500 heap)) 1 (some after),
            3,
          )))
    × (take 5 after ≡ 120 ∷ header_delim)
    × (communication_manager here 1 2 (pos 4) unset heap 1
        ≡ ok (some (calls_exit 0, with_block (heap_in (buffer_empty 500 heap)) 1 (some after), 3)))
communication_manager-exits_example =
    communication_manager-exits here 1 0 (pos 4) (pos 3) unset heap
      (heap_in (buffer_empty 500 heap)) granted (120 ∷ []) (121 ∷ []) 1 3 3 3 reached refl emptied
      (omega arith) delim_first refl refl
