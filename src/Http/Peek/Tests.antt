-- ===== src/Http/Peek/Tests.antt =====
-- A short header that has arrived, with a byte of what follows it.
use cmon.Base.{
  ℕ, zero, suc, ◌≤◌, ◌<◌, ◌≡◌, refl, ap, Option, none, some, [], ◌∷◌, length, take, length-take,
  some_inj, arith, ok, ◌==◌, if◌then◌else◌,
}
use cmon.Base.Int.{pos}
use cmon.Text.{Bytes}
use cmon.Text.Search.{Occurs}
use cmon.Mem.{Heap, with_block}
use cmon.Buffer.{CmonBuffer}
use cmon.Buffer.Insert.{Owns}
use cmon.Http.{header_delim}
use cmon.Http.View.{success}
use cmon.Http.Peek.{Peer, c_buf_recv_header}
use cmon.Http.Peek.Header.{c_buf_recv_header-whole}

abbrev arrived : Bytes
arrived = 120 ∷ 13 ∷ 10 ∷ 13 ∷ 10 ∷ 121 ∷ []

abbrev given : ℕ → Option Bytes × Unit {0}
given n = (some (take n arrived), tt)

given-size : (n : ℕ) (w : Unit {0}) (b : Bytes) → given n ≡ (some b, w) → length b ≤ n
given-size n w b e =
    let same : take n arrived ≡ b = some_inj (ap (λ p. p.0) e) in
    omega (arith, ap length same, length-take n arrived)

abbrev client : Peer
client = record {
  World = Unit {0};
  peek = λ fd n w. given n;
  recv = λ fd n w. given n;
  peek_size = λ fd n w w' b e. given-size n w' b e;
  recv_size = λ fd n w w' b e. given-size n w' b e;
}

abbrev block : Bytes
block = 1 ∷ 2 ∷ 3 ∷ 4 ∷ 5 ∷ 6 ∷ 7 ∷ 8 ∷ []

abbrev empty : CmonBuffer
empty = record {
  self = record { block = 3; off = 0 };
  cap = 8;
  len = 0;
  avl = 8;
  buf = record { block = 1; off = 0 };
}

abbrev heap : Heap
heap = record { cell = λ k. if k == 1 then some block else none; supply = [] }

empty-Owns : Owns heap empty block
empty-Owns = record {
  held = refl;
  start = refl;
  somewhere = λ e. omega (arith, e);
  sized = refl;
  room = omega arith;
  small = omega arith;
}

delim_first : (r : ℕ) → r < 1 → ¬ Occurs header_delim 4 arrived r
delim_first zero lt occ = omega (arith, some_inj (occ 0 (omega arith)))
delim_first (suc r) lt occ = absurd (omega arith)

c_buf_recv_header-whole_example :
    (after : Bytes) × (c_buf_recv_header client (pos 4) (some empty) heap tt
      ≡ ok ((success, some (record empty { len = 5 })), with_block heap 1 (some after), tt))
    × (take 5 after ≡ 120 ∷ 13 ∷ 10 ∷ 13 ∷ 10 ∷ [])
c_buf_recv_header-whole_example =
    c_buf_recv_header-whole client (pos 4) heap empty (120 ∷ []) (121 ∷ []) tt tt tt empty-Owns refl
      refl (omega arith) delim_first refl refl
