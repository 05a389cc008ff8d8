-- ===== src/Buffer/Tests.antt =====
-- Runs of the buffers.
use cmon.Base.{◌≡◌, ◌==◌, if◌then◌else◌, some, none, [], ◌∷◌, length, take, arith, ok, refl}
use cmon.Base.Int.{pos}
use cmon.Text.{Bytes}
use cmon.Mem.{Ptr, Heap, with_block}
use cmon.Buffer.{CmonBuffer, insert_at, shift_from}
use cmon.Buffer.Slide.{Slid}
use cmon.Buffer.Insert.{Owns, Source, insert_at-insert}
use cmon.Buffer.Shift.{shift_from-Slid}

-- Five bytes in use of eight.
abbrev block : Bytes
block = 1 ∷ 2 ∷ 3 ∷ 4 ∷ 5 ∷ 0 ∷ 0 ∷ 0 ∷ []

abbrev payload : Bytes
payload = 8 ∷ 9 ∷ []

abbrev source : Ptr
source = record { block = 2; off = 1 }

abbrev five : CmonBuffer
five = record {
  self = record { block = 3; off = 0 };
  cap = 8;
  len = 5;
  avl = 3;
  buf = record { block = 1; off = 0 };
}

abbrev heap : Heap
heap = record {
  cell = λ k. if k == 1 then some block else if k == 2 then some (7 ∷ 8 ∷ 9 ∷ []) else none;
  supply = record { address = 1; junk = λ i. i } ∷ [];
}

five-Owns : Owns heap five block
five-Owns = record {
  held = refl;
  start = refl;
  somewhere = λ e. omega (arith, e);
  sized = refl;
  room = omega arith;
  small = omega arith;
}

payload-Source : Source heap five source payload
payload-Source = record {
  bytes = 7 ∷ 8 ∷ 9 ∷ [];
  held = refl;
  apart = λ e. omega (arith, e);
  somewhere = refl;
  inside = omega arith;
  reads = refl;
}

insert_at-insert_example :
    (after : Bytes) × (insert_at (some five) source 2 1 heap
      ≡ ok ((pos 0, some (record five { len = 7 })), with_block heap 1 (some after)))
    × Owns (with_block heap 1 (some after)) (record five { len = 7 }) after
    × (take 7 after ≡ 1 ∷ 8 ∷ 9 ∷ 2 ∷ 3 ∷ 4 ∷ 5 ∷ [])
insert_at-insert_example =
    insert_at-insert heap five source 1 five-Owns payload-Source (omega arith) (omega arith)

shift_from-Slid_example :
    (after : Bytes) × (shift_from (some five) 3 2 heap
      ≡ ok ((pos 0, some (record five { len = 7; avl = 1 })), with_block heap 1 (some after)))
    × (length after ≡ 8)
    × Slid block after 3 2 2
shift_from-Slid_example = shift_from-Slid heap five 3 2 five-Owns (omega arith) (omega arith)
