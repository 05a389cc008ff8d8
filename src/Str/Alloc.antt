-- ===== src/Str/Alloc.antt =====
-- `malloc` of the C library: NULL, or a block of as many bytes as were asked for, which hold
-- whatever they hold.
use cmon.Base.{ℕ, ◌≡◌, Option, some, length}
use cmon.Text.{Bytes}

pub record Allocator : Type 0 where
  pub alloc : ℕ → Option Bytes
  pub alloc_size : (n : ℕ) (b : Bytes) → alloc n ≡ some b → length b ≡ n
