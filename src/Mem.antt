-- ===== src/Mem.antt =====
-- Memory of `malloc`, for the code that owns, moves and frees blocks: what is allocated, and what
-- the next calls of `malloc` and `realloc` will answer. An access outside a block, or to a block
-- that is not allocated, and a free of such a block are faults.
pub mod Copy
use cmon.Base.{
  ℕ, zero, suc, ◌+◌, Bool, true, false, ◌&&◌, Option, none, some, List, [], ◌∷◌, ltb, ◌==◌,
  if◌then◌else◌, length, get_elem?, set, replicate, Run, ok, fault, of_option,
}
use cmon.Base.Int.{ℤ, pos, minus}
use cmon.Text.{Bytes}

-- An offset into a block; block 0 is none.
pub record Ptr : Type 0 where
  pub block : ℕ
  pub off : ℕ

abbrev pub null : Ptr
null = record { block = 0; off = 0 }

abbrev pub is_null : Ptr → Bool
is_null p = p.block == 0 && p.off == 0

abbrev pub advance : Ptr → ℕ → Ptr
advance p n = record p { off = p.off + n }

-- What an allocation answers: where, and what the fresh bytes hold.
pub record Grant : Type 0 where
  pub address : ℕ
  pub junk : ℕ → ℕ

pub record Heap : Type 0 where
  pub cell : ℕ → Option Bytes
  pub supply : List Grant

abbrev pub Cmd : Type 0 → Type 0
Cmd A = Heap → Run (A × Heap)

abbrev pub pure : {A : Type 0} → A → Cmd A
pure a h = ok (a, h)

abbrev pub and_then : {A B : Type 0} → Run (A × Heap) → (A → Cmd B) → Run (B × Heap)
and_then (ok (a, h)) k = k a h
and_then (Run.exited n) k = Run.exited n
and_then fault k = fault

infixl 5 ◌>>=◌ ◌>>◌
abbrev pub ◌>>=◌ : {A B : Type 0} → Cmd A → (A → Cmd B) → Cmd B
◌>>=◌ m k h = and_then (m h) k

abbrev pub ◌>>◌ : {B : Type 0} → Cmd (Unit {0}) → Cmd B → Cmd B
◌>>◌ m k h = and_then (m h) (λ _. k)

abbrev pub update : (ℕ → Option Bytes) → ℕ → Option Bytes → ℕ → Option Bytes
update f p v q = if p == q then v else f q

abbrev pub with_block : Heap → ℕ → Option Bytes → Heap
with_block h k b = record h { cell = update h.cell k b }

-- `p[i]`
unfoldable pub load : Ptr → ℕ → Cmd ℕ
load p i h = elim (h.cell p.block) [
  | none ↦ fault
  | some b ↦ elim (get_elem? b (p.off + i)) [ none ↦ fault | some v ↦ ok (v, h) ]
]

-- `p[i] = v`
unfoldable pub store : Ptr → ℕ → ℕ → Cmd (Unit {0})
store p i v h = elim (h.cell p.block) [
  | none ↦ fault
  | some b ↦
      if ltb (p.off + i) (length b)
      then ok (tt, with_block h p.block (some (set b (p.off + i) v)))
      else fault
]

abbrev pub fill : (ℕ → ℕ) → ℕ → Bytes
fill junk zero = []
fill junk (suc n) = junk n ∷ fill junk n

-- Can a block start there: not at NULL, and not where one is?
abbrev pub vacant : Heap → ℕ → Bool
vacant h a = if a == 0 then false else elim (h.cell a) [ none ↦ true | some b ↦ false ]

unfoldable pub malloc_in : List Grant → ℕ → Cmd Ptr
malloc_in [] n h = ok (null, h)
malloc_in (g ∷ gs) n h =
    if vacant h g.address
    then ok (
      record { block = g.address; off = 0 },
      record { cell = update h.cell g.address (some (fill g.junk n)); supply = gs },
    )
    else ok (null, record h { supply = gs })

-- `malloc(n)`
unfoldable pub malloc : ℕ → Cmd Ptr
unfolding malloc_in
malloc n h = malloc_in h.supply n h

-- `calloc(n, 1)`
unfoldable pub calloc : ℕ → Cmd Ptr
unfolding malloc
calloc n = do
  p ← malloc n
  if is_null p then pure p else λ h. ok (p, with_block h p.block (some (replicate n 0)))

-- `free(p)`
unfoldable pub free : Ptr → Cmd (Unit {0})
free p h = if is_null p then ok (tt, h) else elim (h.cell p.block) [
  | none ↦ fault
  | some b ↦ if p.off == 0 then ok (tt, with_block h p.block none) else fault
]

-- The bytes that a block of `n` keeps of `b`, with fresh ones behind them.
unfoldable pub resized : Bytes → (ℕ → ℕ) → ℕ → Bytes
resized b junk zero = []
resized [] junk (suc n) = fill junk (suc n)
resized (x ∷ b) junk (suc n) = x ∷ resized b junk n

unfoldable pub realloc_in : List Grant → Ptr → Bytes → ℕ → Cmd Ptr
realloc_in [] p b n h = ok (null, h)
realloc_in (g ∷ gs) p b n h =
    let kept = some (resized b g.junk n) in
    if g.address == p.block
    then ok (p, record { cell = update h.cell p.block kept; supply = gs })
    else if vacant h g.address
    then ok (
      record { block = g.address; off = 0 },
      record { cell = update (update h.cell p.block none) g.address kept; supply = gs },
    )
    else ok (null, record h { supply = gs })

-- `realloc(p, n)` of a block: it grows where it is, or moves and the old block is freed, or NULL.
unfoldable pub realloc : Ptr → ℕ → Cmd Ptr
unfolding realloc_in
realloc p n h = if is_null p then malloc n h else elim (h.cell p.block) [
  | none ↦ fault
  | some b ↦ if p.off == 0 then realloc_in h.supply p b n h else fault
]

-- The loop of `c_u_str_copy_n`, with the rounds left.
unfoldable pub copy_from : Ptr → Ptr → ℕ → ℕ → Cmd (Unit {0})
copy_from src dst zero i = pure tt
copy_from src dst (suc n) i = do v ← load src i; store dst i v; copy_from src dst n (i + 1)

-- `c_u_str_copy_n`
unfoldable pub copy_n : Ptr → ℕ → Ptr → ℕ → Cmd ℤ
unfolding copy_from
copy_n src n dst buf_size =
    if is_null src
    then pure (minus 1)
    else if is_null dst
    then pure (minus 2)
    else if ltb buf_size n
    then pure (minus 3)
    else (do copy_from src dst n 0; pure (pos 0))
