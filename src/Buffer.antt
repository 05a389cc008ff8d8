-- ===== src/Buffer.antt =====
-- Resizable byte buffers: src/utils/c_utils_buffer.h and c_utils_buffer.c. A function that updates
-- `*buf` returns its status and the new buffer; `self` is the address of the struct. NULL for a
-- `CmonBuffer *` is `none`. `c_u_buffer_print` is left out.
pub mod Slide
pub mod Insert
pub mod Shift
pub mod Grow
pub mod Empty
mod Tests
use cmon.Base.{
  ℕ, zero, suc, ◌+◌, ◌-◌, ◌*◌, ◌%◌, Bool, true, false, Option, none, some, List, [], ◌∷◌, ltb, leb,
  ◌==◌, if◌then◌else◌, Run, ok, fault,
}
use cmon.Base.Int.{ℤ, pos, minus}
use cmon.Text.{size_mod, sub_size}
use cmon.Mem.{
  Ptr, is_null, advance, Cmd, pure, ◌>>=◌, ◌>>◌, load, store, malloc, calloc, free, realloc, copy_n,
}

pub record CmonBuffer : Type 0 where
  pub self : Ptr
  pub cap : ℕ
  pub len : ℕ
  pub avl : ℕ
  pub buf : Ptr

pub record CmonBufferView : Type 0 where
  pub len : ℕ
  pub buf : Ptr

abbrev pub initial_extra_space : ℕ
initial_extra_space = 20

-- `sizeof(CmonBuffer)` and `sizeof(CmonBufferView)`
abbrev pub buffer_struct_size : ℕ
buffer_struct_size = 32

abbrev pub view_struct_size : ℕ
view_struct_size = 16

-- `size_t` addition
abbrev pub add_size : ℕ → ℕ → ℕ
add_size a b = (a + b) % size_mod

unfoldable pub buffer_empty : ℕ → Cmd (Option CmonBuffer)
buffer_empty capacity = do
  buf ← malloc capacity
  if is_null buf then pure none else do
    self ← malloc buffer_struct_size
    if is_null self
        then (do free buf; pure none)
        else pure
            (some (record { self = self; cap = capacity; len = 0; avl = capacity; buf = buf }))

-- `strncpy(dst, src, n)`; the flag says whether the NUL of `src` has been met.
unfoldable pub strncpy_from : Ptr → Ptr → Bool → ℕ → ℕ → Cmd (Unit {0})
strncpy_from dst src ended zero i = pure tt
strncpy_from dst src true (suc n) i = do store dst i 0; strncpy_from dst src true n (i + 1)
strncpy_from dst src false (suc n) i = do
  v ← load src i
  store dst i v
  strncpy_from dst src (v == 0) n (i + 1)

-- What `c_u_buffer_new` does with the buffer it asked for; it does not test it for NULL.
unfoldable pub fill_new : Ptr → ℕ → Option CmonBuffer → Cmd (Option CmonBuffer)
unfolding strncpy_from
fill_new src len none = λ h. fault
fill_new src len (some c_buf) = do
  strncpy_from c_buf.buf src false len 0
  pure (some (record c_buf { len = len; avl = sub_size c_buf.avl len }))

unfoldable pub buffer_new : Ptr → ℕ → Cmd (Option CmonBuffer)
unfolding buffer_empty fill_new
buffer_new src len =
    if is_null src
    then pure none
    else do c_buf ← buffer_empty (add_size len initial_extra_space); fill_new src len c_buf

unfoldable pub buffer_free : Option CmonBuffer → Cmd (Unit {0})
buffer_free none = pure tt
buffer_free (some b) = do if is_null b.buf then pure tt else free b.buf; free b.self

-- `C_U_BUFFER_VIEW_END`: -1 as the `size_t` that it becomes in a sum.
abbrev pub view_end : ℕ
view_end = size_mod - 1

-- `c_u_view_buffer_new`; `len` is the bit pattern of an `ssize_t`.
unfoldable pub view_buffer_new : Ptr → ℕ → ℕ → ℕ → Cmd (Option CmonBufferView)
view_buffer_new buf size start len =
    if is_null buf then pure none else if ltb size (add_size len start) then pure none else do
      new_view ← malloc view_struct_size
      let len' = if len == view_end then sub_size size start else len
      if is_null new_view
          then pure none
          else pure (some (record { len = len'; buf = advance buf start }))

-- `for (i = 1; i <= len - index; i++) buf[len - i + n] = buf[len - i];` with the rounds left.
unfoldable pub slide_from : Ptr → ℕ → ℕ → ℕ → ℕ → Cmd (Unit {0})
slide_from buf len n zero i = pure tt
slide_from buf len n (suc k) i = do
  v ← load buf (len - i)
  store buf (add_size (len - i) n) v
  slide_from buf len n k (i + 1)

-- The loop over the components of `c_u_buffer_shift_from`: component `i` goes `n * i` further on.
-- The result is the new length.
unfoldable pub shift_components : List CmonBufferView → ℕ → ℕ → ℕ → Ptr → ℕ → Cmd ℕ
shift_components [] n room i p len = pure len
shift_components (c ∷ cs) n room i p len = do
  rc ← copy_n c.buf c.len (advance p (n * i)) (sub_size room len)
  let moved = c.len + n * i
  shift_components cs n room (i + 1) (advance p moved) (len + moved)

-- The branch of `c_u_buffer_shift_from` that moves the buffer into a new block.
shift_grow : CmonBuffer → ℕ → ℕ → Cmd (ℤ × CmonBuffer)
unfolding shift_components
shift_grow b index n = do
  let new_cap = add_size (add_size b.len n) initial_extra_space
  new_buf ← calloc new_cap
  if is_null new_buf then pure (minus 3, b) else do
    let front : CmonBufferView = record { len = index; buf = b.buf }
    let back : CmonBufferView = record { len = b.len - index; buf = advance b.buf index }
    len ← shift_components (front ∷ back ∷ []) n new_cap 0 new_buf 0
    free b.buf
    pure (pos 0, record b { cap = new_cap; len = len; avl = sub_size new_cap len; buf = new_buf })

shift_in_place : CmonBuffer → ℕ → ℕ → Cmd (ℤ × CmonBuffer)
unfolding slide_from
shift_in_place b index n = do
  slide_from b.buf b.len n (b.len - index) 1
  let len = add_size b.len n
  pure (pos 0, record b { len = len; avl = sub_size b.cap len })

unfoldable pub shift_from : Option CmonBuffer → ℕ → ℕ → Cmd (ℤ × Option CmonBuffer)
unfolding shift_grow shift_in_place
shift_from none index n = pure (minus 1, none)
shift_from (some b) index n = if leb b.len index then pure (minus 2, some b) else do
  (rc, b') ←
      (if ltb (sub_size b.cap b.len) n then shift_grow b index n else shift_in_place b index n)
  pure (rc, some b')

-- The loop over the components of `c_u_buffer_insert_at`.
unfoldable pub insert_components : List CmonBufferView → ℕ → Ptr → ℕ → Cmd ℕ
insert_components [] room p len = pure len
insert_components (c ∷ cs) room p len = do
  rc ← copy_n c.buf c.len p (sub_size room len)
  insert_components cs room (advance p c.len) (len + c.len)

-- The branch that moves the buffer into a new block. It does not test `malloc` for NULL.
unfoldable pub insert_grow : CmonBuffer → Ptr → ℕ → ℕ → Cmd (ℤ × CmonBuffer)
unfolding insert_components
insert_grow b src src_len index = do
  let new_cap = add_size (add_size b.len src_len) initial_extra_space
  new_buffer ← malloc new_cap
  let front : CmonBufferView = record { len = index; buf = b.buf }
  let middle : CmonBufferView = record { len = src_len; buf = src }
  let back : CmonBufferView = record { len = b.len - index; buf = advance b.buf index }
  len ← insert_components (front ∷ middle ∷ back ∷ []) new_cap new_buffer 0
  free b.buf
  pure (pos 0, record b { cap = new_cap; len = len; buf = new_buffer })

unfoldable pub insert_in_place : CmonBuffer → Ptr → ℕ → ℕ → Cmd (ℤ × CmonBuffer)
unfolding slide_from
insert_in_place b src src_len index = do
  slide_from b.buf b.len src_len (b.len - index) 1
  let len = add_size b.len src_len
  rc ← copy_n src src_len (advance b.buf index) len
  pure (pos 0, record b { len = len })

unfoldable pub insert_at : Option CmonBuffer → Ptr → ℕ → ℕ → Cmd (ℤ × Option CmonBuffer)
unfolding insert_grow insert_in_place
insert_at none src src_len index = pure (minus 1, none)
insert_at (some b) src src_len index =
    if is_null src
    then pure (minus 1, some b)
    else if ltb b.len index
    then pure (minus 2, some b)
    else do
      (rc, b') ←
          (if ltb b.cap (add_size b.len src_len)
            then insert_grow b src src_len index
            else insert_in_place b src src_len index)
      pure (rc, some b')

-- `c_u_buffer_append`
unfoldable pub append : Option CmonBuffer → Ptr → ℕ → Cmd (ℤ × Option CmonBuffer)
unfolding insert_at
append none src src_len = λ h. fault
append (some b) src src_len = insert_at (some b) src src_len b.len

-- `c_u_buffer_copy`: past its tests it ends with no `return`, so its value is undefined.
unfoldable pub buffer_copy : Option CmonBuffer → Ptr → ℕ → Run ℤ
buffer_copy none payload p_len = ok (minus 1)
buffer_copy (some b) payload p_len =
    if is_null payload then ok (minus 1) else if p_len == 0 then ok (minus 2) else fault

unfoldable pub set_len : Option CmonBuffer → ℕ → ℤ × Option CmonBuffer
set_len none new_len = (minus 1, none)
set_len (some b) new_len =
    if ltb b.cap new_len then (minus 1, some b) else (pos b.len, some (record b { len = new_len }))

unfoldable pub set_capacity : Option CmonBuffer → ℕ → Cmd (ℤ × Option CmonBuffer)
set_capacity none min_cap = pure (minus 1, none)
set_capacity (some b) min_cap = if leb min_cap b.cap then pure (pos 0, some b) else do
  new_buf ← realloc b.buf min_cap
  if is_null new_buf
      then pure (minus 2, some b)
      else do free b.buf; pure (pos 0, some (record b { cap = min_cap; buf = new_buf }))
