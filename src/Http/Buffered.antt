-- ===== src/Http/Buffered.antt =====
-- Header fields of a `CmonBuffer`: `_c_http_buf_get_header_value_view`,
-- `c_http_buf_get_header_field` and `c_http_set_headder` of src/cmon_proxy/cmon_http.c. A result
-- is a member of `CmonHttpErrCodes`.
use cmon.Base.{ℕ, zero, Option, none, some, drop, ◌==◌, if◌then◌else◌, Run, ok, exited, fault}
use cmon.Base.Int.{ℤ, pos}
use cmon.Text.{Bytes}
use cmon.Mem.{Ptr, is_null, Cmd, pure, ◌>>=◌}
use cmon.Buffer.{CmonBuffer, CmonBufferView, append}
use cmon.Http.{get_key_value_range}
use cmon.Http.View.{
  CmonHttpErrCodes, success, null_arg, buffer_err, find_header_field_key, view_after, view_in,
}

-- A run that only reads.
abbrev pub lift : {A : Type 0} → Run A → Cmd A
lift (ok a) h = ok (a, h)
lift (exited n) h = exited n
lift fault h = fault

-- The bytes of an object from the pointer on.
abbrev pub bytes_from : Ptr → Cmd (Option Bytes)
bytes_from p h =
    if is_null p
    then ok (none, h)
    else elim (h.cell p.block) [ none ↦ fault | some b ↦ ok (some (drop p.off b), h) ]

-- `_c_http_buf_get_header_value_view`, with what it writes to `*view`.
unfoldable pub get_header_value_view :
    Option CmonBuffer → Option Bytes → ℕ → Cmd (CmonHttpErrCodes × Option CmonBufferView)
unfolding find_header_field_key view_after
get_header_value_view none key key_size = pure (null_arg, none)
get_header_value_view (some b) key key_size = do
  header ← bytes_from b.buf
  lift (view_in b header key key_size)

abbrev pub appended : ℤ × Option CmonBuffer → CmonHttpErrCodes × Option CmonBuffer
appended (pos zero, buf) = (success, buf)
appended (rc, buf) = (buffer_err, buf)

-- The end of `c_http_buf_get_header_field`, once the view is known.
unfoldable pub append_view :
    CmonBuffer
    → CmonHttpErrCodes × Option CmonBufferView
    → Cmd (CmonHttpErrCodes × Option CmonBuffer)
append_view b (rc, none) = pure (rc, some b)
append_view b (rc, some view) = do done ← append (some b) view.buf view.len; pure (appended done)

-- `c_http_buf_get_header_field`, with `buf` after it.
unfoldable pub buf_get_header_field :
    Option CmonBuffer
    → Option Bytes
    → ℕ
    → Option CmonBuffer
    → Cmd (CmonHttpErrCodes × Option CmonBuffer)
unfolding get_header_value_view append_view
buf_get_header_field none key key_size buf = pure (null_arg, buf)
buf_get_header_field (some header) key key_size none = pure (null_arg, none)
buf_get_header_field (some header) none key_size (some b) = pure (null_arg, some b)
buf_get_header_field (some header) (some key) key_size (some b) =
    if b.len == 0
    then (do found ← get_header_value_view (some header) (some key) key_size; append_view b found)
    else pure (buffer_err, some b)

-- `c_http_set_headder`: it looks for the field, and whatever it finds it returns 0.
unfoldable pub set_header : CmonBuffer → Option Bytes → ℕ → Option Bytes → ℕ → Cmd ℤ
set_header header key key_size content content_size = do
  text ← bytes_from header.buf
  found ← lift (get_key_value_range text header.len key key_size)
  pure (pos 0)
