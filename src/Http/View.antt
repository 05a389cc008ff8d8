-- ===== src/Http/View.antt =====
-- A header's field and its value as a view of a buffer: `_c_http_find_header_field_key`, and what
-- `_c_http_buf_get_header_value_view` of src/cmon_proxy/cmon_http.c does on the bytes.
use cmon.Base.{ℕ, ◌+◌, Option, none, some, drop, Run, ok, ◌>>=◌}
use cmon.Text.{Bytes, sub_size, find_pattern}
use cmon.Mem.{Ptr, advance}
use cmon.Buffer.{CmonBuffer, CmonBufferView}
use cmon.Http.{crlf, doted}

pub data CmonHttpErrCodes : Type 0 where
  success null_arg header_parsing_err recv_err buffer_err socket_fd_err socket_close key_not_found :
      CmonHttpErrCodes

-- `_c_http_find_header_field_key`; -1 is `none`.
unfoldable pub find_header_field_key : Option Bytes → ℕ → Option Bytes → ℕ → Run (Option ℕ)
unfolding doted
find_header_field_key none size key key_size = ok none
find_header_field_key (some header) size none key_size = ok none
find_header_field_key (some header) size (some key) key_size = do
  doted_key ← doted key key_size
  find_pattern (some doted_key) (key_size + 1) (some header) size

-- `_c_http_header_field_value_length`: the size that it passes is that from the key on, though the
-- text starts behind the key and its colon.
unfoldable pub header_field_value_length : Bytes → ℕ → ℕ → ℕ → Run (Option ℕ)
header_field_value_length header header_size key_index key_size =
    find_pattern (some crlf) 2 (some (drop (key_index + key_size + 1) header))
      (sub_size header_size key_index)

abbrev pub view_of : Ptr → ℕ → Option ℕ → CmonHttpErrCodes × Option CmonBufferView
view_of buf start none = (header_parsing_err, none)
view_of buf start (some size) = (success, some (record { len = size; buf = advance buf start }))

unfoldable pub view_after :
    Ptr → Bytes → ℕ → ℕ → Option ℕ → Run (CmonHttpErrCodes × Option CmonBufferView)
unfolding header_field_value_length
view_after buf header size key_size none = ok (key_not_found, none)
view_after buf header size key_size (some offset) = do
  value ← header_field_value_length header size offset key_size
  ok (view_of buf (offset + key_size + 1) value)

abbrev pub view_in :
    CmonBuffer → Option Bytes → Option Bytes → ℕ → Run (CmonHttpErrCodes × Option CmonBufferView)
view_in b none key key_size = ok (key_not_found, none)
view_in b (some header) key key_size = do
  offset ← find_header_field_key (some header) b.len key key_size
  view_after b.buf header b.len key_size offset
