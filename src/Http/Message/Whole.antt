-- ===== src/Http/Message/Whole.antt =====
-- `c_http_get_message` where one read gives just a header, with no body behind it, and where
-- nothing comes.
use cmon.Base.{
  ℕ, ◌+◌, ◌-◌, ◌%◌, ◌≤◌, ◌<◌, ◌≡◌, refl, sym, ap, ◌∙◌, inl, inr, ◌⊎◌, false, Option, none, some, [],
  ◌++◌, length, take, length-append, length-take, arith, ok, ◌>>=◌, le→leb, ne→==,
}
use cmon.Base.Int.{ℤ, pos}
use cmon.Text.{Bytes, size_mod, sub_size}
use cmon.Text.Search.{Occurs, find_pattern-absent}
use cmon.Str.Alloc.{Allocator}
use cmon.Mem.Copy.{overwrite, take-overwrite, length-overwrite}
use cmon.Http.{header_delim, content_length_name, length_after, get_content_length}
use cmon.Http.Delim.{front}
use cmon.Http.Message.{
  Sockets, CmonHttpMessage, http_max_header_size, http_max_body_chunk, message_struct_size,
  is_negative, Received, failed, closed, header, recv_header, recv_from, round_read, move_excess,
  received_message, get_message,
}
use cmon.Http.Message.Receive.{recv_header-first}

-- A header with its empty line.
abbrev pub ended : Bytes → Bytes
ended head = head ++ header_delim

-- No empty line before the last, at least as long as the name of the field that tells the length
-- of a body, and without that field.
pub record HeaderOnly (head : Bytes) : Type 0 where
  pub first : (r : ℕ) → r < length head → ¬ Occurs header_delim 4 (ended head) r
  pub long : 15 ≤ length (ended head)
  pub no_length :
      (r : ℕ) → r + 15 ≤ length (ended head) → ¬ Occurs content_length_name 15 (ended head) r

-- `malloc` gives the two blocks of a message.
pub record GivesMessage (mem : Allocator) : Type 0 where
  pub message : Bytes
  pub chunk : Bytes
  pub message_given : mem.alloc message_struct_size ≡ some message
  pub chunk_given : mem.alloc http_max_body_chunk ≡ some chunk

-- A message that is a header and no more.
pub record Bodyless (head : Bytes) (msg : CmonHttpMessage) : Type 0 where
  pub size : msg.headers_size ≡ length (ended head)
  pub bytes : take msg.headers_size msg.headers_buff ≡ ended head
  pub held : msg.headers_size ≤ length msg.headers_buff
  pub no_body : msg.total_msg_size ≡ msg.headers_size

-- The search for the field finds nothing in the buffer.
get_content_length-none :
    (buff head : Bytes)
    → HeaderOnly head
    → length (ended head) ≤ length buff
    → length buff < size_mod
    → get_content_length (overwrite buff 0 (ended head)) (length (ended head)) ≡ ok (pos 0)
unfolding get_content_length length_after
get_content_length-none buff head only fits small =
    let absent =
      find_pattern-absent content_length_name (overwrite buff 0 (ended head)) 15
        (length (ended head)) (omega arith) (omega arith) only.long
        (omega (arith, fits, length-overwrite buff 0 (ended head))) (omega (arith, fits, small))
        (λ r inside occ. only.no_length r inside (λ i lt.
          sym (front buff (ended head) (r + i) fits (omega (arith, inside))) ∙ occ i lt)) in
    rw absent refl

-- What the message is made of.
abbrev made_of : ℤ → Bytes → Bytes → ℕ → CmonHttpMessage
made_of fd buff chunk size = record {
  headers_buff = buff;
  body_chunk = chunk;
  fd = fd;
  headers_size = size;
  cur_body_size = sub_size size size;
  content_length = 0;
  total_msg_size = (size + 0) % size_mod;
  remaining_data = sub_size ((size + 0) % size_mod) size;
}

-- Nothing was read past the header.
move_excess-none :
    (buff chunk : Bytes) (size : ℕ)
    → size ≤ length buff
    → move_excess buff chunk size size ≡ ok chunk
move_excess-none buff chunk size held =
    let none_left : size - size ≡ 0 = omega arith in
    rw
      (
        none_left,
        le→leb (size + 0) (length buff) (omega (arith, held)),
        le→leb 0 (length chunk) (omega arith),
      )
      refl

received_message-HeaderOnly :
    (fd : ℤ) (buff chunk head : Bytes)
    → HeaderOnly head
    → length (ended head) ≤ length buff
    → length buff < size_mod
    → received_message fd chunk
        (header (length (ended head)) (overwrite buff 0 (ended head)) (length (ended head)))
      ≡ ok (some (made_of fd (overwrite buff 0 (ended head)) chunk (length (ended head))))
unfolding received_message
received_message-HeaderOnly fd buff chunk head only fits small =
    let held = length-overwrite buff 0 (ended head) in
    rw
      (
        move_excess-none (overwrite buff 0 (ended head)) chunk (length (ended head))
            (omega (arith, fits, held)),
        get_content_length-none buff head only fits small,
      )
      refl

made_of-Bodyless :
    (fd : ℤ) (buff chunk head : Bytes)
    → length (ended head) ≤ length buff
    → length buff < size_mod
    → Bodyless head (made_of fd (overwrite buff 0 (ended head)) chunk (length (ended head)))
made_of-Bodyless fd buff chunk head fits small = record {
  size = refl;
  bytes =
      ap (λ n. take n (overwrite buff 0 (ended head))) (omega arith)
      ∙ take-overwrite buff 0 (ended head) (omega (arith, fits));
  held = omega (arith, fits, length-overwrite buff 0 (ended head));
  no_body = omega (arith, fits, small);
}

module _ (net : Sockets) (fd : ℤ) where
  recv_header-ended :
      (buff head : Bytes) (n : ℕ) (w w' : net.World)
      → length buff ≡ n
      → HeaderOnly head
      → length (ended head) ≤ n
      → n < size_mod
      → net.read fd n w ≡ (some (ended head), w')
      → recv_header net fd buff n w
        ≡ ok
            (header (length (ended head)) (overwrite buff 0 (ended head)) (length (ended head)), w')
  recv_header-ended buff head n w w' sized only fits small answer =
      let size : length head + 4 ≡ length (ended head) =
        omega (arith, length-append head header_delim) in
      let all : 0 + length (ended head) ≡ length (ended head) = omega arith in
      let read : net.read fd (length buff) w ≡ (some (ended head), w') =
        ap (λ k. net.read fd k w) sized ∙ answer in
      let got =
        recv_header-first buff head [] (omega (arith, fits, sized)) (omega (arith, small, sized))
          only.first net fd w w' read in
      ap (λ k. recv_header net fd buff k w) (sym sized)
      ∙ got
      ∙ ap (λ k. ok (header k (overwrite buff 0 (ended head)) (0 + length (ended head)), w')) size
      ∙ ap (λ k. ok (header (length (ended head)) (overwrite buff 0 (ended head)) k, w')) all

  recv_header-failed :
      (buff : Bytes) (n : ℕ) (w w' : net.World)
      → 0 < n
      → net.read fd n w ≡ (none, w')
      → recv_header net fd buff n w ≡ ok (failed, w')
  unfolding recv_header recv_from round_read
  recv_header-failed buff n w w' some_room answer =
      rw (ne→== n 0 (λ e. omega (arith, e)), answer) (ap (λ p. ok (failed, p.1)) answer)

  recv_header-closed :
      (buff : Bytes) (n : ℕ) (w w' : net.World)
      → 0 < n
      → net.read fd n w ≡ (some [], w')
      → recv_header net fd buff n w ≡ ok (closed buff 0, w')
  unfolding recv_header recv_from round_read
  recv_header-closed buff n w w' some_room answer =
      rw (ne→== n 0 (λ e. omega (arith, e)), answer) (ap (λ p. ok (closed buff 0, p.1)) answer)

module _ (net : Sockets) (mem : Allocator) (fd : ℤ) (given : GivesMessage mem)
    (valid : is_negative fd ≡ false) where
  abbrev headers : Bytes
  headers = take http_max_header_size given.message

  get_message-received :
      (received : Received) (w w' : net.World)
      → recv_header net fd headers http_max_header_size w ≡ ok (received, w')
      → get_message net mem fd w
        ≡ (received_message fd given.chunk received >>= λ msg. ok (msg, w'))
  unfolding get_message
  get_message-received received w w' e =
      rw (valid, given.message_given, given.chunk_given) (rw e refl)

  -- The message holds the bytes that were read.
  pub get_message-Bodyless :
      (head : Bytes) (w w' : net.World)
      → HeaderOnly head
      → net.read fd http_max_header_size w ≡ (some (ended head), w')
      → (msg : CmonHttpMessage) × (get_message net mem fd w ≡ ok (some msg, w')) × Bodyless head msg
  get_message-Bodyless head w w' only answer =
      let block = mem.alloc_size message_struct_size given.message given.message_given in
      let sized : length headers ≡ http_max_header_size =
        omega (arith, block, length-take http_max_header_size given.message) in
      let fits = net.read_size fd http_max_header_size w w' (ended head) answer in
      let got =
        recv_header-ended net fd headers head http_max_header_size w w' sized only fits
          (omega arith) answer in
      let msg =
        received_message-HeaderOnly fd headers given.chunk head only (omega (arith, fits, sized))
          (omega (arith, sized)) in
      (
        made_of fd (overwrite headers 0 (ended head)) given.chunk (length (ended head)),
        get_message-received _ w w' got ∙ rw msg refl,
        made_of-Bodyless fd headers given.chunk head (omega (arith, fits, sized))
            (omega (arith, sized)),
      )

  -- An error, or the other side's end of the connection, gives no message.
  pub get_message-none :
      (answer : Option Bytes) (w w' : net.World)
      → (answer ≡ none) ⊎ (answer ≡ some [])
      → net.read fd http_max_header_size w ≡ (answer, w')
      → get_message net mem fd w ≡ ok (none, w')
  unfolding received_message
  get_message-none answer w w' (inl lost) e =
      let read = e ∙ ap (λ a. (a, w')) lost in
      get_message-received failed w w'
        (recv_header-failed net fd headers http_max_header_size w w' (omega arith) read)
  get_message-none answer w w' (inr ended) e =
      let read = e ∙ ap (λ a. (a, w')) ended in
      get_message-received (closed headers 0) w w'
        (recv_header-closed net fd headers http_max_header_size w w' (omega arith) read)
