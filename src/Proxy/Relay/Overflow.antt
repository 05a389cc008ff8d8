-- ===== src/Proxy/Relay/Overflow.antt =====
-- The first chunk of a body that `c_proxy_send_message` relays.
use cmon.Base.{
  ℕ, zero, suc, ◌+◌, ◌-◌, ◌%◌, ◌^◌, ◌≤◌, ◌<◌, ◌≡◌, ◌⊎◌, refl, sym, inl, inr, Bool, true, false,
  Option, none, some, [], ◌∷◌, length, drop, set, length-set, arith, Run, ok, fault, ◌>>=◌, ltb,
  ◌==◌, Bool-cases, get_elem?, lt→ltb, Option-cases, some_inj,
}
use cmon.Base.Int.{ℤ, pos}
use cmon.Text.{Bytes, size_mod, sub_size, match_at, search_from, find_pattern}
use cmon.Str.{put, strncpy}
use cmon.Str.Alloc.{Allocator}
use cmon.Http.Message.{Sockets, CmonHttpMessage, is_negative, recv_body_chunk, send_headers}
use cmon.Proxy.Relay.{
  search_tag, sse_payload, payload_size, inject, inject_found, inject_round, relay_chunk,
  relay_received, relay_from, send_message,
}

-- It has undefined behaviour, or it returns bytes as many as there were.
abbrev Keeps : Bytes → Run Bytes → Type 0
Keeps b r = (r ≡ fault) ⊎ ((d : Bytes) × (r ≡ ok d) × (length d ≡ length b))

put-Keeps : (b : Bytes) (i v : ℕ) → Keeps b (put b i v)
put-Keeps b i v = elim (Bool-cases (ltb i (length b))) [
  | inl room ↦ inr (set b i v, rw room, length-set b i v)
  | inr full ↦ inl (rw full)
]

strncpy-Keeps :
    (dst : Bytes) (off : ℕ) (src : Bytes) (ended : Bool) (n : ℕ)
    → Keeps dst (strncpy dst off src ended n)
unfolding strncpy
strncpy-Keeps dst off src ended zero = inr (dst, refl, refl)
strncpy-Keeps dst off src true (suc n) = elim (Bool-cases (ltb off (length dst))) [
  | inl room ↦
      rw room (rw (sym (length-set dst off 0)) (strncpy-Keeps (set dst off 0) (off + 1) src true n))
  | inr full ↦ inl (rw full)
]
strncpy-Keeps dst off [] false (suc n) = inl refl
strncpy-Keeps dst off (c ∷ cs) false (suc n) = elim (Bool-cases (ltb off (length dst))) [
  | inl room ↦
      rw room
        (rw (sym (length-set dst off c)) (strncpy-Keeps (set dst off c) (off + 1) cs (c == 0) n))
  | inr full ↦ inl (rw full)
]

-- `strncpy` writes all of its `n` bytes: one that does not fit is a write past the end.
strncpy-fault :
    (dst : Bytes) (off : ℕ) (src : Bytes) (ended : Bool) (n : ℕ)
    → 0 < n
    → length dst < off + n
    → strncpy dst off src ended n ≡ fault
unfolding strncpy
strncpy-fault dst off src ended zero h lt = absurd (omega arith)
strncpy-fault dst off src true (suc n) h lt = elim (Bool-cases (ltb off (length dst))) [
  | inl room ↦ rw room (
      strncpy-fault (set dst off 0) (off + 1) src true n (ground arith)
        (omega (arith, length-set dst off 0)))
  | inr full ↦ rw full
]
strncpy-fault dst off [] false (suc n) h lt = refl
strncpy-fault dst off (c ∷ cs) false (suc n) h lt = elim (Bool-cases (ltb off (length dst))) [
  | inl room ↦ rw room (
      strncpy-fault (set dst off c) (off + 1) cs (c == 0) n (ground arith)
        (omega (arith, length-set dst off c)))
  | inr full ↦ rw full
]

-- After a step that keeps the length, one that fails for every block of that length.
then-fault :
    {A : Type 0} (b : Bytes) (r : Run Bytes) (k : Bytes → Run A)
    → Keeps b r
    → ((d : Bytes) → length d ≡ length b → k d ≡ fault)
    → (r >>= k) ≡ fault
then-fault b r k kept all = elim kept [ inl e ↦ rw e | inr (d, e, size) ↦ rw e (all d size) ]

inject-fault :
    (mem : Allocator) (body : Bytes) (cur rc : ℕ)
    → rc < cur
    → cur < size_mod - 200
    → inject mem body cur rc ≡ fault
unfolding inject
inject-fault mem body cur rc before small =
    elim (Option-cases (mem.alloc ((cur + payload_size) % size_mod))) [
      | inl e ↦ rw e
      | inr (chunk, e) ↦
          let size = mem.alloc_size ((cur + payload_size) % size_mod) chunk e in
          rw e (
            then-fault chunk _ _ (strncpy-Keeps chunk 0 body false (sub_size rc 1)) λ front fs.
              then-fault front _ _ (strncpy-Keeps front rc sse_payload false payload_size)
                λ middle ms.
                  strncpy-fault middle (rc + 1 + payload_size) (drop rc body) false
                    (sub_size cur rc) (omega (arith, before, small))
                    (omega (arith, size, fs, ms, before, small)))
    ]

match_at-Settled :
    (p : Bytes) (n : ℕ) (t : Bytes) (s k i : ℕ)
    → (match_at p n t s k i ≡ fault) ⊎ ((b : Bool) × (match_at p n t s k i ≡ ok b))
unfolding match_at
match_at-Settled p n t s zero i = inr (false, refl)
match_at-Settled p n t s (suc k) i = elim (Option-cases (get_elem? t (s + i))) [
  | inl e ↦ inl (rw e)
  | inr (a, ea) ↦ elim (Option-cases (get_elem? p i)) [
    | inl e ↦ inl (rw (ea, e))
    | inr (b, eb) ↦ elim (Bool-cases (a == b)) [
      | inl same ↦ elim (Bool-cases (i == n - 1)) [
        | inl last ↦ inr (true, rw (ea, eb, same, last))
        | inr more ↦ rw (ea, eb, same, more) (match_at-Settled p n t s k (i + 1))
      ]
      | inr differ ↦ inr (false, rw (ea, eb, differ))
    ]
  ]
]

-- What a search finds is one of the shifts that it looked at.
search_from-Below :
    (p : Bytes) (n : ℕ) (t : Bytes) (k s : ℕ)
    → (search_from p n t k s ≡ fault)
      ⊎ ((r : Option ℕ) × (search_from p n t k s ≡ ok r) × ((i : ℕ) → r ≡ some i → i < s + k))
unfolding search_from
search_from-Below p n t zero s = inr (none, refl, λ i e. absurd (cc))
search_from-Below p n t (suc k) s = elim (match_at-Settled p n t s n 0) [
  | inl e ↦ inl (rw e)
  | inr (true, e) ↦ inr (some s, rw e, λ i q. let same = some_inj q in omega (arith, same))
  | inr (false, e) ↦ elim (search_from-Below p n t k (s + 1)) [
    | inl f ↦ inl (rw (e, f))
    | inr (r, er, below) ↦ inr (r, rw (e, er), λ i q. let lt = below i q in omega (arith, lt))
  ]
]

inject_round-fault :
    (mem : Allocator) (buff body : Bytes) (cur : ℕ)
    → length buff ≡ 12
    → 7 ≤ cur
    → cur < size_mod - 200
    → inject_round mem buff body cur false ≡ fault
unfolding inject_round inject_found find_pattern
inject_round-fault mem buff body cur twelve long small =
    elim (search_from-Below search_tag 7 body (sub_size cur 7 + 1) 0) [
      | inl e ↦ rw e
      | inr (none, e, below) ↦
          rw (e, strncpy-fault buff 7 body false 6 (omega arith) (omega (arith, twelve))) refl
      | inr (some rc, e, below) ↦
          let lt = below rc refl in
          rw (e, inject-fault mem body cur rc (omega (arith, lt, long, small)) small) refl
    ]

round-fault :
    (net : Sockets) (mem : Allocator) (rounds : ℕ) (buff : Bytes) (msg msg' : CmonHttpMessage)
    (receiver : ℤ) (hs k : ℕ) (w1 w2 : net.World)
    → ltb hs msg.total_msg_size ≡ true
    → recv_body_chunk net (some msg) w1 ≡ ok (pos k, some msg', w2)
    → inject_round mem buff msg'.body_chunk msg'.cur_body_size false ≡ fault
    → relay_from net mem (suc rounds) (buff, false, hs, msg) receiver w1 ≡ fault
unfolding relay_from relay_received relay_chunk
round-fault net mem rounds buff msg msg' receiver hs k w1 w2 go chunk lost =
    rw (relay_from, go, chunk) (rw lost refl)

-- Where a message has a body beyond the headers that were written, and its first chunk is of at
-- least 7 bytes, `c_proxy_send_message` writes past the end of a block, whatever the chunk holds:
-- of its own twelve bytes of `malloc` where `</body>` is not in the chunk, of the chunk it
-- allocates where it is. The receiver is a descriptor, and the chunk's size is less than 2 ^ 31.
pub send_message-fault :
    (net : Sockets) (mem : Allocator) (rounds : ℕ) (buff : Bytes) (msg msg' : CmonHttpMessage)
    (receiver : ℤ) (hs k : ℕ) (w w1 w2 : net.World)
    → length buff ≡ 12
    → is_negative receiver ≡ false
    → send_headers net (some msg) receiver w ≡ ok (pos hs, w1)
    → hs < msg.total_msg_size
    → recv_body_chunk net (some msg) w1 ≡ ok (pos k, some msg', w2)
    → 7 ≤ msg'.cur_body_size
    → msg'.cur_body_size < 2 ^ 31
    → send_message net mem (suc rounds) buff (some msg) receiver w ≡ fault
unfolding send_message
send_message-fault net mem rounds buff msg msg' receiver hs k w w1 w2 twelve valid sent more chunk
      long small =
    let go = lt→ltb hs msg.total_msg_size more in
    let lost =
      inject_round-fault mem buff msg'.body_chunk msg'.cur_body_size twelve long (omega arith) in
    rw (valid, sent) (round-fault net mem rounds buff msg msg' receiver hs k w1 w2 go chunk lost)
