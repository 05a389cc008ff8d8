-- ===== src/Paths/Unended.antt =====
-- The first call of `cmon_path_new_full_path`.
use cmon.Base.{
  ℕ, zero, suc, ◌+◌, ◌%◌, ◌≤◌, ◌<◌, ◌≡◌, refl, sym, ap, ◌∙◌, false, none, some, [], ◌∷◌, ◌++◌,
  append_assoc, append-nil, length, take, take-ge, take-set, set, length-set, lt→ltb, ne→==, ok,
  fault, arith,
}
use cmon.Text.{Bytes, size_mod}
use cmon.Str.{strncpy}
use cmon.Paths.{Reallocator}
use cmon.Paths.Dot.{Text}
use cmon.Paths.Extension.{Ample}
use cmon.Paths.Full.{str_n_len, text_of, known_cwd, new_full_path}

str_n_len-Text :
    (s rest : Bytes) (n : ℕ) → Text s → length s < n → str_n_len n (s ++ 0 ∷ rest) ≡ ok (length s)
unfolding str_n_len
str_n_len-Text s rest zero bytes lt = absurd (omega arith)
str_n_len-Text [] rest (suc n) bytes lt = refl
str_n_len-Text (c ∷ s) rest (suc n) (some_byte, bytes) lt =
    rw (str_n_len-Text s rest n bytes (omega arith), ne→== c 0 some_byte) refl

-- The object has no NUL byte.
text_of-fault : (s : Bytes) → Text s → text_of s ≡ fault
unfolding text_of
text_of-fault [] bytes = refl
text_of-fault (c ∷ s) (some_byte, bytes) = rw (text_of-fault s bytes, ne→== c 0 some_byte) refl

strncpy-Text :
    (dst : Bytes) (off : ℕ) (s rest : Bytes)
    → Text s
    → off + length s ≤ length dst
    → (b : Bytes) × (strncpy dst off (s ++ rest) false (length s) ≡ ok b)
      × (length b ≡ length dst)
      × (take (off + length s) b ≡ take off dst ++ s)
unfolding strncpy
strncpy-Text dst off [] rest bytes fits =
    let here : off + 0 ≡ off = omega arith in
    (dst, refl, refl, rw (here, append-nil (take off dst)) refl)
strncpy-Text dst off (c ∷ s) rest (some_byte, bytes) fits =
    let inside = lt→ltb off (length dst) (omega arith) in
    let (b, e, size, copied) =
      strncpy-Text (set dst off c) (off + 1) s rest bytes (omega (arith, length-set dst off c)) in
    let here : off + suc (length s) ≡ off + 1 + length s = omega arith in
    (
      b,
      rw (inside, ne→== c 0 some_byte) e,
      size ∙ length-set dst off c,
      rw here (
          copied
          ∙ ap (λ t. t ++ s) (take-set dst off c (omega arith))
          ∙ append_assoc (take off dst) (c ∷ []) s),
    )

-- The first call of `cmon_path_new_full_path` reads past the end of a block, whatever path it is
-- given: it copies the working directory to a block of just its length, without the NUL byte, and
-- then prints it as a text. For a path and a working directory of less than 4096 bytes, and where
-- `malloc` does not fail.
pub new_full_path-fault :
    (mem : Reallocator) (cwd src rest rest' : Bytes) (cwd_len : ℕ)
    → Ample mem
    → Text cwd
    → length cwd < 4096
    → Text src
    → length src < 4096
    → new_full_path mem
        (some (cwd ++ 0 ∷ rest))
        (record { cwd = none; cwd_len = cwd_len })
        (src ++ 0 ∷ rest')
      ≡ fault
unfolding new_full_path known_cwd
new_full_path-fault mem cwd src rest rest' cwd_len ample cwd_bytes cwd_short src_bytes src_short =
    let (block, eb) = ample.gives (length cwd) in
    let (struct, es) = ample.gives 32 in
    let (path, ep) = ample.gives (((length src + length cwd + 1) % size_mod + 1) % size_mod) in
    let size = mem.alloc_size (length cwd) block eb in
    let (b, e, same_size, copied) =
      strncpy-Text block 0 cwd (0 ∷ rest) cwd_bytes (omega (arith, size)) in
    let start : 0 + length cwd ≡ length cwd = omega arith in
    let whole : b ≡ cwd =
      sym (take-ge (length cwd) b (omega (arith, same_size, size))) ∙ (rw (sym start) copied) in
    let len = str_n_len-Text cwd rest 4096 cwd_bytes cwd_short in
    let src_len = str_n_len-Text src rest' 4096 src_bytes src_short in
    rw (len, eb) (rw (e, src_len, es) (rw ep (rw (whole, text_of-fault cwd cwd_bytes) refl)))
