-- ===== src/Paths/Extension.antt =====
-- The copy that `cmon_path_new` makes, and the extension that it finds.
use cmon.Base.{
  ℕ, suc, ◌+◌, ◌-◌, ◌*◌, ◌%◌, ◌≤◌, ◌<◌, ◌≡◌, refl, sym, ap, ◌∙◌, inl, inr, some, [], ◌∷◌, ◌++◌,
  append_assoc, length, take, set, take-set, get_elem?, get_elem?-take, length-set, length-append,
  ext, arith, ok, leb, ◌==◌, lt→ltb, ge→ltb, ne→==, Bool-cases, if◌then◌else◌,
}
use cmon.Text.{Bytes, size_mod}
use cmon.Paths.{CmonPath, Reallocator, max_path_len, room_for, path_from, path_new}
use cmon.Paths.Dot.{Extension, last_dot, Text, path_of-Extension}

-- Allocation never fails.
pub record Ample (mem : Reallocator) : Type 0 where
  pub gives : (n : ℕ) → (b : Bytes) × (mem.alloc n ≡ some b)
  pub grows : (b : Bytes) (n : ℕ) → (b' : Bytes) × (mem.realloc b n ≡ some b')

take-shorter : (b b' : Bytes) (i n : ℕ) → i ≤ n → take n b' ≡ b → take i b' ≡ take i b
take-shorter b b' i n le same = ext _ _ λ j. ground (
  arith,
  get_elem?-take i b' j,
  get_elem?-take i b j,
  get_elem?-take n b' j,
  ap (λ t. get_elem? t j) same,
)

module _ (mem : Reallocator) (ample : Ample mem) where
  room_for-some :
      (size i : ℕ) (block : Bytes)
      → 2 ≤ size
      → length block ≡ size
      → i < size
      → i ≤ 4096
      → (b : Bytes) × (n : ℕ) × (room_for mem size block i ≡ (some b, n))
        × (length b ≡ n)
        × (i + 1 < n)
        × (take i b ≡ take i block)
  unfolding room_for
  room_for-some size i block two sized inside few = elim (Bool-cases (leb (size - 1) i)) [
    | inl full ↦
        let (b, e) = ample.grows block (size * 2 % size_mod) in
        let n = mem.realloc_size block (size * 2 % size_mod) b e in
        let kept = mem.realloc_keeps block (size * 2 % size_mod) b (ground (arith, sized)) e in
        (
          b,
          size * 2 % size_mod,
          rw (full, e) refl,
          n,
          ground arith,
          take-shorter block b i (length block) (omega (arith, sized)) kept,
        )
    | inr room ↦ (block, size, rw room refl, sized, ground arith, refl)
  ]

  path_from-copy :
      (size i last : ℕ) (block done cs rest : Bytes)
      → 2 ≤ size
      → length block ≡ size
      → i < size
      → i ≡ length done
      → take i block ≡ done
      → Text cs
      → i + length cs < 4096
      → (buffer : Bytes) × (n : ℕ) × (path_from mem size block i last (cs ++ 0 ∷ rest)
          ≡ ok (some (buffer, i + length cs, last_dot last i cs), n))
        × (take (suc (i + length cs)) buffer ≡ done ++ (cs ++ 0 ∷ []))
  unfolding path_from
  path_from-copy size i last block done [] rest two sized inside counted read bytes few =
      let (b, n, room, bn, space, kept) =
        room_for-some size i block two sized inside (omega (arith, few)) in
      let below = ge→ltb (max_path_len - 1) i (omega (arith, few)) in
      let fits = lt→ltb i (length b) (omega (arith, bn, space)) in
      let here : i + 0 ≡ i = omega arith in
      let next : suc (i + 0) ≡ i + 1 = omega arith in
      (
        set b i 0,
        n,
        rw (below, room, fits) (rw here refl),
        ap (λ k. take k (set b i 0)) next
            ∙ take-set b i 0 (omega (arith, bn, space))
            ∙ ap (λ t. t ++ 0 ∷ []) (kept ∙ read),
      )
  path_from-copy size i last block done (c ∷ cs) rest two sized inside counted read
        (some_byte, bytes) few =
      let (b, n, room, bn, space, kept) =
        room_for-some size i block two sized inside (omega (arith, few)) in
      let below = ge→ltb (max_path_len - 1) i (omega (arith, few)) in
      let fits = lt→ltb i (length b) (omega (arith, bn, space)) in
      let longer = length-append done (c ∷ []) in
      let copied =
        take-set b i c (omega (arith, bn, space)) ∙ ap (λ t. t ++ c ∷ []) (kept ∙ read) in
      let (buffer, m, e, whole) =
        path_from-copy n (i + 1) (if c == b'.' then i else last) (set b i c) (done ++ c ∷ []) cs
          rest (omega (arith, space, two)) (length-set b i c ∙ bn) space
          (omega (arith, counted, longer)) copied bytes (omega (arith, few)) in
      let here : i + suc (length cs) ≡ i + 1 + length cs = omega arith in
      (
        buffer,
        m,
        rw (below, room, ne→== c 0 some_byte, fits) (rw here e),
        rw here (whole ∙ append_assoc done (c ∷ []) (cs ++ 0 ∷ [])),
      )

-- `cmon_path_new` gives a path that holds the text with its NUL byte, its length, and as
-- extension the last dot with what is behind it, or none where no dot is behind the first byte;
-- whatever `buff_size` an earlier call has left. For a text of less than 4096 bytes, and where
-- `malloc` and `realloc` do not fail.
pub path_new-Extension :
    (mem : Reallocator) (size : ℕ) (s rest : Bytes)
    → Ample mem
    → 2 ≤ size
    → Text s
    → length s < 4096
    → (path : CmonPath) × (n : ℕ) × (path_new mem size (s ++ 0 ∷ rest) ≡ ok (some path, n))
      × (take (suc (length s)) path.path ≡ s ++ 0 ∷ [])
      × (path.path_len ≡ length s)
      × Extension s path.ext_len path.ext
unfolding path_new
path_new-Extension mem size s rest ample two bytes few =
    let (struct, es) = ample.gives 32 in
    let (block, eb) = ample.gives size in
    let (buffer, n, e, whole) =
      path_from-copy mem ample size 0 0 block [] s rest two (mem.alloc_size size block eb)
        (omega (arith, two)) refl refl bytes (omega (arith, few)) in
    let same : 0 + length s ≡ length s = omega arith in
    let all : take (suc (length s)) buffer ≡ s ++ 0 ∷ [] = rw (sym same) whole in
    let (path, done, at, len, extension) =
      path_of-Extension mem s (0 + length s) n buffer same bytes all in
    (path, n, rw (es, eb) (rw e done), rw at all, len, extension)
