-- ===== src/Watching/Dangling.antt =====
-- `ino_recursive_dir_add` with more directories than the array has slots for.
use cmon.Base.{
  ℕ, ◌+◌, ◌<◌, ◌≡◌, refl, sym, ap, ◌∙◌, false, Option, none, some, List, [], ◌∷◌, ◌++◌, length,
  length-append, arith, ok, fault, lt→ltb,
}
use cmon.Base.Int.{ℤ}
use cmon.Text.{Bytes}
use cmon.Str.{CmonString}
use cmon.Str.Alloc.{Allocator}
use cmon.Str.Array.{CmonStringArray, str_arr_find}
use cmon.Str.CStr.{CStr}
use cmon.Str.Concat.{Allocates, of_text}
use cmon.Config.{same_text}
use cmon.Integers.{CmonIntArray, memory_increment}
use cmon.Integers.Items.{Represents, int_arr_add-append}
use cmon.Watching.Dirs.{
  directory, Dir, no_more, entry, here, above, slash, Inotify, at, freed, record_watch, watch_dir,
  add_entries, recursive_dir_add,
}
use cmon.Watching.Visits.{Named, join-of_text, joined-CStr, still, record_watch-room}

-- What a directory must be to be watched, behind the path `p`.
pub record Watched (ignored : CmonStringArray) (p name n : Bytes) : Type 0 where
  pub named : Named p name n
  pub not_parent : same_text name above ≡ false
  pub not_ignored : str_arr_find ignored (some (of_text (p ++ n))) ≡ ok none
  pub ended : Named (p ++ n) slash (b'/' ∷ [])

-- A full array is left for a longer one, and freed.
record_watch-full :
    (ints : ℕ → Option (List ℤ)) {a : CmonIntArray} {xs : List ℤ} (v : ℤ) (block : List ℤ)
    → Represents a xs
    → length xs ≡ a.size
    → a.size < 5000
    → ints (a.size + memory_increment) ≡ some block
    → length block ≡ a.size + memory_increment
    → (c : CmonIntArray) × (record_watch ints v (still a) (at a)
        ≡ ok (record { given = freed; own = some (at c) }))
unfolding record_watch
record_watch-full ints {a} v block r full few given size =
    let (c, e, rc) = int_arr_add-append v block r (omega (arith, full, few)) size in
    let moved = lt→ltb a.size (a.len + 1) (omega (arith, r.counted, full)) in
    (c, rw (given, e) (rw moved refl))

module _ (os : Inotify) (mem : Allocator) (ints : ℕ → Option (List ℤ)) (ignored : CmonStringArray)
    (ample : (n : ℕ) → Allocates mem n) where
  -- The call for the directory itself, which takes the longer array and frees the full one.
  inner-freed :
      {p : Bytes} (below : Dir) {a : CmonIntArray} {xs : List ℤ} (path : CmonString)
      (block : List ℤ) (w : os.World)
      → Watched ignored p here (b'.' ∷ [])
      → CStr path.string p
      → Represents a xs
      → length xs ≡ a.size
      → a.size < 5000
      → ints (a.size + memory_increment) ≡ some block
      → length block ≡ a.size + memory_increment
      → (c : CmonIntArray) × (w' : os.World) × (add_entries os mem ints ignored
            (entry (directory here below) no_more)
            path
            (still a)
            w
          ≡ ok (record { given = freed; own = some (at c) }, w'))
  unfolding add_entries same_text
  inner-freed {p} below path block w d text r full few given size =
      let first = watch_dir os (of_text (p ++ b'.' ∷ [])).string w in
      let (c, e) = record_watch-full ints first.0 block r full few given size in
      let joined = joined-CStr text d.named in
      (
        c,
        first.1,
        rw (join-of_text mem ample text d.named)
            (rw d.not_ignored (rw e (rw (join-of_text mem ample joined d.ended) refl))),
      )

  -- Where the array has one slot left, a directory that has its own entry "." and a directory behind it
  -- make `ino_recursive_dir_add` use an array that has been freed: the recursive call puts the second
  -- descriptor into a longer array and frees the full one, which its caller goes on with. For
  -- directories that are to be watched, an array of less than 5000 slots, and where `malloc` does not fail.
  pub recursive_dir_add-fault :
      {p name n name' n' : Bytes} (below below' rest : Dir) {a : CmonIntArray} {xs : List ℤ}
      (path : CmonString) (block : List ℤ) (w : os.World)
      → Watched ignored p name n
      → same_text name here ≡ false
      → Watched ignored ((p ++ n) ++ b'/' ∷ []) here (b'.' ∷ [])
      → Watched ignored p name' n'
      → CStr path.string p
      → Represents a xs
      → length xs + 1 ≡ a.size
      → a.size < 5000
      → ints (a.size + memory_increment) ≡ some block
      → length block ≡ a.size + memory_increment
      → recursive_dir_add os mem ints ignored
          (entry
            (directory name (entry (directory here below) no_more))
            (entry (directory name' below') rest))
          path
          (at a)
          w
        ≡ fault
  unfolding recursive_dir_add add_entries
  recursive_dir_add-fault {p} {n} below below' rest {xs} path block w d other inner next text r last
        few given size =
      let first = watch_dir os (of_text (p ++ n)).string w in
      let longer = length-append xs (first.0 ∷ []) in
      let (b, e, rb, sb) =
        record_watch-room ints first.0 r (omega (arith, last)) (omega (arith, few)) in
      let joined = joined-CStr text d.named in
      let (c, w', lost) =
        inner-freed below (of_text ((p ++ n) ++ b'/' ∷ [])) block first.1 inner
          (joined-CStr joined d.ended) rb (omega (arith, longer, last, sb)) (omega (arith, few, sb))
          (rw sb given) (size ∙ ap (λ k. k + memory_increment) (sym sb)) in
      rw (join-of_text mem ample text d.named) (
        rw (d.not_parent, d.not_ignored)
          (rw e (
            rw (join-of_text mem ample joined d.ended) (
              rw other (
                rw lost (
                  rw (join-of_text mem ample text next.named)
                    (rw (next.not_parent, next.not_ignored) refl)))))))
