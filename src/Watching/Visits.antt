-- ===== src/Watching/Visits.antt =====
-- The directories that `ino_recursive_dir_add` comes by.
use cmon.Base.{
  ℕ, suc, ◌+◌, ◌≤◌, ◌<◌, ◌≡◌, refl, sym, ap, subst, ◌∙◌, true, false, Option, none, some, List, [],
  ◌∷◌, ◌++◌, append-nil, append_assoc, length, length-append, length-set, set, take-set, arith, Run,
  ok, lt→ltb, ge→ltb,
}
use cmon.Base.Int.{ℤ}
use cmon.Text.{Bytes}
use cmon.Str.{CmonString, str_new_from_char_arrs}
use cmon.Str.Alloc.{Allocator}
use cmon.Str.Array.{CmonStringArray, str_arr_find}
use cmon.Str.CStr.{CStr, nil, cons, CStr-append}
use cmon.Str.Concat.{Allocates, of_text, str_new_from_char_arrs-concat}
use cmon.Config.{same_text}
use cmon.Integers.{CmonIntArray, int_arr_add, max_int_array_size}
use cmon.Integers.Items.{Represents}
use cmon.Watching.Dirs.{
  directory, other_file, Dir, no_more, entry, here, above, slash, Inotify, at, Descriptors,
  record_watch, watch_dir, add_entries, recursive_dir_add,
}

-- Behind the path `p`, the entry's name is the text `n`, and both together are not too long.
pub record Named (p : Bytes) (name n : Bytes) : Type 0 where
  pub text : CStr name n
  pub short : length (p ++ n) ≤ 257

module _ (mem : Allocator) (ample : (n : ℕ) → Allocates mem n) where
  pub join-of_text :
      {b p name n : Bytes}
      → CStr b p
      → Named p name n
      → str_new_from_char_arrs mem (some b) (name ∷ []) ≡ ok (some (of_text (p ++ n)))
  join-of_text {p} {n} path named =
      let size = length-append p n in
      let made =
        str_new_from_char_arrs-concat mem path (cons named.text nil)
          (omega (arith, size, named.short), (omega (arith, size, named.short), tt)) (omega arith)
          (ample _) in
      made ∙ ap (λ t. ok (some (of_text (p ++ t)))) (append-nil n)

pub joined-CStr :
    {b p name n : Bytes} → CStr b p → Named p name n → CStr (of_text (p ++ n)).string (p ++ n)
joined-CStr path named = CStr-append path named.text

-- A call's pointer to an array that has stayed where it was.
abbrev pub still : CmonIntArray → Descriptors
still a = record { given = at a; own = none }

-- A descriptor goes to a slot that is there.
pub record_watch-room :
    (ints : ℕ → Option (List ℤ)) {a : CmonIntArray} {xs : List ℤ} (v : ℤ)
    → Represents a xs
    → length xs < a.size
    → a.size ≤ 5000
    → (b : CmonIntArray) × (record_watch ints v (still a) (at a) ≡ ok (still b))
      × Represents b (xs ++ v ∷ [])
      × (b.size ≡ a.size)
unfolding int_arr_add record_watch
record_watch-room ints {a} {xs} v r room most =
    let below = ge→ltb max_int_array_size (a.len + 1) (omega (arith, r.counted, room, most)) in
    let kept = ge→ltb a.size (a.len + 1) (omega (arith, r.counted, room)) in
    let inside : a.len < length a.arr = omega (arith, r.counted, r.slots, room) in
    let longer = length-append xs (v ∷ []) in
    (
      record a { len = a.len + 1; arr = set a.arr a.len v },
      rw (below, kept, lt→ltb a.len (length a.arr) inside) refl,
      record {
        counted = omega (arith, r.counted, longer);
        slots = length-set a.arr a.len v ∙ r.slots;
        room = omega (arith, r.counted, room);
        items = take-set a.arr a.len v inside ∙ ap (λ t. t ++ v ∷ []) r.items;
      },
      refl,
    )

-- The paths that come of a listing, in order: one for each entry that is a directory, but "..",
-- those to ignore and what is below these. "." is the directory itself, and nothing is looked for
-- below it; a directory below has its path once by its name and once more by its own ".".
pub data Visits (ignored : CmonStringArray) : Bytes → Dir → List Bytes → Type 0 where
  finished : {p : Bytes} → Visits ignored p no_more []
  file :
      {p name n : Bytes} {rest : Dir} {ws : List Bytes}
      → Named p name n
      → Visits ignored p rest ws
      → Visits ignored p (entry (other_file name) rest) ws
  parent :
      {p name n : Bytes} {below rest : Dir} {ws : List Bytes}
      → Named p name n
      → same_text name above ≡ true
      → Visits ignored p rest ws
      → Visits ignored p (entry (directory name below) rest) ws
  ignore :
      {p name n : Bytes} {below rest : Dir} {ws : List Bytes} {found : CmonString}
      → Named p name n
      → same_text name above ≡ false
      → str_arr_find ignored (some (of_text (p ++ n))) ≡ ok (some found)
      → Visits ignored p rest ws
      → Visits ignored p (entry (directory name below) rest) ws
  itself :
      {p name n : Bytes} {below rest : Dir} {ws : List Bytes}
      → Named p name n
      → same_text name above ≡ false
      → str_arr_find ignored (some (of_text (p ++ n))) ≡ ok none
      → same_text name here ≡ true
      → Named (p ++ n) slash (b'/' ∷ [])
      → Visits ignored p rest ws
      → Visits ignored p (entry (directory name below) rest) ((p ++ n) ∷ ws)
  inside :
      {p name n : Bytes} {below rest : Dir} {vs ws : List Bytes}
      → Named p name n
      → same_text name above ≡ false
      → str_arr_find ignored (some (of_text (p ++ n))) ≡ ok none
      → same_text name here ≡ false
      → Named (p ++ n) slash (b'/' ∷ [])
      → Visits ignored ((p ++ n) ++ b'/' ∷ []) below vs
      → Visits ignored p rest ws
      → Visits ignored p (entry (directory name below) rest) ((p ++ n) ∷ (vs ++ ws))

module _ (os : Inotify) where
  -- The descriptors that the system gives for the paths, in order, and the world after that.
  abbrev pub watch_all : List Bytes → os.World → List ℤ × os.World
  watch_all [] w = ([], w)
  watch_all (p ∷ ps) w =
      let first = watch_dir os (of_text p).string w in
      let others = watch_all ps first.1 in (first.0 ∷ others.0, others.1)

  watch_all-append :
      (ps qs : List Bytes) (w : os.World)
      → watch_all (ps ++ qs) w ≡ (
        (watch_all ps w).0 ++ (watch_all qs (watch_all ps w).1).0,
        (watch_all qs (watch_all ps w).1).1,
      )
  watch_all-append [] qs w = refl
  watch_all-append (p ∷ ps) qs w =
      let first = watch_dir os (of_text p).string w in rw (watch_all-append ps qs first.1) refl

  length-watch_all : (ps : List Bytes) (w : os.World) → length (watch_all ps w).0 ≡ length ps
  length-watch_all [] w = refl
  length-watch_all (p ∷ ps) w = ap suc (length-watch_all ps (watch_dir os (of_text p).string w).1)

module _ (os : Inotify) (mem : Allocator) (ints : ℕ → Option (List ℤ)) (ignored : CmonStringArray)
    (ample : (n : ℕ) → Allocates mem n) where
  -- Where a call ends with the array where it was: the descriptors stand behind those it had.
  abbrev Ends :
      CmonIntArray → List ℤ → List Bytes → os.World → Run (Descriptors × os.World) → Type 0
  Ends a xs ws w r =
      (b : CmonIntArray) × (r ≡ ok (still b, (watch_all os ws w).1))
      × Represents b (xs ++ (watch_all os ws w).0)
      × (b.size ≡ a.size)

  add_entries-Visits :
      {p : Bytes} {dir : Dir} {ws : List Bytes} {a : CmonIntArray} {xs : List ℤ} (path : CmonString)
      (w : os.World)
      → Visits ignored p dir ws
      → CStr path.string p
      → Represents a xs
      → length xs + length ws ≤ a.size
      → a.size ≤ 5000
      → Ends a xs ws w (add_entries os mem ints ignored dir path (still a) w)
  unfolding add_entries
  add_entries-Visits {a} {xs} path w finished text r room most =
      (a, refl, rw (append-nil xs) r, refl)
  add_entries-Visits path w (file named rest) text r room most =
      rw (join-of_text mem ample text named) (add_entries-Visits path w rest text r room most)
  add_entries-Visits path w (parent named up rest) text r room most =
      rw (join-of_text mem ample text named)
        (rw up (add_entries-Visits path w rest text r room most))
  add_entries-Visits path w (ignore named up found rest) text r room most =
      rw (join-of_text mem ample text named)
        (rw (up, found) (add_entries-Visits path w rest text r room most))
  add_entries-Visits {xs} path w (itself {p} {n} {ws} named up found self ended rest) text r room
        most =
      let joined = joined-CStr text named in
      let first = watch_dir os (of_text (p ++ n)).string w in
      let longer = length-append xs (first.0 ∷ []) in
      let (b, e, rb, sb) = record_watch-room ints first.0 r (omega (arith, room)) most in
      let (c, e', rc, sc) =
        add_entries-Visits path first.1 rest text rb (omega (arith, longer, room, sb))
          (omega (arith, sb, most)) in
      (
        c,
        rw (join-of_text mem ample text named)
            (rw (up, found) (rw e (rw (join-of_text mem ample joined ended) (rw self e')))),
        subst (Represents c) (append_assoc xs (first.0 ∷ []) (watch_all os ws first.1).0) rc,
        sc ∙ sb,
      )
  add_entries-Visits {xs} path w (inside {p} {n} {vs} {ws} named up found self ended sub rest) text
        r room most =
      let joined = joined-CStr text named in
      let first = watch_dir os (of_text (p ++ n)).string w in
      let longer = length-append xs (first.0 ∷ []) in
      let both = length-append vs ws in
      let (b, e, rb, sb) = record_watch-room ints first.0 r (omega (arith, room)) most in
      let (c, e', rc, sc) =
        add_entries-Visits (of_text ((p ++ n) ++ b'/' ∷ [])) first.1 sub (joined-CStr joined ended)
          rb (omega (arith, longer, both, room, sb)) (omega (arith, sb, most)) in
      let deeper = watch_all os vs first.1 in
      let count = length-append (xs ++ first.0 ∷ []) deeper.0 in
      let each = length-watch_all os vs first.1 in
      let (d, e'', rd, sd) =
        add_entries-Visits path deeper.1 rest text rc
          (omega (arith, longer, both, count, each, room, sb, sc)) (omega (arith, sb, sc, most)) in
      let all = watch_all-append os vs ws first.1 in
      (
        d,
        rw (join-of_text mem ample text named) (
              rw (up, found)
                (rw e (rw (join-of_text mem ample joined ended) (rw self (rw e' e'')))))
            ∙ ap (λ q. ok (still d, q.1)) (sym all),
        subst (Represents d)
            (append_assoc (xs ++ first.0 ∷ []) deeper.0 (watch_all os ws deeper.1).0
              ∙ append_assoc xs (first.0 ∷ []) (deeper.0 ++ (watch_all os ws deeper.1).0)
              ∙ ap (λ q. xs ++ first.0 ∷ q.0) (sym all))
            rd,
        sd ∙ sc ∙ sb,
      )

  -- `ino_recursive_dir_add` gives inotify just the paths of `Visits`, in the order of the listing,
  -- and puts their descriptors, in that order, behind those in the array, which stays where it is.
  -- The paths are one for each entry of a listing that is a directory to be watched, "." included,
  -- but for the ones to ignore and what is below these: where each listing has its ".", the
  -- directory itself comes once and each one below it twice, under its name and by its own ".". For
  -- names and paths that are texts of at most 257 bytes together, an array with a slot for each path
  -- and of at most 5000, and where `malloc` does not fail.
  pub recursive_dir_add-Visits :
      {p : Bytes} {dir : Dir} {ws : List Bytes} {a : CmonIntArray} {xs : List ℤ} (path : CmonString)
      (w : os.World)
      → Visits ignored p dir ws
      → CStr path.string p
      → Represents a xs
      → length xs + length ws ≤ a.size
      → a.size ≤ 5000
      → (b : CmonIntArray) × (recursive_dir_add os mem ints ignored dir path (at a) w
          ≡ ok (at b, (watch_all os ws w).1))
        × Represents b (xs ++ (watch_all os ws w).0)
  unfolding recursive_dir_add
  recursive_dir_add-Visits path w visits text r room most =
      let (b, e, rb, sb) = add_entries-Visits path w visits text r room most in (b, rw e refl, rb)
