-- ===== src/Watching/Dirs.antt =====
-- `ino_recursive_dir_add` of src/lib/inotify/inotify.c: a directory and those below it are added
-- to the watch. What `readdir` gives is a tree of names; what a name is made of is the file
-- system's.
use cmon.Base.{
  ℕ, ◌+◌, Bool, true, false, Option, none, some, List, [], ◌∷◌, ltb, if◌then◌else◌, Run, ok, fault,
  ◌>>=◌,
}
use cmon.Base.Int.{ℤ, pos, negsuc, minus}
use cmon.Text.{Bytes}
use cmon.Str.{CmonString, str_new_from_char_arrs}
use cmon.Str.Alloc.{Allocator}
use cmon.Str.Array.{CmonStringArray, str_arr_find}
use cmon.Config.{same_text}
use cmon.Integers.{CmonIntArray, int_arr_add, memory_increment}

mutual
  -- `struct dirent`: a directory with what `opendir` gives for it; or another file.
  pub data Dirent : Type 0 where
    directory : Bytes → Dir → Dirent
    other_file : Bytes → Dirent

  -- The entries that `readdir` gives, or NULL from `opendir`.
  pub data Dir : Type 0 where
    closed : Dir
    no_more : Dir
    entry : Dirent → Dir → Dir

-- `"."`, `".."` and `"/"`
abbrev pub here : Bytes
here = b'.' ∷ 0 ∷ []

abbrev pub above : Bytes
above = b'.' ∷ b'.' ∷ 0 ∷ []

abbrev pub slash : Bytes
slash = b'/' ∷ 0 ∷ []

-- `inotify_add_watch`: negative where it fails.
pub record Inotify : Type 1 where
  pub World : Type 0
  pub add_watch : Bytes → World → ℤ × World

-- The array that a pointer points to; NULL; or one that has been freed.
pub data Slots : Type 0 where
  at : CmonIntArray → Slots
  at_null : Slots
  freed : Slots

-- A call's `wdArr`: what the array that it was called with has become, and, where the pointer
-- points to another one by now, that one.
pub record Descriptors : Type 0 where
  pub given : Slots
  pub own : Option Slots

abbrev pub pointed : Slots → Option Slots → Slots
pointed given none = given
pointed given (some own) = own

-- What `wdArr` points to.
abbrev pub current : Descriptors → Slots
current d = pointed d.given d.own

-- ... and when that has changed in place.
abbrev pub in_place : Slots → Descriptors → Descriptors
in_place s d = elim d.own [ none ↦ record d { given = s } | some own ↦ record d { own = some s } ]

-- `wdArr` after `cmon_int_arr_add`: NULL, the array where it was, or another one, and the old one
-- freed.
abbrev pub added : Bool → Descriptors → Option CmonIntArray → Descriptors
added moved d none = record d { own = some at_null }
added false d (some a) = in_place (at a) d
added true d (some a) = record (in_place freed d) { own = some (at a) }

-- `wdArr = cmon_int_arr_add(wdArr, wd)`
unfoldable pub record_watch : (ℕ → Option (List ℤ)) → ℤ → Descriptors → Slots → Run Descriptors
record_watch ints wd d freed = fault
record_watch ints wd d at_null = ok (record d { own = some at_null })
record_watch ints wd d (at a) = do
  made ← int_arr_add (some a) wd (ints (a.size + memory_increment))
  ok (added (ltb a.size (a.len + 1)) d made)

abbrev pub required : Option CmonString → Run CmonString
required none = fault
required (some s) = ok s

abbrev pub watched_as : {W : Type 0} → ℤ × W → ℤ × W
watched_as (pos n, w) = (pos n, w)
watched_as (negsuc n, w) = (minus 1, w)

-- `_ino_watch_dir`
abbrev pub watch_dir : (os : Inotify) → Bytes → os.World → ℤ × os.World
watch_dir os path w = watched_as (os.add_watch path w)

module _ (os : Inotify) (mem : Allocator) (ints : ℕ → Option (List ℤ))
    (ignored : CmonStringArray) where
  abbrev pub Step : Type 0
  Step = Descriptors → os.World → Run (Descriptors × os.World)

  -- The recursive call, and what it has done to the array that its caller goes on with.
  unfoldable pub add_below : (CmonString → Step) → Option CmonString → Step
  add_below below none d w = fault
  add_below below (some path) d w = do
    (inner, w') ← below path (record { given = current d; own = none }) w
    ok (in_place inner.given d, w')

  -- A directory that is not "..", with what is found of it among those to ignore.
  unfoldable pub add_dir :
      (CmonString → Step) → Bytes → Option CmonString → Option CmonString → Step
  unfolding add_below record_watch
  add_dir below name entry_path (some found) d w = ok (d, w)
  add_dir below name entry_path none d w = do
    dir_path ← required entry_path
    let watched = watch_dir os dir_path.string w
    d' ← record_watch ints watched.0 d (current d)
    new_path ← str_new_from_char_arrs mem (some dir_path.string) (slash ∷ [])
    if same_text name here then ok (d', watched.1) else add_below below new_path d' watched.1

  unfoldable mutual
    unfolding add_dir

    -- The loop over the entries of the directory at `path`.
    pub add_entries : Dir → CmonString → Step
    add_entries closed path d w = fault
    add_entries no_more path d w = ok (d, w)
    add_entries (entry e rest) path d w = do
      (d', w') ← add_entry e path d w
      add_entries rest path d' w'

    pub add_entry : Dirent → CmonString → Step
    add_entry (other_file name) path d w = do
      entry_path ← str_new_from_char_arrs mem (some path.string) (name ∷ [])
      ok (d, w)
    add_entry (directory name below) path d w = do
      entry_path ← str_new_from_char_arrs mem (some path.string) (name ∷ [])
      if same_text name above then ok (d, w) else do
        found ← str_arr_find ignored entry_path
        add_dir (λ p d' w'. add_entries below p d' w') name entry_path found d w

-- `ino_recursive_dir_add`, with what `wdArr` points to.
unfoldable pub recursive_dir_add :
    (os : Inotify)
    → Allocator
    → (ℕ → Option (List ℤ))
    → CmonStringArray
    → Dir
    → CmonString
    → Slots
    → os.World
    → Run (Slots × os.World)
unfolding add_entries
recursive_dir_add os mem ints ignored dir path slots w = do
  (d, w') ← add_entries os mem ints ignored dir path (record { given = slots; own = none }) w
  ok (d.given, w')
