-- ===== src/Watching/Tests.antt =====
-- A program with two processes, and small directories.
use cmon.Base.{
  ◌≡◌, refl, none, List, [], ◌∷◌, replicate, length-replicate, arith, ok, fault, ◌≤◌, length,
  length-append,
}
use cmon.Base.Int.{pos}
use cmon.Text.{Bytes, char_is_numeric}
use cmon.Str.Array.{CmonStringArray, str_arr_find}
use cmon.Str.CStr.{nul, chr}
use cmon.Str.Concat.{of_text}
use cmon.Str.Sample.{ample, ample-Allocates}
use cmon.Integers.{CmonIntArray}
use cmon.Integers.Items.{Represents}
use cmon.Watching.Dirs.{
  directory, other_file, Dir, no_more, entry, here, above, at, recursive_dir_add,
}
use cmon.Watching.Visits.{
  Named, Visits, finished, file, parent, itself, inside, recursive_dir_add-Visits,
}
use cmon.Config.{CmonConfig, same_text}
use cmon.Watching.Sample.{
  printed, os, memory, memory-Ample, here-Named, slash-Named, above-Named, a_name, a_name-Named,
  counting,
}
use cmon.Watching.{restart}
use cmon.Watching.Dangling.{Watched, recursive_dir_add-fault}
use cmon.Watching.Restart.{restart-ended}

abbrev no_strings : CmonStringArray
no_strings = record { len = 0; arr = [] }

abbrev config : CmonConfig
config = record {
  ignore_files_arr = no_strings;
  ignore_dirs_arr = no_strings;
  watch_ext_names = no_strings;
  cwd = none;
  exe = none;
  argv = [];
}

restart-ended_example :
    restart os memory (replicate 10 0) config (pos 12) [] ≡ ok (pos 99, pos 12 ∷ pos 7 ∷ [])
unfolding char_is_numeric
restart-ended_example =
    restart-ended os memory (replicate 10 0) config (pos 12) printed [] [] memory-Ample refl refl
      (omega arith, (omega arith, tt))
      (omega arith, (omega arith, (omega arith, (omega arith, (omega arith, omega arith)))))
      (omega arith) (omega arith)

-- The directory "r/" with the directory "a" in it.
abbrev tree : Dir
tree = entry (directory here no_more) (
    entry (directory above no_more) (
      entry (other_file a_name)
        (entry (directory a_name (entry (directory here no_more) no_more)) no_more)))

-- "r/"
abbrev top : Bytes
top = 114 ∷ b'/' ∷ []

abbrev below_top : Bytes
below_top = 114 ∷ b'/' ∷ 97 ∷ b'/' ∷ []

abbrev paths : List Bytes
paths =
    (114 ∷ b'/' ∷ b'.' ∷ []) ∷ (114 ∷ b'/' ∷ 97 ∷ []) ∷ (114 ∷ b'/' ∷ 97 ∷ b'/' ∷ b'.' ∷ []) ∷ []

tree-Visits : Visits no_strings top tree paths
unfolding str_arr_find same_text
tree-Visits =
    itself (here-Named top (omega arith)) refl refl refl
      (slash-Named (114 ∷ b'/' ∷ b'.' ∷ []) (omega arith))
      (parent (above-Named top (omega arith)) refl (
        file (a_name-Named top (omega arith)) (
          inside (a_name-Named top (omega arith)) refl refl refl
            (slash-Named (114 ∷ b'/' ∷ 97 ∷ []) (omega arith))
            (itself (here-Named below_top (omega arith)) refl refl refl
              (slash-Named (114 ∷ b'/' ∷ 97 ∷ b'/' ∷ b'.' ∷ []) (omega arith)) finished)
            finished)))

abbrev slots : CmonIntArray
slots = record { len = 0; size = 3; arr = replicate 3 (pos 0) }

slots-Represents : Represents slots []
slots-Represents = record { counted = refl; slots = refl; room = omega arith; items = refl }

recursive_dir_add-Visits_example :
    (b : CmonIntArray) × (recursive_dir_add counting ample memory no_strings tree
        (of_text top)
        (at slots)
        0
      ≡ ok (at b, 3))
    × Represents b (pos 0 ∷ pos 1 ∷ pos 2 ∷ [])
recursive_dir_add-Visits_example =
    recursive_dir_add-Visits counting ample memory no_strings ample-Allocates (of_text top) 0
      tree-Visits (chr (λ e. omega (arith, e)) (chr (λ e. omega (arith, e)) nul)) slots-Represents
      (omega arith) (omega arith)

-- One slot, for the directory "a" with its own ".", and the directory "b" behind it.
abbrev b_name : Bytes
b_name = 98 ∷ 0 ∷ []

b_name-Named : (p : Bytes) → length p ≤ 200 → Named p b_name (98 ∷ [])
b_name-Named p short = record {
  text = chr (λ e. omega (arith, e)) nul;
  short = omega (arith, length-append p (98 ∷ []), short);
}

a_name-Watched : Watched no_strings top a_name (97 ∷ [])
unfolding str_arr_find same_text
a_name-Watched = record {
  named = a_name-Named top (omega arith);
  not_parent = refl;
  not_ignored = refl;
  ended = slash-Named (114 ∷ b'/' ∷ 97 ∷ []) (omega arith);
}

b_name-Watched : Watched no_strings top b_name (98 ∷ [])
unfolding str_arr_find same_text
b_name-Watched = record {
  named = b_name-Named top (omega arith);
  not_parent = refl;
  not_ignored = refl;
  ended = slash-Named (114 ∷ b'/' ∷ 98 ∷ []) (omega arith);
}

here-Watched : Watched no_strings below_top here (b'.' ∷ [])
unfolding str_arr_find same_text
here-Watched = record {
  named = here-Named below_top (omega arith);
  not_parent = refl;
  not_ignored = refl;
  ended = slash-Named (114 ∷ b'/' ∷ 97 ∷ b'/' ∷ b'.' ∷ []) (omega arith);
}

abbrev slot : CmonIntArray
slot = record { len = 0; size = 1; arr = pos 0 ∷ [] }

slot-Represents : Represents slot []
slot-Represents = record { counted = refl; slots = refl; room = omega arith; items = refl }

recursive_dir_add-fault_example :
    recursive_dir_add counting ample memory no_strings
      (entry
        (directory a_name (entry (directory here no_more) no_more))
        (entry (directory b_name no_more) no_more))
      (of_text top)
      (at slot)
      0
    ≡ fault
unfolding same_text
recursive_dir_add-fault_example =
    recursive_dir_add-fault counting ample memory no_strings ample-Allocates no_more no_more no_more
      (of_text top) (replicate 16 (pos 0)) 0 a_name-Watched refl here-Watched b_name-Watched
      (chr (λ e. omega (arith, e)) (chr (λ e. omega (arith, e)) nul)) slot-Represents (omega arith)
      (omega arith) refl (length-replicate 16 (pos 0))
