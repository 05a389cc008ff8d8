-- ===== src/Config/Open/Sample.antt =====
-- A system with one file, whatever its path is, and one stream: what is in front of the position,
-- and what is behind it.
use cmon.Base.{
  drop-nil, All, ℕ, ◌≡◌, refl, ◌∙◌, ap, ◌≢◌, Option, none, some, List, [], ◌∷◌, ◌++◌, replicate,
  drop, length, ◌==◌, if◌then◌else◌, Bool-cases, inl, inr, append-nil, arith, some_inj, codes, sym,
}
use cmon.Text.{Bytes}
use cmon.Str.Sample.{ample}
use cmon.Str.CStr.{CStr, nul, chr, CStrs, concat}
use cmon.Str.Array.{CmonStringArray}
use cmon.Str.Array.Items.{Represents}
use cmon.Token.Array.{Reliable}
use cmon.Config.{CmonConfig}
use cmon.Config.Open.{Access, readable, missing, Mode, reading, writing, Stdio}
use cmon.Config.Open.Files.{Documented}
use cmon.Config.Open.Runs.{path_under, Starts}

abbrev pub File : Type 0
File = Option (Bytes × Bytes)

-- One more byte in front of the first line.
abbrev push : List Bytes → Bytes → List Bytes
push [] b = []
push (l ∷ ls) b = (b ++ l) ∷ ls

-- The lines, each with its line feed and a NUL byte.
unfoldable pub cut : Bytes → List Bytes
cut [] = []
cut (c ∷ []) = (c ∷ 0 ∷ []) ∷ []
cut (c ∷ d ∷ s) =
    let rest = cut (d ∷ s) in if c == b'\n' then (c ∷ 0 ∷ []) ∷ rest else push rest (c ∷ [])

abbrev pub content_of : File → Option Bytes
content_of none = none
content_of (some (a, b)) = some (a ++ b)

abbrev pub behind_of : File → Bytes
behind_of none = []
behind_of (some (a, b)) = b

abbrev pub access_of : File → Access
access_of none = missing
access_of (some x) = readable

abbrev pub open_of : Bytes → Mode → File → Option Bytes × File
open_of p writing w = (some p, some ([], []))
open_of p reading none = (none, none)
open_of p reading (some (a, b)) = (some p, some ([], a ++ b))

abbrev pub printed : Bytes → File → File
printed t none = none
printed t (some (a, b)) = some (a ++ t, drop (length t) b)

abbrev pub read_on : File → File
read_on none = none
read_on (some (a, b)) = some (a ++ b, [])

abbrev pub one_file : Stdio
one_file = record {
  World = File;
  Stream = Bytes;
  access = λ p w. (access_of w, w);
  fopen = open_of;
  fprintf = λ f t w. printed t w;
  fflush = λ f w. w;
  lines = λ f w. (cut (behind_of w), read_on w);
  fclose = λ f w. w;
}

-- At least one line, where there is a byte.
record Lined (s : Bytes) : Type 0 where
  line : Bytes
  text : Bytes
  more : List Bytes
  texts : List Bytes
  lines : cut s ≡ line ∷ more
  first : CStr line text
  others : CStrs more texts
  whole : concat (text ∷ texts) ≡ s

no_zero : {b s : Bytes} → CStr b s → All (λ c. c ≢ 0) s
no_zero nul = tt
no_zero (chr ne t) = (ne, no_zero t)

cut-Lined : (c : ℕ) (s : Bytes) → All (λ c. c ≢ 0) (c ∷ s) → Lined (c ∷ s)
unfolding cut
cut-Lined c [] (ne, t) = record {
  line = c ∷ 0 ∷ [];
  text = c ∷ [];
  more = [];
  texts = [];
  lines = refl;
  first = chr ne nul;
  others = CStrs.nil;
  whole = refl;
}
cut-Lined c (d ∷ s) (ne, t) =
    let rest = cut-Lined d s t in
    elim (Bool-cases (c == b'\n')) [
      | inl feed ↦ record {
        line = c ∷ 0 ∷ [];
        text = c ∷ [];
        more = rest.line ∷ rest.more;
        texts = rest.text ∷ rest.texts;
        lines = rw (feed, rest.lines);
        first = chr ne nul;
        others = CStrs.cons rest.first rest.others;
        whole = ap (◌∷◌ c) rest.whole;
      }
      | inr other ↦ record {
        line = c ∷ rest.line;
        text = c ∷ rest.text;
        more = rest.more;
        texts = rest.texts;
        lines = rw (other, rest.lines);
        first = chr ne rest.first;
        others = rest.others;
        whole = ap (◌∷◌ c) rest.whole;
      }
    ]

cut-CStrs :
    (s : Bytes) → CStr (s ++ 0 ∷ []) s → (ss : List Bytes) × CStrs (cut s) ss × (concat ss ≡ s)
unfolding cut
cut-CStrs [] t = ([], CStrs.nil, refl)
cut-CStrs (c ∷ s) t =
    let is = cut-Lined c s (no_zero t) in
    (is.text ∷ is.texts, rw is.lines (CStrs.cons is.first is.others), is.whole)

printed_end :
    (w : File) (s t : Bytes)
    → behind_of w ≡ []
    → content_of w ≡ some s
    → (content_of (printed t w) ≡ some (s ++ t)) × (behind_of (printed t w) ≡ [])
printed_end none s t end is = cc
printed_end (some (a, [])) s t end is = (
  ap some (
      ap (λ x. (a ++ t) ++ x) (drop-nil (length t))
      ∙ append-nil (a ++ t)
      ∙ ap (λ x. x ++ t) (sym (append-nil a) ∙ some_inj is)),
  drop-nil (length t),
)
printed_end (some (a, b ∷ bs)) s t end is = cc

read_on_content : (w : File) → content_of (read_on w) ≡ content_of w
read_on_content none = refl
read_on_content (some (a, b)) = ap some (append-nil (a ++ b))

opened_reading :
    (p s : Bytes) (w : File)
    → content_of w ≡ some s
    → (f : Bytes) × (w' : File) × (open_of p reading w ≡ (some f, w'))
      × (f ≡ p)
      × (content_of w' ≡ some s)
      × (behind_of w' ≡ s)
opened_reading p s none is = cc
opened_reading p s (some (a, b)) is = (p, some ([], a ++ b), refl, refl, is, some_inj is)

access_missing : (w : File) → content_of w ≡ none → access_of w ≡ missing
access_missing none is = refl
access_missing (some (a, b)) is = cc

access_readable : (s : Bytes) (w : File) → content_of w ≡ some s → access_of w ≡ readable
access_readable s none is = cc
access_readable s (some (a, b)) is = refl

pub one_file-Documented : Documented one_file
one_file-Documented = record {
  content = λ p w. content_of w;
  path_of = λ f. f;
  behind = λ f w. behind_of w;
  access_missing = λ p w h. rw (access_missing w h);
  access_readable = λ p s w h. rw (access_readable s w h);
  fopen_writing = λ p w. (p, some ([], []), refl, refl, refl, refl);
  fopen_reading = opened_reading;
  fprintf_end = λ f s t w. printed_end w s t;
  fflush_keeps = λ f p w. (refl, refl);
  lines_behind = λ f w. cut-CStrs (behind_of w);
  lines_keep = λ f p w. read_on_content w;
  fclose_keeps = λ f p w. refl;
}

pub ample-Reliable : Reliable ample
ample-Reliable n = (replicate n 0, refl)

abbrev pub no_strings : CmonStringArray
no_strings = record { len = 0; arr = replicate 50 none }

pub no_strings-Represents : Represents no_strings []
no_strings-Represents = record { counted = refl; slots = refl; held = λ i x h. cc h }

abbrev pub new_config : CmonConfig
new_config = record {
  ignore_files_arr = no_strings;
  ignore_dirs_arr = no_strings;
  watch_ext_names = no_strings;
  cwd = none;
  exe = none;
  argv = [];
}

-- In "/w", for the program "a".
abbrev pub dir : Bytes
dir = codes "/w"

abbrev pub exe : Bytes
exe = codes "a"

pub new_config-Starts : Starts dir (dir ++ 0 ∷ []) (exe ++ 0 ∷ []) new_config
new_config-Starts = record {
  exe_text = exe;
  cwd_is = chr (λ e. omega (arith, e)) (chr (λ e. omega (arith, e)) nul);
  near = omega arith;
  exe_is = chr (λ e. omega (arith, e)) nul;
  short = omega arith;
  new = record {
    watch = no_strings-Represents;
    files = no_strings-Represents;
    dirs = no_strings-Represents;
  };
}

-- The system starts without the file.
pub file_missing : one_file-Documented.content (path_under dir) none ≡ none
unfolding one_file-Documented
file_missing = refl
