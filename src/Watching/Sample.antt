-- ===== src/Watching/Sample.antt =====
-- Data for the tests: a program with two processes, whose world lists the signals that were sent,
-- the last one in front; and names of directories.
use cmon.Base.{
  ℕ, refl, true, some, List, [], ◌∷◌, replicate, length-replicate, map, arith, ◌+◌, ◌≤◌, length,
  length-append, Option,
}
use cmon.Base.Int.{ℤ, pos}
use cmon.Text.{Bytes}
use cmon.Str.CStr.{nul, chr}
use cmon.Processes.{Signals}
use cmon.PsTree.Pids as Pids
use cmon.Watching.{Children}
use cmon.Watching.Dirs.{here, above, slash, Inotify}
use cmon.Watching.Visits.{Named}

abbrev pub logged : Signals
logged = record { World = List ℤ; kill = λ pid w. (true, pid ∷ w) }

abbrev pub printed : List Bytes
printed = (49 ∷ 50 ∷ 41 ∷ []) ∷ (55 ∷ 41 ∷ []) ∷ []

abbrev pub os : Children
os = record {
  sys = logged;
  tree = λ child w. (map some printed, w);
  wait = λ child w. w;
  start = λ config w. (pos 99, w);
}

abbrev pub memory : ℕ → Option (List ℤ)
memory n = some (replicate n (pos 0))

pub memory-Ample : Pids.Ample memory
memory-Ample n = (replicate n (pos 0), refl, length-replicate n (pos 0))

pub here-Named : (p : Bytes) → length p ≤ 200 → Named p here (b'.' ∷ [])
here-Named p short = record {
  text = chr (λ e. omega (arith, e)) nul;
  short = omega (arith, length-append p (b'.' ∷ []), short);
}

pub slash-Named : (p : Bytes) → length p ≤ 200 → Named p slash (b'/' ∷ [])
slash-Named p short = record {
  text = chr (λ e. omega (arith, e)) nul;
  short = omega (arith, length-append p (b'/' ∷ []), short);
}

pub above-Named : (p : Bytes) → length p ≤ 200 → Named p above (b'.' ∷ b'.' ∷ [])
above-Named p short = record {
  text = chr (λ e. omega (arith, e)) (chr (λ e. omega (arith, e)) nul);
  short = omega (arith, length-append p (b'.' ∷ b'.' ∷ []), short);
}

-- The descriptor is the number of those before it.
abbrev pub counting : Inotify
counting = record { World = ℕ; add_watch = λ path w. (pos w, w + 1) }

-- "a"
abbrev pub a_name : Bytes
a_name = 97 ∷ 0 ∷ []

pub a_name-Named : (p : Bytes) → length p ≤ 200 → Named p a_name (97 ∷ [])
a_name-Named p short = record {
  text = chr (λ e. omega (arith, e)) nul;
  short = omega (arith, length-append p (97 ∷ []), short);
}
