-- ===== src/Config/Open/Files.antt =====
-- What `config_open_file` relies on of the C library: what its manual says of the calls, for files
-- that the program may read and write.
use cmon.Base.{◌≡◌, Option, none, some, List, [], ◌∷◌, ◌++◌}
use cmon.Text.{Bytes}
use cmon.Str.CStr.{CStr, CStrs, concat}
use cmon.Config.Open.{Stdio, readable, missing, reading, writing}

pub record Documented (io : Stdio) : Type 0 where
  -- What is in the file at a path, and of what a stream reads or writes, what is behind its
  -- position.
  pub content : Bytes → io.World → Option Bytes
  pub path_of : io.Stream → Bytes
  pub behind : io.Stream → io.World → Bytes
  pub access_missing :
      (p : Bytes) (w : io.World) → content p w ≡ none → io.access p w ≡ (missing, w)
  pub access_readable :
      (p s : Bytes) (w : io.World) → content p w ≡ some s → io.access p w ≡ (readable, w)
  pub fopen_writing :
      (p : Bytes) (w : io.World)
      → (f : io.Stream) × (w' : io.World) × (io.fopen p writing w ≡ (some f, w'))
        × (path_of f ≡ p)
        × (content p w' ≡ some [])
        × (behind f w' ≡ [])
  pub fopen_reading :
      (p s : Bytes) (w : io.World)
      → content p w ≡ some s
      → (f : io.Stream) × (w' : io.World) × (io.fopen p reading w ≡ (some f, w'))
        × (path_of f ≡ p)
        × (content p w' ≡ some s)
        × (behind f w' ≡ s)
  -- What is printed at the end of a file is behind what was there, and the position behind it.
  pub fprintf_end :
      (f : io.Stream) (s t : Bytes) (w : io.World)
      → behind f w ≡ []
      → content (path_of f) w ≡ some s
      → (content (path_of f) (io.fprintf f t w) ≡ some (s ++ t))
        × (behind f (io.fprintf f t w) ≡ [])
  pub fflush_keeps :
      (f : io.Stream) (p : Bytes) (w : io.World)
      → (content p (io.fflush f w) ≡ content p w) × (behind f (io.fflush f w) ≡ behind f w)
  -- The lines are what is behind the position, cut into pieces.
  pub lines_behind :
      (f : io.Stream) (w : io.World)
      → CStr (behind f w ++ 0 ∷ []) (behind f w)
      → (ss : List Bytes) × CStrs (io.lines f w).0 ss × (concat ss ≡ behind f w)
  pub lines_keep :
      (f : io.Stream) (p : Bytes) (w : io.World) → content p (io.lines f w).1 ≡ content p w
  pub fclose_keeps :
      (f : io.Stream) (p : Bytes) (w : io.World) → content p (io.fclose f w) ≡ content p w
