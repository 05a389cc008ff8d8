-- ===== src/Config/Command.antt =====
-- `cmon_parse_argv` of src/lib/config/config.c, which fills the array of ten arguments of a
-- `CmonCommand`. A command line is a list of its arguments, each with its NUL byte.
pub mod Arguments
mod Tests
use cmon.Base.{
  ℕ, ◌+◌, Bool, true, false, Option, none, some, List, [], ◌∷◌, ◌++◌, ltb, if◌then◌else◌, length,
  set, Run, ok, exited, fault, ◌>>=◌, codes,
}
use cmon.Text.{Bytes}
use cmon.Str.Alloc.{Allocator}
use cmon.Token.{Value, chars, strdup}

-- What an entry of `argv` points to.
pub data Pointer : Type 0 where
  wild nowhere : Pointer
  to : Bytes → Pointer

-- `struct CmonCommand`; nothing sets its `argc`.
pub record CmonCommand : Type 0 where
  pub exe : Pointer
  pub process_name : Pointer
  pub argv : List Pointer

-- What `strdup` gives, as a pointer.
abbrev pub pointer_of : Value → Pointer
pointer_of Value.unset = wild
pointer_of Value.null = nowhere
pointer_of (chars s) = to (s ++ 0 ∷ [])

-- `command->argv[i] = p`
abbrev pub store : List Pointer → ℕ → Pointer → Run (List Pointer)
store argv i p = if ltb i (length argv) then ok (set argv i p) else fault

abbrev pub process_text : Bytes
process_text = codes "Juan Pablo Segundo"

-- The loop over the arguments, and the NULL behind them.
unfoldable pub store_args : List Bytes → ℕ → List Pointer → Run (List Pointer)
store_args [] i argv = store argv i nowhere
store_args (arg ∷ args) i argv = do argv' ← store argv i (to arg); store_args args (i + 1) argv'

-- `cmon_parse_argv`, given what `malloc` gives for the struct.
unfoldable pub parse_argv : Allocator → Option CmonCommand → List Bytes → Run (Option CmonCommand)
unfolding store_args strdup
parse_argv m none args = ok none
parse_argv m (some command) [] = exited 1
parse_argv m (some command) (name ∷ []) = exited 1
parse_argv m (some command) (name ∷ arg ∷ args) = do
  exe ← strdup m arg
  process_name ← strdup m (process_text ++ 0 ∷ [])
  argv ← store command.argv 0 (pointer_of process_name)
  argv' ← store_args args 1 argv
  ok (some (record { exe = pointer_of exe; process_name = pointer_of process_name; argv = argv' }))
