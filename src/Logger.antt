-- ===== src/Logger.antt =====
-- The log: src/logger/logger.c. Both static pointers to the `Logger` are part of the state. What
-- the system answers at a call is a parameter of the call; a message is what `vfprintf` makes of
-- it and its arguments.
pub mod Lines
mod Tests
use cmon.Base.{
  ℕ, zero, suc, Bool, true, false, Option, none, some, List, [], ◌∷◌, ◌++◌, ltb, if◌then◌else◌,
  length, take, Run, ok, exited, ◌>>=◌, codes, ◌+◌,
}
use cmon.Base.Int.{ℤ, pos}
use cmon.Text.{Bytes}
use cmon.Str.CStr.{concat}
use cmon.Text.Decimal.{decimal_text}

abbrev pub max_path_size : ℕ
max_path_size = 2048

-- `Logger`; its stream is the file at the path, opened to append.
pub record Logger : Type 0 where
  pub pid : ℕ
  pub file_path : Bytes

-- What `malloc` has for the struct and for the path, XDG_STATE_HOME and HOME, `errno`, which files
-- `fopen` opens, and `getpid`.
pub record Env : Type 0 where
  pub struct_given : Bool
  pub path_given : Bool
  pub xdg_state_home : Option Bytes
  pub home : Option Bytes
  pub errno : ℕ
  pub opens : Bytes → Bool
  pub pid : ℕ

-- `snprintf(log_path, MAX_PATH_SIZE, ...)` keeps a byte for the NUL.
abbrev pub printed_path : Bytes → Bytes
printed_path s = take 2047 s

-- The directory and what comes behind it; `none` where neither is set.
unfoldable pub full_path : Option Bytes → Option Bytes → Option Bytes
full_path (some state) home = some (state ++ codes "/cmon.log")
full_path none (some home) = some (home ++ codes "/.local/state/cmon.log")
full_path none none = none

open_log : Env → Bytes → Run Logger
open_log e path =
    if e.opens path then ok (record { pid = e.pid; file_path = path }) else exited e.errno

log_at : Env → Option Bytes → Run Logger
log_at e none = exited e.errno
log_at e (some path) =
    if ltb max_path_size (length path) then exited e.errno else open_log e (printed_path path)

-- `log_init`, with its static pointer.
unfoldable pub log_init : Env → Option Logger → Run Logger
unfolding full_path open_log log_at
log_init e (some logger) = ok logger
log_init e none =
    if e.struct_given
    then (if e.path_given then log_at e (full_path e.xdg_state_home e.home) else exited 2)
    else exited 1

-- `struct tm`, as `localtime` fills it.
pub record Tm : Type 0 where
  pub tm_year : ℕ
  pub tm_mon : ℕ
  pub tm_mday : ℕ
  pub tm_hour : ℕ
  pub tm_min : ℕ
  pub tm_sec : ℕ

unfoldable pub priority_text : ℕ → Bytes
priority_text zero = codes "DEBUG"
priority_text (suc zero) = codes "INFO"
priority_text (suc (suc zero)) = codes "WARNING"
priority_text (suc (suc (suc zero))) = codes "ERROR"
priority_text (suc (suc (suc (suc n)))) = codes "UNDEFINED"

abbrev number : ℕ → Bytes
number n = decimal_text (pos n)

-- `"%d | %d-%d-%d | %d:%d:%d | %s | "`, the message and a line feed.
unfoldable pub log_line : Logger → Tm → ℕ → Bytes → Bytes
unfolding decimal_text priority_text
log_line l tm priority message = concat (
    number l.pid
    ∷ codes " | "
    ∷ number (tm.tm_year + 1900)
    ∷ codes "-"
    ∷ number tm.tm_mon
    ∷ codes "-"
    ∷ number tm.tm_mday
    ∷ codes " | "
    ∷ number tm.tm_hour
    ∷ codes ":"
    ∷ number tm.tm_min
    ∷ codes ":"
    ∷ number tm.tm_sec
    ∷ codes " | "
    ∷ priority_text priority
    ∷ codes " | "
    ∷ message
    ∷ codes "\n"
    ∷ [])

-- The static pointers of `log_init` and `log_write`, and the lines written, each with its file.
pub record Log : Type 0 where
  pub init_logger : Option Logger
  pub write_logger : Option Logger
  pub lines : List (Bytes × Bytes)

pub record Call : Type 0 where
  pub env : Env
  pub tm : Tm
  pub priority : ℕ
  pub message : Bytes

abbrev pub line_of : Logger → Call → Bytes × Bytes
line_of l c = (l.file_path, log_line l c.tm c.priority c.message)

abbrev pub logger_for : Call → Log → Option Logger → Run Logger
logger_for c s (some logger) = ok logger
logger_for c s none = log_init c.env s.init_logger

-- `log_write`
unfoldable pub log_write : Call → Log → Run Log
unfolding log_init
log_write c s = do
  l ← logger_for c s s.write_logger
  ok (record {
    init_logger = elim s.write_logger [ none ↦ some l | some _ ↦ s.init_logger ];
    write_logger = some l;
    lines = s.lines ++ line_of l c ∷ [];
  })

-- Calls of it, one after the other.
unfoldable pub log_all : List Call → Log → Run Log
unfolding log_write
log_all [] s = ok s
log_all (c ∷ cs) s = do s' ← log_write c s; log_all cs s'

abbrev pub no_log : Log
no_log = record { init_logger = none; write_logger = none; lines = [] }
