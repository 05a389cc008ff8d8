-- ===== src/Logger/Tests.antt =====
-- A log in "/s", and a path that is one byte too long.
use cmon.Base.{◌≡◌, refl, true, false, none, some, [], ◌∷◌, ◌++◌, replicate, ok, codes}
use cmon.Text.{Bytes}
use cmon.Logger.{Env, Logger, Tm, Log, Call, line_of, log_line, log_init, log_all, no_log}
use cmon.Logger.Lines.{log_all-singleton}

abbrev env : Env
env = record {
  struct_given = true;
  path_given = true;
  xdg_state_home = some (codes "/s");
  home = none;
  errno = 0;
  opens = λ path. true;
  pid = 42;
}

-- No memory, and another number: of a later call.
abbrev later_env : Env
later_env = record env { struct_given = false; xdg_state_home = none; pid = 43 }

abbrev tm : Tm
tm = record { tm_year = 125; tm_mon = 0; tm_mday = 31; tm_hour = 9; tm_min = 5; tm_sec = 0 }

abbrev logger : Logger
logger = record { pid = 42; file_path = codes "/s/cmon.log" }

opened : log_init env none ≡ ok logger
unfolding log_init
opened = refl

-- A day of January, with the month 0.
january_line :
    log_line logger tm 1 (codes "on") ≡ codes "42 | 2025-0-31 | 9:5:0 | INFO | on" ++ 10 ∷ []
unfolding log_line
january_line = refl

abbrev first_call : Call
first_call = record { env = env; tm = tm; priority = 1; message = codes "on" }

abbrev later_call : Call
later_call = record { env = later_env; tm = tm; priority = 3; message = codes "off" }

log_all-singleton_example :
    (s : Log) × (log_all (first_call ∷ later_call ∷ []) no_log ≡ ok s)
    × (s.lines ≡ line_of logger first_call ∷ line_of logger later_call ∷ [])
log_all-singleton_example = log_all-singleton first_call (later_call ∷ []) logger opened

abbrev deep : Bytes
deep = replicate 2039 b'd'

abbrev deep_env : Env
deep_env = record env { xdg_state_home = some deep }

-- The path has 2048 bytes, and is not refused: its last byte is lost.
cut_path : log_init deep_env none ≡ ok (record { pid = 42; file_path = deep ++ codes "/cmon.lo" })
unfolding log_init
cut_path = refl
