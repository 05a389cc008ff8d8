-- ===== src/Errors.antt =====
-- Error messages: src/lib/utils/cmon_errors.c. The static stream of `cmon_log` is part of the
-- state, and so is what has been printed and what has been written to the log.
mod Once
mod Tests
use cmon.Base.{Bool, true, false, Option, none, some, List, [], ◌∷◌, ◌++◌, if◌then◌else◌, codes}
use cmon.Base.Int.{ℤ, pos, negsuc}
use cmon.Text.{Bytes}
use cmon.Str.CStr.{concat}

pub record Messages : Type 0 where
  pub allowed : Bool
  pub is_open : Bool
  pub printed : List Bytes
  pub logged : List Bytes

-- `cmonAlowLog` is true, and no stream is open.
abbrev pub start : Messages
start = record { allowed = true; is_open = false; printed = []; logged = [] }

-- `"[%s]: from fucntion %s: %s\n"`
abbrev pub log_text : Bytes → Bytes → Bytes → Bytes
log_text status function_name msg = concat (
    codes "["
    ∷ status
    ∷ codes "]: from fucntion "
    ∷ function_name
    ∷ codes ": "
    ∷ msg
    ∷ codes "\n"
    ∷ [])

-- `cmon_log`, with what it returns; `opens` is whether `fopen` gives a stream.
unfoldable pub log : Bool → Bytes → Bytes → Bytes → Messages → Messages × ℤ
log opens status function_name msg s =
    if s.allowed
    then (if s.is_open
        then (s, negsuc 1)
        else if opens
        then (
          record s { is_open = true; logged = s.logged ++ log_text status function_name msg ∷ [] },
          pos 0,
        )
        else (s, negsuc 0))
    else (s, negsuc 1)

-- `"Cmon ERROR on function %s: %s\n"`
abbrev pub error_text : Bytes → Bytes → Bytes
error_text function_name msg =
    concat (codes "Cmon ERROR on function " ∷ function_name ∷ codes ": " ∷ msg ∷ codes "\n" ∷ [])

-- `"Cmon ERROR on function %s: %s: errno: %s\n"`
abbrev pub errno_text : Bytes → Bytes → Bytes → Bytes
errno_text function_name msg explained = concat (
    codes "Cmon ERROR on function "
    ∷ function_name
    ∷ codes ": "
    ∷ msg
    ∷ codes ": errno: "
    ∷ explained
    ∷ codes "\n"
    ∷ [])

abbrev print : Bytes → Messages → Messages
print text s = record s { printed = s.printed ++ text ∷ [] }

-- `cmon_print_error`; `opens` is whether `fopen` would give a stream.
unfoldable pub print_error : Bool → Bool → Bytes → Bytes → Messages → Messages × ℤ
unfolding log
print_error opens to_log function_name msg s =
    let s' = print (error_text function_name msg) s in
    if to_log then ((log opens (codes "ERROR") function_name msg s').0, pos 0) else (s', pos 0)

-- `cmon_print_errno_error`; `explained` is what `strerror` gives.
unfoldable pub print_errno_error : Bool → Bool → Bytes → Bytes → Bytes → Messages → Messages × ℤ
unfolding log
print_errno_error opens to_log function_name explained msg s =
    let s' = print (errno_text function_name msg explained) s in
    if to_log then ((log opens (codes "ERROR") function_name msg s').0, pos 0) else (s', pos 0)

-- A call of one of the two: `explained` is what `strerror` gives for the call of
-- `cmon_print_errno_error`, and `none` for that of `cmon_print_error`.
pub record Report : Type 0 where
  pub explained : Option Bytes
  pub opens : Bool
  pub to_log : Bool
  pub function_name : Bytes
  pub msg : Bytes

unfoldable pub report_as : Option Bytes → Report → Messages → Messages
unfolding print_error print_errno_error
report_as none r s = (print_error r.opens r.to_log r.function_name r.msg s).0
report_as (some explained) r s =
    (print_errno_error r.opens r.to_log r.function_name explained r.msg s).0

unfoldable pub report_all : List Report → Messages → Messages
unfolding report_as
report_all [] s = s
report_all (r ∷ rs) s = report_all rs (report_as r.explained r s)
