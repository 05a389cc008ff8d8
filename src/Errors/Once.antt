-- ===== src/Errors/Once.antt =====
-- How many errors reach the log.
use cmon.Base.{
  ◌≡◌, refl, ap, ◌∙◌, sym, inl, inr, Bool, true, false, Option, none, some, List, [], ◌∷◌, ◌++◌,
  map, if◌then◌else◌, codes, append_assoc, append-nil, Bool-cases, arith,
}
use cmon.Text.{Bytes}
use cmon.Errors.{Messages, start, log_text, error_text, errno_text, Report, report_as, report_all}

abbrev text_as : Option Bytes → Report → Bytes
text_as none r = error_text r.function_name r.msg
text_as (some explained) r = errno_text r.function_name r.msg explained

-- What the call prints.
abbrev pub printed_text : Report → Bytes
printed_text r = text_as r.explained r

-- What the call puts into a log that is not open: it is to be logged, and `fopen` gives a stream.
abbrev can_log : Report → Bool
can_log r = if r.to_log then r.opens else false

-- The line of the first call that can open the log.
abbrev pub first_logged : List Report → List Bytes
first_logged [] = []
first_logged (r ∷ rs) =
    if can_log r then log_text (codes "ERROR") r.function_name r.msg ∷ [] else first_logged rs

abbrev opened : List Bytes → List Bytes → Messages
opened shown lines = record { allowed = true; is_open = true; printed = shown; logged = lines }

abbrev unopened : List Bytes → Messages
unopened shown = record { allowed = true; is_open = false; printed = shown; logged = [] }

-- Nothing is logged once the stream is open.
report_as-opened :
    (e : Option Bytes) (r : Report) (shown lines : List Bytes)
    → report_as e r (opened shown lines) ≡ opened (shown ++ text_as e r ∷ []) lines
unfolding report_as
report_as-opened none r shown lines = elim (Bool-cases r.to_log) [
  | inl wanted ↦ rw wanted refl
  | inr unwanted ↦ rw unwanted refl
]
report_as-opened (some e) r shown lines = elim (Bool-cases r.to_log) [
  | inl wanted ↦ rw wanted refl
  | inr unwanted ↦ rw unwanted refl
]

report_as-first :
    (e : Option Bytes) (r : Report) (shown : List Bytes)
    → can_log r ≡ true
    → report_as e r (unopened shown)
      ≡ opened (shown ++ text_as e r ∷ []) (log_text (codes "ERROR") r.function_name r.msg ∷ [])
unfolding report_as
report_as-first none r shown can = ground arith
report_as-first (some e) r shown can = ground arith

report_as-unopened :
    (e : Option Bytes) (r : Report) (shown : List Bytes)
    → can_log r ≡ false
    → report_as e r (unopened shown) ≡ unopened (shown ++ text_as e r ∷ [])
unfolding report_as
report_as-unopened none r shown cannot = ground arith
report_as-unopened (some e) r shown cannot = ground arith

report_all-is_open :
    (rs : List Report) (shown lines : List Bytes)
    → report_all rs (opened shown lines) ≡ opened (shown ++ map printed_text rs) lines
unfolding report_all
report_all-is_open [] shown lines = ap (λ t. opened t lines) (sym (append-nil shown))
report_all-is_open (r ∷ rs) shown lines =
    ap (report_all rs) (report_as-opened r.explained r shown lines)
    ∙ report_all-is_open rs (shown ++ printed_text r ∷ []) lines
    ∙ rw (append_assoc shown (printed_text r ∷ []) (map printed_text rs))

report_all-printed :
    (rs : List Report) (shown : List Bytes)
    → ((report_all rs (unopened shown)).printed ≡ shown ++ map printed_text rs)
      × ((report_all rs (unopened shown)).logged ≡ first_logged rs)
unfolding report_all
report_all-printed [] shown = (sym (append-nil shown), refl)
report_all-printed (r ∷ rs) shown =
    let grown = append_assoc shown (printed_text r ∷ []) (map printed_text rs) in
    elim (Bool-cases (can_log r)) [
      | inl can ↦
          let line = log_text (codes "ERROR") r.function_name r.msg ∷ [] in
          let rest =
            ap (report_all rs) (report_as-first r.explained r shown can)
            ∙ report_all-is_open rs (shown ++ printed_text r ∷ []) line in
          rw can (ap (λ s. s.printed) rest ∙ grown, ap (λ s. s.logged) rest)
      | inr cannot ↦
          let next = ap (report_all rs) (report_as-unopened r.explained r shown cannot) in
          let (printed, logged) = report_all-printed rs (shown ++ printed_text r ∷ []) in
          rw cannot (ap (λ s. s.printed) next ∙ printed ∙ grown, ap (λ s. s.logged) next ∙ logged)
    ]

-- Of all calls of `cmon_print_error` and `cmon_print_errno_error`, in any order, each prints its
-- text, with what `strerror` gives for the second, but at most one reaches the log of `cmon_log`:
-- the first that is to be logged and for which the file can be opened. Every later one is dropped.
pub report_all-once :
    (rs : List Report)
    → ((report_all rs start).printed ≡ map printed_text rs)
      × ((report_all rs start).logged ≡ first_logged rs)
report_all-once rs = report_all-printed rs []
