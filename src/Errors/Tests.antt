-- ===== src/Errors/Tests.antt =====
-- Three errors, the first of which is not to be logged.
use cmon.Base.{◌≡◌, true, false, none, some, List, [], ◌∷◌, codes}
use cmon.Errors.{start, Report, report_all}
use cmon.Errors.Once.{report_all-once}

abbrev reports : List Report
reports =
    record {
      explained = none;
      opens = true;
      to_log = false;
      function_name = codes "f";
      msg = codes "a";
    }
    ∷ record {
      explained = some (codes "No such process");
      opens = true;
      to_log = true;
      function_name = codes "g";
      msg = codes "b";
    }
    ∷ record {
      explained = none;
      opens = true;
      to_log = true;
      function_name = codes "h";
      msg = codes "c";
    }
    ∷ []

report_all-once_example :
    ((report_all reports start).printed
      ≡ codes "Cmon ERROR on function f: a\n"
        ∷ codes "Cmon ERROR on function g: b: errno: No such process\n"
        ∷ codes "Cmon ERROR on function h: c\n"
        ∷ [])
    × ((report_all reports start).logged ≡ codes "[ERROR]: from fucntion g: b\n" ∷ [])
report_all-once_example = report_all-once reports
