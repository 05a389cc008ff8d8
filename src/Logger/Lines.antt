-- ===== src/Logger/Lines.antt =====
-- Where the lines of the log go.
use cmon.Base.{
  sym, ◌≡◌, refl, ◌∙◌, none, some, List, [], ◌∷◌, ◌++◌, map, append_assoc, append-nil, ok,
}
use cmon.Logger.{Logger, Log, Call, line_of, log_init, log_write, log_all, no_log}

log_all-lines :
    (cs : List Call) (l : Logger) (s : Log)
    → s.write_logger ≡ some l
    → (s' : Log) × (log_all cs s ≡ ok s') × (s'.lines ≡ s.lines ++ map (line_of l) cs)
unfolding log_all log_write
log_all-lines [] l s e = (s, refl, sym (append-nil s.lines))
log_all-lines (c ∷ cs) l s e =
    let next : Log = record {
      init_logger = s.init_logger;
      write_logger = some l;
      lines = s.lines ++ line_of l c ∷ [];
    } in
    let (s', all, lines) = log_all-lines cs l next refl in
    (s', rw e all, lines ∙ append_assoc s.lines (line_of l c ∷ []) (map (line_of l) cs))

-- The log is one file: where the first call of `log_write` opens it, that call and all later ones
-- return and write one line each, in order, to that file and with the process number of the first
-- call, whatever the environment and the memory are by then.
pub log_all-singleton :
    (c : Call) (cs : List Call) (l : Logger)
    → log_init c.env none ≡ ok l
    → (s : Log) × (log_all (c ∷ cs) no_log ≡ ok s) × (s.lines ≡ map (line_of l) (c ∷ cs))
unfolding log_all log_write
log_all-singleton c cs l opened =
    let first : Log = record {
      init_logger = some l;
      write_logger = some l;
      lines = line_of l c ∷ [];
    } in
    let (s, all, lines) = log_all-lines cs l first refl in (s, rw opened all, lines)
