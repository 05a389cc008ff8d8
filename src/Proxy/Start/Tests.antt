-- ===== src/Proxy/Start/Tests.antt =====
-- Two clients, 5 and 6.
use cmon.Base.{◌≡◌, refl, some, true, List, [], ◌∷◌, get_elem?}
use cmon.Base.Int.{pos, negsuc}
use cmon.Proxy.Start.{created, serving, Server, Event, accepts, begins, run, proxy_start}
use cmon.Proxy.Start.Race.{run-first_read, proxy_start_hurried}

abbrev one_thread : Server
one_thread = record { rc = pos 5; threads = created ∷ [] }

-- The first thread runs after the second `accept` has failed.
abbrev failing : List Event
failing = accepts (negsuc 0) true ∷ begins 0 ∷ accepts (pos 6) true ∷ begins 0 ∷ []

late_thread :
    run failing one_thread ≡ record { rc = pos 6; threads = serving (negsuc 0) ∷ created ∷ [] }
unfolding run
late_thread = refl

run-first_read_example : get_elem? (run failing one_thread).threads 0 ≡ some (serving (negsuc 0))
run-first_read_example = run-first_read failing one_thread 0 refl

proxy_start_hurried_example :
    proxy_start
      (pos 3)
      (pos 0)
      (accepts (pos 5) true ∷ accepts (pos 6) true ∷ begins 0 ∷ begins 1 ∷ [])
    ≡ some (record { rc = pos 6; threads = serving (pos 6) ∷ serving (pos 6) ∷ [] })
proxy_start_hurried_example = proxy_start_hurried 3 0 (5 ∷ []) 6
