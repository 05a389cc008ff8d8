-- ===== src/Main/Tests.antt =====
-- A first start in "/w", where there is the directory "a", and a change of "a" that is reported
-- behind another event.
use cmon.Base.{
  ◌≡◌, refl, true, false, none, some, [], ◌∷◌, ◌++◌, replicate, arith, ok, fault, codes,
}
use cmon.Base.Int.{pos}
use cmon.Str.Sample.{ample}
use cmon.Str.{str_new, alloc_string}
use cmon.Str.CStr.{nul, chr}
use cmon.Str.Concat.{of_text}
use cmon.Str.Array.{str_arr_find}
use cmon.Token.{config_tokenizer}
use cmon.Config.{CmonConfig, config_new, same_text}
use cmon.Config.Open.{config_init, default_config}
use cmon.Config.Open.Runs.{slashed}
use cmon.Config.Open.Sample.{one_file, cut, ample-Reliable, new_config, no_strings, dir, exe}
use cmon.Paths.Sample.{zeroing, zeroing-Ample}
use cmon.Watching.{InotifyEvent}
use cmon.Watching.Dirs.{directory, Dir, no_more, entry, here, above}
use cmon.Watching.Visits.{Visits, finished, parent, itself, inside}
use cmon.Watching.Sample.{
  os, memory, memory-Ample, here-Named, slash-Named, above-Named, a_name, a_name-Named, counting,
}
use cmon.Main.{idle, events_read, setup, main_loop}
use cmon.Main.Setup.{setup-watches}
use cmon.Main.Loop.{main_loop-fault}

abbrev started : CmonConfig
started = record new_config {
  cwd = some (of_text (slashed dir));
  exe = some (of_text exe);
  argv = (exe ++ 0 ∷ []) ∷ codes "-v" ∷ [];
}

first_start :
    config_init one_file ample
      (replicate 100 0)
      (some (dir ++ 0 ∷ []))
      (codes "cmon" ∷ (exe ++ 0 ∷ []) ∷ codes "-v" ∷ [])
      new_config
      none
    ≡ ok (started, some (default_config, []))
unfolding config_init cut str_new alloc_string config_tokenizer
first_start = refl

fresh_config : config_new (some new_config) ≡ ok new_config
unfolding config_new
fresh_config = refl

-- The directory "/w" with the directory "a" in it.
abbrev tree : Dir
tree = entry (directory here no_more) (
    entry (directory above no_more)
      (entry (directory a_name (entry (directory here no_more) no_more)) no_more))

tree-Visits :
    Visits no_strings (slashed dir) tree (codes "/w/." ∷ codes "/w/a" ∷ codes "/w/a/." ∷ [])
unfolding str_arr_find same_text
tree-Visits =
    itself (here-Named (slashed dir) (omega arith)) refl refl refl
      (slash-Named (codes "/w/.") (omega arith))
      (parent (above-Named (slashed dir) (omega arith)) refl (
        inside (a_name-Named (slashed dir) (omega arith)) refl refl refl
          (slash-Named (codes "/w/a") (omega arith))
          (itself (here-Named (codes "/w/a/") (omega arith)) refl refl refl
            (slash-Named (codes "/w/a/.") (omega arith)) finished)
          finished))

setup-watches_example :
    setup one_file counting os ample memory
      (some new_config)
      (replicate 100 0)
      (some (dir ++ 0 ∷ []))
      (codes "cmon" ∷ (exe ++ 0 ∷ []) ∷ codes "-v" ∷ [])
      (pos 4)
      tree
      none
      0
      []
    ≡ ok (record {
      conf = started;
      sub_pid = pos 99;
      files = some (default_config, []);
      watches = 3;
      processes = [];
    })
setup-watches_example =
    setup-watches one_file counting os ample memory new_config new_config started (replicate 100 0)
      (codes "cmon") (codes "-v" ∷ []) 4 none (some (default_config, [])) 0 [] ample-Reliable
      memory-Ample (chr (λ e. omega (arith, e)) (chr (λ e. omega (arith, e)) nul)) (omega arith)
      (chr (λ e. omega (arith, e)) nul) (omega arith) fresh_config first_start tree-Visits
      (omega arith)

-- An event that is no change, and one that is.
abbrev unchanged : InotifyEvent
unchanged = record { modify = false; name = 97 ∷ 0 ∷ [] }

abbrev changed : InotifyEvent
changed = record { modify = true; name = 97 ∷ 0 ∷ [] }

main_loop-fault_example :
    main_loop os zeroing memory
      (replicate 10 0)
      (some (47 ∷ 0 ∷ []))
      started
      (idle ∷ events_read (unchanged ∷ []) ∷ events_read (unchanged ∷ changed ∷ []) ∷ idle ∷ [])
      (record { cwd = none; cwd_len = 0 })
      (pos 12)
      []
    ≡ fault
main_loop-fault_example =
    main_loop-fault os zeroing memory (replicate 10 0) (47 ∷ []) [] started
      (idle ∷ events_read (unchanged ∷ []) ∷ []) (unchanged ∷ []) [] (idle ∷ []) (97 ∷ []) [] 0
      (pos 12) [] zeroing-Ample (λ e. omega (arith, e), tt) (omega arith)
      (λ e. omega (arith, e), tt) (omega arith) (tt, ((refl, tt), tt)) (refl, tt)
