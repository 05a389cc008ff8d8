-- ===== src/Release/Tests.antt =====
-- A configuration at 1, with the working directory at 2, the program's name at 3, one file to
-- ignore at 4, and the bytes of that string at 5.
use cmon.Base.{ℕ, ◌+◌, ◌≡◌, refl, none, some, List, [], ◌∷◌, replicate, arith, ok}
use cmon.Base.Int.{pos}
use cmon.Release.{Strings, ConfigBlocks, config_free}
use cmon.Release.Blocks.{count, Holds, blocks, config_free-blocks}

abbrev no_strings : Strings
no_strings = record { len = 0; arr = replicate 50 none }

abbrev one_string : Strings
one_string = record { len = 1; arr = some 4 ∷ replicate 49 none }

no_strings-Holds : Holds no_strings []
no_strings-Holds = record { slack = replicate 50 none; counted = refl; slots = refl }

one_string-Holds : Holds one_string (4 ∷ [])
one_string-Holds = record { slack = replicate 49 none; counted = refl; slots = refl }

abbrev config : ConfigBlocks
config = record {
  conf = 1;
  ignore_dirs = no_strings;
  ignore_files = one_string;
  watch_ext_names = no_strings;
  cwd = some 2;
  exe = some 3;
}

config_free-blocks_example :
    (live' : List ℕ) × (config_free config (1 ∷ 2 ∷ 3 ∷ 4 ∷ 5 ∷ []) ≡ ok (pos 0, live'))
    × ((a : ℕ)
        → count a (1 ∷ 2 ∷ 3 ∷ 4 ∷ 5 ∷ []) ≡ count a (blocks [] (4 ∷ []) [] 2 3 1) + count a live')
config_free-blocks_example =
    config_free-blocks config 2 3 (1 ∷ 2 ∷ 3 ∷ 4 ∷ 5 ∷ []) no_strings-Holds one_string-Holds
      no_strings-Holds refl refl (λ a. omega arith)
