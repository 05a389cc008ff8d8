-- ===== src/Config/Open/Tests.antt =====
-- Two starts in a directory with no configuration file.
use cmon.Base.{◌≡◌, refl, none, some, [], ◌∷◌, ◌++◌, replicate, ok, codes}
use cmon.Str.Sample.{ample}
use cmon.Config.{CmonConfig}
use cmon.Config.Blocks.{Means, with_blocks}
use cmon.Config.Open.{default_config, config_init}
use cmon.Config.Open.Default.{default_blocks}
use cmon.Config.Open.Runs.{no_settings, slashed, path_under, config_init_twice}
use cmon.Config.Open.Sample.{
  File, one_file, one_file-Documented, ample-Reliable, new_config, dir, exe, new_config-Starts,
  file_missing,
}

config_init_twice_example :
    (conf1 : CmonConfig) × (conf2 : CmonConfig) × (w1 : File) × (w2 : File) × (config_init one_file
        ample
        (replicate 100 0)
        (some (dir ++ 0 ∷ []))
        (codes "cmon" ∷ (exe ++ 0 ∷ []) ∷ [])
        new_config
        none
      ≡ ok (conf1, w1))
    × Means (slashed dir) conf1 no_settings
    × (one_file-Documented.content (path_under dir) w1 ≡ some default_config)
    × (config_init one_file ample
          (replicate 100 0)
          (some (dir ++ 0 ∷ []))
          (codes "cmon" ∷ (exe ++ 0 ∷ []) ∷ [])
          new_config
          w1
        ≡ ok (conf2, w2))
    × Means (slashed dir) conf2 (with_blocks (slashed dir) default_blocks no_settings)
config_init_twice_example =
    config_init_twice one_file one_file-Documented ample (replicate 100 0) (replicate 100 0)
      (codes "cmon") [] none ample-Reliable refl refl new_config-Starts file_missing
