-- ===== src/Paths/Tests.antt =====
-- The path "a.c" with a buffer that must grow, and the first full path.
use cmon.Base.{ℕ, ◌≡◌, some, [], ◌∷◌, take, arith, ok}
use cmon.Text.{Bytes}
use cmon.Paths.{CmonPath, path_new}
use cmon.Paths.Dot.{Extension, Text}
use cmon.Paths.Extension.{path_new-Extension}
use cmon.Paths.Sample.{zeroing, zeroing-Ample}

-- "a.c"
abbrev a_c : Bytes
a_c = 97 ∷ b'.' ∷ 99 ∷ []

a_c-Text : Text a_c
a_c-Text = (λ e. omega (arith, e), (λ e. omega (arith, e), (λ e. omega (arith, e), tt)))

path_new-Extension_example :
    (path : CmonPath) × (n : ℕ) × (path_new zeroing 2 (97 ∷ b'.' ∷ 99 ∷ 0 ∷ []) ≡ ok (some path, n))
    × (take 4 path.path ≡ 97 ∷ b'.' ∷ 99 ∷ 0 ∷ [])
    × (path.path_len ≡ 3)
    × Extension a_c path.ext_len path.ext
path_new-Extension_example =
    path_new-Extension zeroing 2 a_c [] zeroing-Ample (omega arith) a_c-Text (omega arith)
