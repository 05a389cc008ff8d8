-- ===== src/Paths/Full.antt =====
-- `cmon_path_new_full_path` of src/lib/utils/cmon_path.c.
use cmon.Base.{
  ℕ, zero, suc, ◌+◌, ◌-◌, ◌%◌, false, Option, none, some, [], ◌∷◌, ◌++◌, take, ◌==◌, if◌then◌else◌,
  Run, ok, exited, fault, ◌>>=◌, fetch,
}
use cmon.Text.{Bytes, size_mod}
use cmon.Str.{strncpy}
use cmon.Mem.Copy.{overwrite}
use cmon.Paths.{CmonPath, Reallocator, max_path_len, path_struct_size}

-- `strnlen`
unfoldable pub str_n_len : ℕ → Bytes → Run ℕ
str_n_len zero b = ok 0
str_n_len (suc n) [] = fault
str_n_len (suc n) (c ∷ cs) =
    let rest = (do k ← str_n_len n cs; ok (suc k)) in if c == 0 then ok 0 else rest

-- What `%s` prints: the bytes up to the NUL byte, which the object must hold.
unfoldable pub text_of : Bytes → Run Bytes
text_of [] = fault
text_of (c ∷ cs) = let rest = (do t ← text_of cs; ok (c ∷ t)) in if c == 0 then ok [] else rest

-- The search for the last dot, with the rounds left: the loop over `i` up to `src_len`.
unfoldable pub ext_from : Bytes → ℕ → ℕ → ℕ → Run (Option ℕ)
ext_from path path_len zero i = ok none
ext_from path path_len (suc n) i = do
  c ← fetch path (path_len - i)
  let rest = ext_from path path_len n (i + 1)
  if c == b'.' then ok (some i) else rest

abbrev pub with_ext : Bytes → ℕ → Option ℕ → CmonPath
with_ext path path_len none = record { path_len = path_len; path = path; ext_len = 0; ext = none }
with_ext path path_len (some i) = record {
  path_len = path_len;
  path = path;
  ext_len = i;
  ext = some (path_len - i);
}

-- The static variables: `cwd`, NULL before the first call, and `cwd_len`.
pub record Cwd : Type 0 where
  pub cwd : Option Bytes
  pub cwd_len : ℕ

module _ (mem : Reallocator) where
  abbrev pub cached : Bytes → ℕ → Option Bytes → Run (Bytes × ℕ)
  cached buff cwd_len none = exited 1
  cached buff cwd_len (some block) = do cwd ← strncpy block 0 buff false cwd_len; ok (cwd, cwd_len)

  -- `if (cwd == NULL) { ... }`, with what `getcwd` puts into `buff`.
  unfoldable pub known_cwd : Option Bytes → Option Bytes → ℕ → Run (Bytes × ℕ)
  known_cwd answer (some cwd) cwd_len = ok (cwd, cwd_len)
  known_cwd none none cwd_len = exited 1
  known_cwd (some buff) none cwd_len = do
    len ← str_n_len max_path_len buff
    cached buff len (mem.alloc len)

  abbrev pub printed : Bytes → Bytes → ℕ → ℕ → Option Bytes → Run CmonPath
  printed cwd src src_len path_len none = exited 1
  printed cwd src src_len path_len (some block) = do
    front ← text_of cwd
    back ← text_of src
    let path = overwrite block 0 (take path_len (front ++ (b'/' ∷ back)) ++ 0 ∷ [])
    found ← ext_from path path_len (src_len - 1) 1
    ok (with_ext path path_len found)

  abbrev pub full_path_in : Bytes → ℕ → Bytes → ℕ → Option Bytes → Run CmonPath
  full_path_in cwd cwd_len src src_len none = exited 1
  full_path_in cwd cwd_len src src_len (some struct) =
      let path_len = (src_len + cwd_len + 1) % size_mod in
      printed cwd src src_len path_len (mem.alloc ((path_len + 1) % size_mod))

  -- `cmon_path_new_full_path`, with its static variables before and after.
  unfoldable pub new_full_path : Option Bytes → Cwd → Bytes → Run (CmonPath × Cwd)
  unfolding str_n_len text_of ext_from known_cwd
  new_full_path answer statics src = do
    (cwd, cwd_len) ← known_cwd answer statics.cwd statics.cwd_len
    src_len ← str_n_len max_path_len src
    path ← full_path_in cwd cwd_len src src_len (mem.alloc path_struct_size)
    ok (path, record { cwd = some cwd; cwd_len = cwd_len })
