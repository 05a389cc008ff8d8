-- ===== src/Main/Setup.antt =====
-- What `main` has done when it comes to its loop.
use cmon.Base.{
  ℕ, ◌≤◌, ◌≡◌, ◌∙◌, sym, ap, Option, some, List, [], ◌∷◌, length, length-append, arith, Run, ok,
}
use cmon.Base.Int.{ℤ, pos}
use cmon.Text.{Bytes}
use cmon.Str.Alloc.{Allocator}
use cmon.Str.CStr.{CStr, nul, chr, CStr-append}
use cmon.Str.Concat.{of_text, of_text-Holds, str_new-of_text, str_copy-Holds}
use cmon.Str.{str_copy}
use cmon.Token.Array.{Reliable}
use cmon.Config.{CmonConfig, config_new}
use cmon.Config.Values.{Allocates-Reliable}
use cmon.Config.Open.{Stdio, config_init}
use cmon.Config.Open.Runs.{slashed}
use cmon.Config.Open.Commands.{config_init-Commands, get_cwd-slashed}
use cmon.PsTree.Pids as Pids
use cmon.Watching.{Children}
use cmon.Watching.Dirs.{Dir, Inotify}
use cmon.Watching.Restart.{fresh-Represents}
use cmon.Watching.Visits.{Visits, watch_all, recursive_dir_add-Visits}
use cmon.Main.{setup}

ok_inj {ℓ} : {A : Type ℓ} {a b : A} → Run.ok a ≡ ok b → a ≡ b
ok_inj e = cc

-- `main` comes to its loop: inotify has been given just the paths of `Visits`, in the order of the
-- listing, and the child is started with the configuration that was read. There is a path for each
-- entry that is a directory, "." included, but for those that the configuration ignores and what is
-- below these: where each listing has its ".", the working directory comes once and each directory
-- below it twice, by its name and by its own ".". For a configuration that `config_init` reads, at
-- most 100 such paths, names that are texts of at most 257 bytes with the path in front of them, a
-- working directory of at most 256 bytes, a program's name of at most 257, and where `malloc` does
-- not fail and inotify is there.
pub setup-watches :
    (io : Stdio) (ino : Inotify) (os : Children) (m : Allocator) (ints : ℕ → Option (List ℤ))
    (c new conf : CmonConfig) (lexem name : Bytes) {dir char_cwd exe exe_text : Bytes}
    (args : List Bytes) (fd : ℕ) {tree : Dir} {ws : List Bytes} (w w' : io.World) (u : ino.World)
    (v : os.sys.World)
    → Reliable m
    → Pids.Ample ints
    → CStr char_cwd dir
    → length dir ≤ 256
    → CStr exe exe_text
    → length exe_text ≤ 257
    → config_new (some c) ≡ ok new
    → config_init io m lexem (some char_cwd) (name ∷ exe ∷ args) new w ≡ ok (conf, w')
    → Visits conf.ignore_dirs_arr (slashed dir) tree ws
    → length ws ≤ 100
    → setup io ino os m ints (some c) lexem (some char_cwd) (name ∷ exe ∷ args) (pos fd) tree w u v
      ≡ ok (record {
        conf = conf;
        sub_pid = (os.start conf v).0;
        files = w';
        watches = (watch_all ino ws u).1;
        processes = (os.start conf v).1;
      })
unfolding setup
setup-watches io ino os m ints c new conf lexem name {dir} {exe_text} args fd w w' u v given ample
      cwd_is near exe_is short made read visits few =
    let (block, slots_given, size) = ample 100 in
    let (a, fresh, r, sized) = fresh-Represents 100 block size (omega arith) in
    let exe_made = str_new-of_text m exe_is short (Allocates-Reliable m _ given) in
    let left =
      config_init-Commands io m lexem (some _) _ exe_text name args new conf w w' exe_made read in
    let cwd : conf.cwd ≡ some (of_text (slashed dir)) =
      ok_inj (sym left.got ∙ get_cwd-slashed m cwd_is near given) in
    let slash : CStr (b'/' ∷ 0 ∷ []) (b'/' ∷ []) = chr (λ e. cc) nul in
    let (path, copied, holds) =
      str_copy-Holds m (of_text-Holds (CStr-append cwd_is slash))
        (omega (arith, length-append dir (b'/' ∷ []))) (Allocates-Reliable m _ given) in
    let (b, added, rb) =
      recursive_dir_add-Visits ino m ints conf.ignore_dirs_arr (λ n. Allocates-Reliable m n given)
        path u visits holds.text r (omega (arith, sized)) (omega (arith, sized)) in
    rw (slots_given, fresh, made, read, ap (str_copy m) cwd ∙ copied, added)
