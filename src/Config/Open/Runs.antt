-- ===== src/Config/Open/Runs.antt =====
-- The first start of the program in a directory, and the next one.
use cmon.Base.{
  >>=-assoc, Run, ◌≤◌, ◌≡◌, refl, ◌∙◌, ap, sym, none, some, List, [], ◌∷◌, ◌++◌, length, All, arith,
  ok, ◌>>=◌, length-append, codes, subst,
}
use cmon.Text.{Bytes}
use cmon.Str.Alloc.{Allocator}
use cmon.Str.CStr.{CStr, cons, nil, CStr-append, nul, chr, no_nul, no_nul-CStr}
use cmon.Str.Concat.{of_text, of_text-Holds, str_new_from_char_arrs-concat, str_new-of_text}
use cmon.Token.{token_arr_new, config_tokenizer}
use cmon.Token.Array.{Reliable}
use cmon.Token.Grammar.{IsLexem, Lexes, done}
use cmon.Config.{CmonConfig, config_parser, get_cwd}
use cmon.Config.Blocks.{Block, tokens, Settings, Stands, Means, with_blocks, Fits}
use cmon.Config.File.{config_file-Means}
use cmon.Config.Values.{Allocates-Reliable}
use cmon.Config.Open.{Stdio, default_config, config_path, open_file, config_init}
use cmon.Config.Open.Files.{Documented}
use cmon.Config.Open.Default.{
  default_blocks, default_blocks-IsLexem, default_config-Lexes, default_config-CStr,
}

-- What `config_new` gives: the three arrays are empty.
pub record IsNew (conf : CmonConfig) : Type 0 where
  pub watch : Stands conf.watch_ext_names []
  pub files : Stands conf.ignore_files_arr []
  pub dirs : Stands conf.ignore_dirs_arr []

-- The program is started in the directory `dir`, as `exe` and its arguments.
pub record Starts (dir char_cwd exe : Bytes) (conf : CmonConfig) : Type 0 where
  pub exe_text : Bytes
  pub cwd_is : CStr char_cwd dir
  pub near : length dir ≤ 256
  pub exe_is : CStr exe exe_text
  pub short : length exe_text ≤ 257
  pub new : IsNew conf

abbrev pub no_settings : Settings
no_settings = record { watch = []; files = []; dirs = [] }

abbrev pub slashed : Bytes → Bytes
slashed dir = dir ++ b'/' ∷ []

-- The path of the configuration file, as its NUL-terminated bytes.
abbrev pub path_under : Bytes → Bytes
path_under dir = (of_text (slashed dir ++ codes ".config.cmon")).string

module _ (io : Stdio) (d : Documented io) where
  -- A missing file is made with the default configuration, and its stream is at the end of it.
  open_file-missing :
      (path : Bytes) (w : io.World)
      → d.content path w ≡ none
      → (f : io.Stream) × (w' : io.World) × (open_file io path w ≡ ok (f, w'))
        × (d.content path w' ≡ some default_config)
        × (d.behind f w' ≡ [])
  unfolding open_file
  open_file-missing path w absent =
      let (f, w1, opened, at, empty, end) = d.fopen_writing path w in
      let (printed, ended) = d.fprintf_end f [] default_config w1 end (rw at empty) in
      let (kept, kept_end) = d.fflush_keeps f path (io.fprintf f default_config w1) in
      (
        f,
        io.fflush f (io.fprintf f default_config w1),
        rw (d.access_missing path w absent, opened),
        kept ∙ rw at at printed,
        kept_end ∙ ended,
      )

  -- A file that is there is read from its start.
  open_file-readable :
      (path s : Bytes) (w : io.World)
      → d.content path w ≡ some s
      → (f : io.Stream) × (w' : io.World) × (open_file io path w ≡ ok (f, w'))
        × (d.content path w' ≡ some s)
        × (d.behind f w' ≡ s)
  unfolding open_file
  open_file-readable path s w there =
      let (f, w1, opened, at, still, front) = d.fopen_reading path s w there in
      (f, w1, rw (d.access_readable path s w there, opened), still, front)

  module _ (m : Allocator) (lexem : Bytes) (given : Reliable m) (room : length lexem ≡ 100) where
    -- What `config_init` does once its file is open.
    config_init-opened :
        {dir char_cwd exe : Bytes} {conf : CmonConfig} (name : Bytes) (args : List Bytes)
        (bs : List Block) (w : io.World) {w1 : io.World} {f : io.Stream}
        → Starts dir char_cwd exe conf
        → open_file io (path_under dir) w ≡ ok (f, w1)
        → CStr (d.behind f w1 ++ 0 ∷ []) (d.behind f w1)
        → Lexes (d.behind f w1) (tokens bs)
        → length (tokens bs) ≤ 100
        → All (λ b. All IsLexem b.values) bs
        → Fits (with_blocks (slashed dir) bs no_settings)
        → (conf' : CmonConfig) × (config_init io m lexem (some char_cwd) (name ∷ exe ∷ args) conf w
            ≡ ok (conf', io.fclose f (io.lines f w1).1))
          × Means (slashed dir) conf' (with_blocks (slashed dir) bs no_settings)
    unfolding config_init get_cwd config_path no_nul
    config_init-opened {dir} {exe} {conf} name args bs w {w1} {f} start opened text lexes few words
          fits =
        let slash : CStr (b'/' ∷ 0 ∷ []) (b'/' ∷ []) = chr (λ e. cc) nul in
        let sized : length (slashed dir) ≤ 257 =
          omega (arith, length-append dir (b'/' ∷ []), start.near) in
        let full = CStr-append start.cwd_is slash in
        let exe_made = str_new-of_text m start.exe_is start.short (Allocates-Reliable m _ given) in
        let cwd_made =
          str_new_from_char_arrs-concat m start.cwd_is (cons slash nil)
            (omega (arith, start.near), (omega arith, tt)) (omega arith)
            (Allocates-Reliable m _ given) in
        let path_made =
          str_new_from_char_arrs-concat m full (cons (no_nul-CStr (codes ".config.cmon") refl) nil)
            (sized, (omega arith, tt)) (omega arith) (Allocates-Reliable m _ given) in
        let (ss, cs, whole) = d.lines_behind f w1 text in
        let start_conf : CmonConfig = record conf {
          exe = some (of_text start.exe_text);
          argv = exe ∷ args;
          cwd = some (of_text (slashed dir));
        } in
        let means : Means (slashed dir) start_conf no_settings = record {
          cwd_string = of_text (slashed dir);
          cwd_set = refl;
          cwd_holds = of_text-Holds full;
          watch = start.new.watch;
          files = start.new.files;
          dirs = start.new.dirs;
        } in
        let (conf', parsed, means') =
          config_file-Means m lexem bs given room cs (rw whole lexes) few means sized words fits in
        let finish : CmonConfig → Run (CmonConfig × io.World) =
          λ c. ok (c, io.fclose f (io.lines f w1).1) in
        let regrouped = sym (
          >>=-assoc (config_tokenizer m lexem token_arr_new (io.lines f w1).0)
            (λ a. config_parser m a start_conf) finish) in
        (
          conf',
          rw (exe_made, cwd_made, path_made, opened) (regrouped ∙ ap (λ r. r >>= finish) parsed),
          means',
        )

-- Where there is no configuration file, the first start of the program writes the default one and
-- reads no settings at all; the next start reads the default settings. Both return. For a C
-- library that does with files what its manual says, a file that the program may read and write, a
-- directory of at most 256 bytes and a program's name of at most 257, and where `malloc` does not
-- fail.
pub config_init_twice :
    (io : Stdio) (d : Documented io) (m : Allocator) (lexem lexem' : Bytes)
    {dir char_cwd exe : Bytes} {conf : CmonConfig} (name : Bytes) (args : List Bytes) (w : io.World)
    → Reliable m
    → length lexem ≡ 100
    → length lexem' ≡ 100
    → Starts dir char_cwd exe conf
    → d.content (path_under dir) w ≡ none
    → (conf1 : CmonConfig) × (conf2 : CmonConfig) × (w1 : io.World) × (w2 : io.World) × (config_init
          io m lexem
          (some char_cwd)
          (name ∷ exe ∷ args)
          conf
          w
        ≡ ok (conf1, w1))
      × Means (slashed dir) conf1 no_settings
      × (d.content (path_under dir) w1 ≡ some default_config)
      × (config_init io m lexem' (some char_cwd) (name ∷ exe ∷ args) conf w1 ≡ ok (conf2, w2))
      × Means (slashed dir) conf2 (with_blocks (slashed dir) default_blocks no_settings)
config_init_twice io d m lexem lexem' {dir} name args w given room room' start absent =
    let path = path_under dir in
    let (f, w1, opened, made, at_end) = open_file-missing io d path w absent in
    let nothing = sym at_end in
    let (conf1, first, means1) =
      config_init-opened io d m lexem given room name args [] w start opened
        (subst (λ s. CStr (s ++ 0 ∷ []) s) nothing nul) (subst (λ s. Lexes s []) nothing done)
        (omega arith) tt
        (record { watch = omega arith; files = omega arith; dirs = omega arith }) in
    let w2 = io.fclose f (io.lines f w1).1 in
    let kept = d.fclose_keeps f path (io.lines f w1).1 ∙ d.lines_keep f path w1 ∙ made in
    let (f', w3, opened', still, front) = open_file-readable io d path default_config w2 kept in
    let all = sym front in
    let (conf2, second, means2) =
      config_init-opened io d m lexem' given room' name args default_blocks w2 start opened'
        (subst (λ s. CStr (s ++ 0 ∷ []) s) all default_config-CStr)
        (subst (λ s. Lexes s (tokens default_blocks)) all default_config-Lexes) (omega arith)
        default_blocks-IsLexem
        (record { watch = omega arith; files = omega arith; dirs = omega arith }) in
    (conf1, conf2, w2, io.fclose f' (io.lines f' w3).1, first, means1, kept, second, means2)
