-- ===== src/Config/Open/Default.antt =====
-- The default configuration as a text of the grammar.
use cmon.Base.{All, map, ltb, ◌≡◌, refl, ◌≢◌, ◌<◌, List, [], ◌∷◌, ◌++◌, length, true, arith, codes}
use cmon.Text.{Bytes}
use cmon.Token.{
  is_word_char, Token, text, chars, double_colon, o_curly_baracket, c_curly_baracket, null,
}
use cmon.Token.Array.{token}
use cmon.Str.CStr.{CStr, no_nul, no_nul-CStr}
use cmon.Token.Grammar.{IsLexem, Lexes, done, filler, opening, closing, quoted, label}
use cmon.Config.{ConfigEntry, watch_file_ext_names, ignore_files, ignore_dirs}
use cmon.Config.Blocks.{Block, tokens, label_of, string_token}
use cmon.Config.File.{is_word, is_word-IsWord, label-IsLexem, label-alpha_free}
use cmon.Config.Open.{default_config}

abbrev pub default_blocks : List Block
default_blocks =
    record { entry = watch_file_ext_names; values = codes "html" ∷ codes "css" ∷ [] }
    ∷ record { entry = ignore_files; values = codes ".gitignore" ∷ codes "c000mand1.go" ∷ [] }
    ∷ record {
      entry = ignore_dirs;
      values = codes ".git" ∷ codes "build" ∷ codes "node_modules" ∷ codes "si/super/com" ∷ [];
    }
    ∷ []

word-IsLexem : (w : Bytes) → is_word w ≡ true → w ≢ [] → length w < 100 → IsLexem w
word-IsLexem w h ne short = record { word = is_word-IsWord w h; not_empty = ne; short = short }

-- A label, its colon, a blank and the brace.
header-Lexes :
    (e : ConfigEntry) {s : Bytes} {ts : List Token}
    → Lexes s ts
    → Lexes (label_of e ++ b':' ∷ b' ' ∷ b'{' ∷ s) (
        token text (chars (label_of e))
        ∷ token double_colon null
        ∷ token o_curly_baracket null
        ∷ ts)
unfolding is_word_char
header-Lexes e t =
    label (label_of e) (label-IsLexem e) (label-alpha_free e) (filler refl (opening t))

-- A value in its quotation marks, on a line of its own.
value-Lexes :
    (w : Bytes) {s : Bytes} {ts : List Token}
    → IsLexem w
    → Lexes s ts
    → Lexes (b'\n' ∷ b' ' ∷ b' ' ∷ b'"' ∷ (w ++ b'"' ∷ s)) (string_token w ∷ ts)
unfolding is_word_char
value-Lexes w is t = filler refl (filler refl (filler refl (quoted b'"' w refl refl is t)))

close-Lexes :
    {s : Bytes} {ts : List Token}
    → Lexes s ts
    → Lexes (b'\n' ∷ b'}' ∷ s) (token c_curly_baracket null ∷ ts)
unfolding is_word_char
close-Lexes t = filler refl (closing t)

-- The values of a block: every line but the last ends with a comma.
abbrev value_lines : Bytes → List Bytes → Bytes → Bytes
value_lines v [] rest = b'\n' ∷ b' ' ∷ b' ' ∷ b'"' ∷ (v ++ b'"' ∷ rest)
value_lines v (w ∷ vs) rest =
    b'\n' ∷ b' ' ∷ b' ' ∷ b'"' ∷ (v ++ b'"' ∷ b',' ∷ value_lines w vs rest)

values-Lexes :
    (v : Bytes) (vs : List Bytes) {s : Bytes} {ts : List Token}
    → All IsLexem (v ∷ vs)
    → Lexes s ts
    → Lexes (value_lines v vs s) (map string_token (v ∷ vs) ++ ts)
unfolding is_word_char
values-Lexes v [] is t = value-Lexes v is.0 t
values-Lexes v (w ∷ vs) is t = value-Lexes v is.0 (filler refl (values-Lexes w vs is.1 t))

short_word : (w : Bytes) → is_word w ≡ true → w ≢ [] → ltb (length w) 100 ≡ true → IsLexem w
short_word w h ne short = word-IsLexem w h ne (ground arith)

pub default_blocks-IsLexem : All (λ b. All IsLexem b.values) default_blocks
unfolding is_word is_word_char
default_blocks-IsLexem = (
  (
    short_word (codes "html") refl (λ e. cc) refl,
    (short_word (codes "css") refl (λ e. cc) refl, tt),
  ),
  (
    (
      short_word (codes ".gitignore") refl (λ e. cc) refl,
      (short_word (codes "c000mand1.go") refl (λ e. cc) refl, tt),
    ),
    (
      (
        short_word (codes ".git") refl (λ e. cc) refl,
        (
          short_word (codes "build") refl (λ e. cc) refl,
          (
            short_word (codes "node_modules") refl (λ e. cc) refl,
            (short_word (codes "si/super/com") refl (λ e. cc) refl, tt),
          ),
        ),
      ),
      tt,
    ),
  ),
)

pub default_config-Lexes : Lexes default_config (tokens default_blocks)
unfolding is_word_char
default_config-Lexes =
    let is = default_blocks-IsLexem in
    header-Lexes watch_file_ext_names (
      values-Lexes (codes "html") (codes "css" ∷ []) is.0 (
        close-Lexes (
          filler refl (
            filler refl (
              header-Lexes ignore_files (
                values-Lexes (codes ".gitignore") (codes "c000mand1.go" ∷ []) is.1.0 (
                  close-Lexes (
                    filler refl (
                      filler refl (
                        header-Lexes ignore_dirs (
                          values-Lexes (codes ".git")
                            (codes "build" ∷ codes "node_modules" ∷ codes "si/super/com" ∷ [])
                            is.1.1.0 (close-Lexes done))))))))))))

pub default_config-CStr : CStr (default_config ++ 0 ∷ []) default_config
unfolding no_nul
default_config-CStr = no_nul-CStr default_config refl
