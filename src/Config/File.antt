-- ===== src/Config/File.antt =====
-- A configuration file from its text to the settings that it means.
use cmon.Base.{
  ◌≤◌, ◌≡◌, refl, false, true, Bool, ◌&&◌, List, [], ◌∷◌, ◌++◌, length, map, All, append_assoc,
  arith, ok, ◌>>=◌,
}
use cmon.Text.{Bytes, char_is_alpha}
use cmon.Str.Alloc.{Allocator}
use cmon.Str.CStr.{CStrs, concat}
use cmon.Token.{c_curly_baracket, null, Token, token_arr_new, config_tokenizer, is_word_char}
use cmon.Token.Array.{Reliable, token}
use cmon.Token.Word.{IsWord, IsWord-CStr, alpha_free}
use cmon.Token.Grammar.{IsLexem, Lexes, done, filler, opening, closing, quoted, label}
use cmon.Token.Scan.{config_tokenizer-Lexes}
use cmon.Config.{
  ConfigEntry, watch_file_ext_names, ignore_files, ignore_dirs, CmonConfig, config_parser,
}
use cmon.Config.Blocks.{
  Block, string_token, tokens, label_of, Settings, Means, with_blocks, IsValue, Fits,
}
use cmon.Config.Values.{config_parser-blocks}

-- The layout of the default configuration: a label, its braces, and a quoted value on each line.
unfoldable pub render_values : List Bytes → Bytes → Bytes
render_values [] rest = b'}' ∷ b'\n' ∷ rest
render_values (v ∷ vs) rest =
    b' ' ∷ b' ' ∷ b'"' ∷ (v ++ b'"' ∷ b',' ∷ b'\n' ∷ render_values vs rest)

unfoldable pub render : List Block → Bytes
unfolding render_values
render [] = []
render (b ∷ bs) =
    label_of b.entry ++ b':' ∷ b' ' ∷ b'{' ∷ b'\n' ∷ render_values b.values (render bs)

-- A check of every byte of a word, for words that are written out.
unfoldable pub is_word : Bytes → Bool
is_word [] = true
is_word (c ∷ w) = is_word_char c && is_word w

pub is_word-IsWord : (w : Bytes) → is_word w ≡ true → IsWord w
unfolding is_word
is_word-IsWord [] h = tt
is_word-IsWord (c ∷ w) h = (ground arith, is_word-IsWord w (ground arith))

pub label-IsLexem : (e : ConfigEntry) → IsLexem (label_of e)
unfolding is_word is_word_char
label-IsLexem watch_file_ext_names = record {
  word = is_word-IsWord (label_of watch_file_ext_names) refl;
  not_empty = λ e. cc;
  short = omega arith;
}
label-IsLexem ignore_files = record {
  word = is_word-IsWord (label_of ignore_files) refl;
  not_empty = λ e. cc;
  short = omega arith;
}
label-IsLexem ignore_dirs = record {
  word = is_word-IsWord (label_of ignore_dirs) refl;
  not_empty = λ e. cc;
  short = omega arith;
}

pub label-alpha_free : (e : ConfigEntry) → alpha_free (label_of e) ≡ false
unfolding alpha_free char_is_alpha
label-alpha_free watch_file_ext_names = refl
label-alpha_free ignore_files = refl
label-alpha_free ignore_dirs = refl

Lexes-render_values :
    (vs : List Bytes) {rest : Bytes} {ts : List Token}
    → All IsLexem vs
    → Lexes rest ts
    → Lexes (render_values vs rest) (map string_token vs ++ token c_curly_baracket null ∷ ts)
unfolding render_values is_word_char
Lexes-render_values [] is t = closing (filler refl t)
Lexes-render_values (v ∷ vs) is t = filler refl (
    filler refl
      (quoted b'"' v refl refl is.0 (filler refl (filler refl (Lexes-render_values vs is.1 t)))))

pub Lexes-render :
    (bs : List Block) → All (λ b. All IsLexem b.values) bs → Lexes (render bs) (tokens bs)
unfolding render is_word_char
Lexes-render [] is = done
Lexes-render (b ∷ bs) is =
    label (label_of b.entry) (label-IsLexem b.entry) (label-alpha_free b.entry) (
      filler refl (
        opening (
          filler refl (
            rw
              (append_assoc (map string_token b.values) (token c_curly_baracket null ∷ [])
                (tokens bs))
              (Lexes-render_values b.values is.0 (Lexes-render bs is.1))))))

IsLexem-IsValue : (v : Bytes) → IsLexem v → IsValue v
IsLexem-IsValue v l = record {
  text = IsWord-CStr v [] l.word;
  not_empty = l.not_empty;
  short = omega (arith, l.short);
}

All-IsValue : (vs : List Bytes) → All IsLexem vs → All IsValue vs
All-IsValue [] is = tt
All-IsValue (v ∷ vs) is = (IsLexem-IsValue v is.0, All-IsValue vs is.1)

blocks-IsValue :
    (bs : List Block) → All (λ b. All IsLexem b.values) bs → All (λ b. All IsValue b.values) bs
blocks-IsValue [] is = tt
blocks-IsValue (b ∷ bs) is = (All-IsValue b.values is.0, blocks-IsValue bs is.1)

-- A file whose text is of the grammar, with the tokens of a list of blocks, is read as the settings
-- of those blocks: `config_tokenizer` and `config_parser`, one after the other, return, and add the
-- values of each block to the array of its label. The values are words that fit the lexem, there
-- are at most 100 tokens and 50 items in each array, the working directory has at most 257 bytes,
-- and `malloc` does not fail.
pub config_file-Means :
    (m : Allocator) (lexem : Bytes) {lines ss : List Bytes} {conf : CmonConfig} {cwd : Bytes}
    {s : Settings} (bs : List Block)
    → Reliable m
    → length lexem ≡ 100
    → CStrs lines ss
    → Lexes (concat ss) (tokens bs)
    → length (tokens bs) ≤ 100
    → Means cwd conf s
    → length cwd ≤ 257
    → All (λ b. All IsLexem b.values) bs
    → Fits (with_blocks cwd bs s)
    → (conf' : CmonConfig) × ((config_tokenizer m lexem token_arr_new lines >>= λ a.
          config_parser m a conf)
        ≡ ok conf')
      × Means cwd conf' (with_blocks cwd bs s)
config_file-Means m lexem bs given room cs lexes few means near values fits =
    let (a, read, is) = config_tokenizer-Lexes m lexem given room cs lexes few in
    let (conf', parsed, means') =
      config_parser-blocks m bs given is means near (blocks-IsValue bs values) fits in
    (conf', rw read parsed, means')

-- What is written in the layout of the default configuration is read back, however `fgets` cuts
-- it into lines: `config_tokenizer` and `config_parser`, one after the other, return, and the
-- settings are those that there were with the values of the blocks that were written. The values
-- are words of letters, digits, dots, underscores and slashes, of 1 to 99 bytes, there are at
-- most 100 tokens and 50 items in each array, the working directory has at most 257 bytes, and
-- `malloc` does not fail.
pub config_file-render :
    (m : Allocator) (lexem : Bytes) {lines ss : List Bytes} {conf : CmonConfig} {cwd : Bytes}
    {s : Settings} (bs : List Block)
    → Reliable m
    → length lexem ≡ 100
    → CStrs lines ss
    → concat ss ≡ render bs
    → length (tokens bs) ≤ 100
    → Means cwd conf s
    → length cwd ≤ 257
    → All (λ b. All IsLexem b.values) bs
    → Fits (with_blocks cwd bs s)
    → (conf' : CmonConfig) × ((config_tokenizer m lexem token_arr_new lines >>= λ a.
          config_parser m a conf)
        ≡ ok conf')
      × Means cwd conf' (with_blocks cwd bs s)
config_file-render m lexem bs given room cs written few means near values fits =
    config_file-Means m lexem bs given room cs (rw written (Lexes-render bs values)) few means near
      values fits
