-- ===== src/Config/Tests.antt =====
-- Runs of the configuration's parser.
use cmon.Base.{
  ℕ, zero, suc, ◌≡◌, refl, some, none, List, [], ◌∷◌, ◌++◌, replicate, length, get_elem?, arith, ok,
  fault, ◌>>=◌, append-nil, ◌-◌,
}
use cmon.Text.{Bytes}
use cmon.Str.Sample.{ample, c, c-CStr}
use cmon.Str.CStr.{CStr, nul, chr, CStrs, no_nul, no_nul-CStr}
use cmon.Str.Concat.{of_text}
use cmon.Str.Array.{CmonStringArray}
use cmon.Str.Array.Items.{Represents}
use cmon.Token.{
  text, chars, Token, TokenArr, blank_token, token_arr_new, config_tokenizer, is_word_char,
}
use cmon.Token.Array.{IsTokens, Reliable, token}
use cmon.Token.Grammar.{IsLexem}
use cmon.Config.{CmonConfig, ignore_files, config_parser}
use cmon.Config.Blocks.{Block, tokens, Settings, Means, with_blocks, IsValue, Fits}
use cmon.Config.Values.{config_parser-blocks}
use cmon.Config.File.{render, render_values, config_file-render}
use cmon.Config.Crash.{config_parser-fault}

ample-Reliable : Reliable ample
ample-Reliable n = (replicate n 0, refl)

abbrev blocks : List Block
blocks = record { entry = ignore_files; values = c ∷ [] } ∷ []

abbrev no_strings : CmonStringArray
no_strings = record { len = 0; arr = replicate 50 none }

no_strings-Represents : Represents no_strings []
no_strings-Represents = record { counted = refl; slots = refl; held = λ i x h. cc h }

abbrev no_settings : Settings
no_settings = record { watch = []; files = []; dirs = [] }

abbrev root : Bytes
root = b'/' ∷ []

abbrev empty_config : CmonConfig
empty_config = record {
  ignore_files_arr = no_strings;
  ignore_dirs_arr = no_strings;
  watch_ext_names = no_strings;
  cwd = some (of_text root);
  exe = none;
  argv = [];
}

empty_config-Means : Means root empty_config no_settings
empty_config-Means = record {
  cwd_string = of_text root;
  cwd_set = refl;
  cwd_holds = record { sized = refl; text = chr (λ e. cc) nul };
  watch = no_strings-Represents;
  files = no_strings-Represents;
  dirs = no_strings-Represents;
}

abbrev filled : List Token → TokenArr
filled ts = record {
  token_list = ts ++ replicate (100 - length ts) blank_token;
  next_position = some (length ts);
  len = length ts;
}

kept_front :
    (ts us : List Token) (i : ℕ) (t : Token)
    → get_elem? ts i ≡ some t
    → get_elem? (ts ++ us) i ≡ some t
kept_front [] us i t h = cc h
kept_front (u ∷ ts) us zero t h = h
kept_front (u ∷ ts) us (suc i) t h = kept_front ts us i t h

block_array-IsTokens : IsTokens (filled (tokens blocks)) (tokens blocks)
block_array-IsTokens = record {
  counted = refl;
  placed = refl;
  slots = refl;
  kept = kept_front (tokens blocks) (replicate (100 - length (tokens blocks)) blank_token);
}

abbrev cut_off : List Token
cut_off = tokens blocks ++ token text (chars c) ∷ []

cut_off-IsTokens : IsTokens (filled cut_off) cut_off
cut_off-IsTokens = record {
  counted = refl;
  placed = refl;
  slots = refl;
  kept = kept_front cut_off (replicate (100 - length cut_off) blank_token);
}

blocks-Fits : Fits (with_blocks root blocks no_settings)
blocks-Fits = record { watch = omega arith; files = omega arith; dirs = omega arith }

c-IsLexem : IsLexem c
unfolding is_word_char
c-IsLexem = record { word = (refl, tt); not_empty = λ e. cc; short = omega arith }

c-IsValue : IsValue c
c-IsValue = record { text = c-CStr; not_empty = λ e. cc; short = omega arith }

config_parser-blocks_example :
    (conf : CmonConfig) × (config_parser ample (filled (tokens blocks)) empty_config ≡ ok conf)
    × Means root conf (record { watch = []; files = (b'/' ∷ b'c' ∷ []) ∷ []; dirs = [] })
config_parser-blocks_example =
    config_parser-blocks ample blocks ample-Reliable block_array-IsTokens empty_config-Means
      (omega arith) ((c-IsValue, tt), tt) blocks-Fits

config_parser-fault_example : config_parser ample (filled cut_off) empty_config ≡ fault
config_parser-fault_example =
    config_parser-fault ample blocks (chars c) ample-Reliable cut_off-IsTokens empty_config-Means
      (omega arith) ((c-IsValue, tt), tt) blocks-Fits

-- The file, as one line and its NUL byte.
written-CStr : CStr (render blocks ++ 0 ∷ []) (render blocks)
unfolding render render_values no_nul
written-CStr = no_nul-CStr (render blocks) refl

config_file-render_example :
    (conf : CmonConfig) × ((config_tokenizer ample
          (replicate 100 0)
          token_arr_new
          ((render blocks ++ 0 ∷ []) ∷ [])
        >>= λ a. config_parser ample a empty_config)
      ≡ ok conf)
    × Means root conf (record { watch = []; files = (b'/' ∷ b'c' ∷ []) ∷ []; dirs = [] })
config_file-render_example =
    config_file-render ample (replicate 100 0) blocks ample-Reliable refl
      (CStrs.cons written-CStr CStrs.nil) (append-nil (render blocks)) (omega arith)
      empty_config-Means (omega arith) ((c-IsLexem, tt), tt) blocks-Fits
