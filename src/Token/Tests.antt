-- ===== src/Token/Tests.antt =====
-- Runs of the tokenizer.
use cmon.Base.{◌≡◌, refl, List, [], ◌∷◌, ◌++◌, replicate, arith, ok}
use cmon.Text.{Bytes, char_is_alpha}
use cmon.Str.Sample.{ample, ab, ab_nul, c, c_nul, ab-CStr, c-CStr}
use cmon.Str.CStr.{CStr, nul, chr, CStrs}
use cmon.Token.{
  text, string, double_colon, o_curly_baracket, c_curly_baracket, null, chars, Token, TokenArr,
  token_arr_new, config_tokenizer, is_word_char,
}
use cmon.Token.Array.{IsTokens, Reliable, token}
use cmon.Token.Lines.{config_tokenizer-concat}
use cmon.Token.Word.{alpha_free}
use cmon.Token.Grammar.{IsLexem, Lexes, done, opening, closing, quoted, label}
use cmon.Token.Scan.{config_tokenizer-Lexes}

ample-Reliable : Reliable ample
ample-Reliable n = (replicate n 0, refl)

abbrev lexem : Bytes
lexem = replicate 100 0

-- `ab:{"c"}`
abbrev file : Bytes
file = b'a' ∷ b'b' ∷ b':' ∷ b'{' ∷ b'"' ∷ b'c' ∷ b'"' ∷ b'}' ∷ []

abbrev file_tokens : List Token
file_tokens =
    token text (chars ab)
    ∷ token double_colon null
    ∷ token o_curly_baracket null
    ∷ token string (chars c)
    ∷ token c_curly_baracket null
    ∷ []

file-CStr : CStr (file ++ 0 ∷ []) file
file-CStr =
    chr (λ e. cc)
      (chr (λ e. cc)
        (chr (λ e. cc)
          (chr (λ e. cc) (chr (λ e. cc) (chr (λ e. cc) (chr (λ e. cc) (chr (λ e. cc) nul)))))))

file-CStrs : CStrs ((file ++ 0 ∷ []) ∷ []) (file ∷ [])
file-CStrs = CStrs.cons file-CStr CStrs.nil

ab-IsLexem : IsLexem ab
unfolding is_word_char
ab-IsLexem = record { word = (refl, (refl, tt)); not_empty = λ e. cc; short = omega arith }

c-IsLexem : IsLexem c
unfolding is_word_char
c-IsLexem = record { word = (refl, tt); not_empty = λ e. cc; short = omega arith }

file-Lexes : Lexes file file_tokens
unfolding alpha_free char_is_alpha
file-Lexes = label ab ab-IsLexem refl (opening (quoted b'"' c refl refl c-IsLexem (closing done)))

config_tokenizer-Lexes_example :
    (a : TokenArr) × (config_tokenizer ample lexem token_arr_new ((file ++ 0 ∷ []) ∷ []) ≡ ok a)
    × IsTokens a file_tokens
config_tokenizer-Lexes_example =
    config_tokenizer-Lexes ample lexem ample-Reliable refl file-CStrs file-Lexes (omega arith)

config_tokenizer-concat_example :
    config_tokenizer ample lexem token_arr_new (ab_nul ∷ c_nul ∷ [])
    ≡ config_tokenizer ample lexem token_arr_new ((b'a' ∷ b'b' ∷ b'c' ∷ 0 ∷ []) ∷ [])
config_tokenizer-concat_example =
    config_tokenizer-concat ample lexem token_arr_new
      (CStrs.cons ab-CStr (CStrs.cons c-CStr CStrs.nil))
      (CStrs.cons (chr (λ e. cc) (chr (λ e. cc) c-CStr)) CStrs.nil) refl
