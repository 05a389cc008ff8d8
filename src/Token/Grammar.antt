-- ===== src/Token/Grammar.antt =====
-- The texts that the tokenizer is meant to read, with their tokens: labels behind a colon, braces,
-- quoted words, and any other bytes between them.
use cmon.Base.{
  ℕ, ◌<◌, ◌≡◌, ◌≢◌, Bool, true, false, not, ◌&&◌, ◌||◌, List, [], ◌∷◌, ◌++◌, length, ◌==◌,
}
use cmon.Text.{Bytes}
use cmon.Token.Array.{token}
use cmon.Token.Word.{IsWord, alpha_free}
use cmon.Token.{
  text, string, double_colon, o_curly_baracket, c_curly_baracket, null, chars, Token, is_word_char,
}

abbrev pub is_quote : ℕ → Bool
is_quote c = c == b'"' || c == b'\''

-- A byte that neither belongs to a word nor makes a token.
abbrev pub is_filler : ℕ → Bool
is_filler c =
    not (is_word_char c)
    && not (c == b'{')
    && not (c == b'}')
    && not (is_quote c)
    && not (c == b':')

-- A word that fits the lexem with its NUL byte.
pub record IsLexem (w : Bytes) : Type 0 where
  pub word : IsWord w
  pub not_empty : w ≢ []
  pub short : length w < 100

pub data Lexes : Bytes → List Token → Type 0 where
  done : Lexes [] []
  filler :
      {c : ℕ} {s : Bytes} {ts : List Token} → is_filler c ≡ true → Lexes s ts → Lexes (c ∷ s) ts
  opening :
      {s : Bytes} {ts : List Token}
      → Lexes s ts
      → Lexes (b'{' ∷ s) (token o_curly_baracket null ∷ ts)
  closing :
      {s : Bytes} {ts : List Token}
      → Lexes s ts
      → Lexes (b'}' ∷ s) (token c_curly_baracket null ∷ ts)
  quoted :
      {c : ℕ} (d : ℕ) (w : Bytes) {s : Bytes} {ts : List Token}
      → is_quote c ≡ true
      → is_quote d ≡ true
      → IsLexem w
      → Lexes s ts
      → Lexes (c ∷ (w ++ d ∷ s)) (token string (chars w) ∷ ts)
  label :
      (w : Bytes) {s : Bytes} {ts : List Token}
      → IsLexem w
      → alpha_free w ≡ false
      → Lexes s ts
      → Lexes (w ++ b':' ∷ s) (token text (chars w) ∷ token double_colon null ∷ ts)
