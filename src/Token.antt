-- ===== src/Token.antt =====
-- The tokens of a configuration file: src/lib/parser/tokenizer.c. A line is the object that `fgets`
-- filled, its NUL byte included; a file is the list of the lines that `fgets` returns. `strdup`
-- copies the text up to the NUL into a block of `malloc`, or gives NULL. Messages are left out.
pub mod Array
pub mod Word
pub mod Grammar
pub mod Scan
pub mod Lines
pub mod Old
mod Tests
use cmon.Base.{
  ℕ, zero, suc, ◌+◌, Bool, true, false, not, ◌||◌, Option, none, some, List, [], ◌∷◌, ltb, leb,
  ◌==◌, if◌then◌else◌, length, get_elem?, set, replicate, Run, ok, fault, ◌>>=◌, ◌>>◌, fetch,
  of_option,
}
use cmon.Text.{Bytes, char_is_alphanumeric, str_is_number}
use cmon.Str.{put}
use cmon.Str.Alloc.{Allocator}

pub data TokenType : Type 0 where
  text string double_colon curly_barackets o_curly_baracket c_curly_baracket : TokenType
  parenthesis colon number : TokenType

-- What the `value` of a token points to: nothing has set it, NULL, or a text.
pub data Value : Type 0 where
  unset null : Value
  chars : Bytes → Value

pub record Token : Type 0 where
  pub type : TokenType
  pub value : Value

-- `next_position` is the index that the pointer stands for, `none` where nothing has set it.
pub record TokenArr : Type 0 where
  pub token_list : List Token
  pub next_position : Option ℕ
  pub len : ℕ

abbrev pub max_tokens : ℕ
max_tokens = 100

abbrev pub max_lexem_len : ℕ
max_lexem_len = 100

-- A slot of the array before a token is stored there; its type is as little set as its value.
abbrev pub blank_token : Token
blank_token = record { type = text; value = unset }

-- `token_arr_new`, where `malloc` succeeds.
abbrev pub token_arr_new : TokenArr
token_arr_new = record {
  token_list = replicate max_tokens blank_token;
  next_position = some 0;
  len = 0;
}

-- The text in front of the NUL byte.
unfoldable pub text_of : Bytes → Run Bytes
text_of [] = fault
text_of (c ∷ cs) = let rest = (do s ← text_of cs; ok (c ∷ s)) in if c == 0 then ok [] else rest

unfoldable pub strdup : Allocator → Bytes → Run Value
unfolding text_of
strdup m b = do
  s ← text_of b
  elim (m.alloc (length s + 1)) [ none ↦ ok null | some block ↦ ok (chars s) ]

-- What is stored in the `value` of a slot that holds `old`: an empty text leaves it alone.
unfoldable pub new_value : Allocator → Value → Option Bytes → Run Value
unfolding strdup
new_value m old none = ok null
new_value m old (some b) = do
  c ← fetch b 0
  let copied = strdup m b
  if c == 0 then ok old else copied

unfoldable pub store_token : Allocator → TokenArr → ℕ → TokenType → Option Bytes → Run TokenArr
unfolding new_value
store_token m a i type content = do
  slot ← fetch a.token_list i
  value ← new_value m slot.value content
  ok (record {
    token_list = set a.token_list i (record { type = type; value = value });
    next_position = some (i + 1);
    len = a.len + 1;
  })

-- `_cmon_new_token`: a full array is left as it is.
unfoldable pub new_token : Allocator → TokenArr → TokenType → Option Bytes → Run TokenArr
unfolding store_token
new_token m a type content =
    if leb max_tokens a.len
    then ok a
    else do i ← of_option a.next_position; store_token m a i type content

unfoldable pub is_valid_special_char : ℕ → Bool
is_valid_special_char c = c == b'.' || c == b'_' || c == b'/'

-- The state of `config_tokenizer`: the array `lexem`, how far `lexemPtr` is into it, whether it is
-- inside quotation marks, and the tokens so far.
pub record Lexer : Type 0 where
  pub lexem : Bytes
  pub pos : ℕ
  pub in_quotation_mark : Bool
  pub tokens : TokenArr

unfoldable pub is_word_char : ℕ → Bool
unfolding char_is_alphanumeric is_valid_special_char
is_word_char c = not (char_is_alphanumeric c == 0) || is_valid_special_char c

-- `*lexemPtr = '\0'`, a token for the lexem, `lexemPtr = lexem`. The type is by what the lexem is.
unfoldable pub end_lexem : Allocator → Lexer → (Bytes → Run TokenType) → Run Lexer
unfolding new_token
end_lexem m lx kind = do
  ended ← put lx.lexem lx.pos 0
  type ← kind ended
  tokens ← new_token m lx.tokens type (some ended)
  ok (record lx { lexem = ended; pos = 0; tokens = tokens })

abbrev pub text_or_number : Bytes → Run TokenType
text_or_number lexem = do numeric ← str_is_number lexem; ok (if numeric then number else text)

-- The lexem in front of a blank or a colon, if there is one.
unfoldable pub flush : Allocator → Lexer → Run Lexer
unfolding end_lexem
flush m lx = if ltb 0 lx.pos then end_lexem m lx text_or_number else ok lx

unfoldable pub push_token : Allocator → Lexer → TokenType → Run Lexer
unfolding new_token
push_token m lx type = do
  tokens ← new_token m lx.tokens type none
  ok (record lx { tokens = tokens })

-- A quotation mark; the flag is `inQuatationMark`.
unfoldable pub quote_mark : Allocator → Lexer → Bool → Run Lexer
unfolding end_lexem
quote_mark m lx true = do
  lx' ← end_lexem m lx (λ _. ok string)
  ok (record lx' { in_quotation_mark = false })
quote_mark m lx false = ok (record lx { in_quotation_mark = true })

-- One round of the inner loop of `config_tokenizer`.
unfoldable pub step : Allocator → Lexer → ℕ → Run Lexer
unfolding is_word_char push_token quote_mark flush
step m lx c =
    if is_word_char c
    then (do lexem ← put lx.lexem lx.pos c; ok (record lx { lexem = lexem; pos = lx.pos + 1 }))
    else if c == b'{'
    then push_token m lx o_curly_baracket
    else if c == b'}'
    then push_token m lx c_curly_baracket
    else if c == b'"' || c == b'\''
    then quote_mark m lx lx.in_quotation_mark
    else if c == b' '
    then flush m lx
    else if c == b':'
    then (do lx' ← flush m lx; push_token m lx' double_colon)
    else ok lx

-- `while (*buffPtr != '\0')`
unfoldable pub scan_line : Allocator → Lexer → Bytes → Run Lexer
unfolding step
scan_line m lx [] = fault
scan_line m lx (c ∷ cs) =
    let rest = (do lx' ← step m lx c; scan_line m lx' cs) in if c == 0 then ok lx else rest

-- `while (fgets(buff, buffSize, configFile))`
unfoldable pub scan_lines : Allocator → Lexer → List Bytes → Run Lexer
unfolding scan_line
scan_lines m lx [] = ok lx
scan_lines m lx (l ∷ ls) = do lx' ← scan_line m lx l; scan_lines m lx' ls

-- `config_tokenizer`; `lexem` is what its static array holds.
unfoldable pub config_tokenizer : Allocator → Bytes → TokenArr → List Bytes → Run TokenArr
unfolding scan_lines
config_tokenizer m lexem tok_arr lines = do
  lx ←
      scan_lines m (record { lexem = lexem; pos = 0; in_quotation_mark = false; tokens = tok_arr })
        lines
  ok lx.tokens
