-- ===== src/Token/Old.antt =====
-- `cmon_tokenizer` of src/lib/parser/tokenizer.c, the first version of the tokenizer, which
-- `cmon_parse_config` calls. What its array `lexem` holds at first is a parameter.
pub mod Empty
use cmon.Base.{
  ℕ, ◌+◌, Bool, true, not, ◌&&◌, ◌||◌, Option, none, some, List, [], ◌∷◌, ltb, leb, ◌==◌,
  if◌then◌else◌, Run, ok, fault, ◌>>=◌,
}
use cmon.Text.{Bytes, char_is_alphanumeric}
use cmon.Str.{put}
use cmon.Str.Alloc.{Allocator}
use cmon.Token.{TokenType, text, double_colon, curly_barackets, Token, TokenArr, new_token}

-- `lexem`, how far `lexemPtr` is into it, and `tokenList`.
pub record Scanner : Type 0 where
  pub lexem : Bytes
  pub pos : ℕ
  pub tokens : TokenArr

-- What `malloc` gives for the struct: only its length is set.
abbrev pub unset_arr : List Token → TokenArr
unset_arr slots = record { token_list = slots; next_position = none; len = 0 }

-- The two tests that let a byte into the lexem.
unfoldable pub is_lexem_char : ℕ → Bool
unfolding char_is_alphanumeric
is_lexem_char c =
    not (char_is_alphanumeric c == 0)
    || c == b'_'
    || c == b'.'
    || c == b'/'
    || (leb b'0' c && leb c b'9')

-- `_cmon_new_token(tokenList, type, lexem)` and `lexemPtr = lexem`
unfoldable pub token_of : Allocator → TokenType → Scanner → Run Scanner
unfolding new_token
token_of m type s = do
  tokens ← new_token m s.tokens type (some s.lexem)
  ok (record s { pos = 0; tokens = tokens })

-- The lexem, if there is one, with a NUL byte behind it.
unfoldable pub ended_token : Allocator → TokenType → Scanner → Run Scanner
unfolding token_of
ended_token m type s =
    if ltb 0 s.pos
    then (do lexem ← put s.lexem s.pos 0; token_of m type (record s { lexem = lexem }))
    else ok s

-- The lexem in front of a brace: no NUL byte is written behind it.
unfoldable pub open_token : Allocator → TokenType → Scanner → Run Scanner
unfolding token_of
open_token m type s = if ltb 0 s.pos then token_of m type s else ok s

-- One round of the inner loop, at the byte `c` with the rest of the line behind it.
unfoldable pub scan_byte : Allocator → Scanner → ℕ → Bytes → Run Scanner
unfolding is_lexem_char ended_token open_token
scan_byte m s c rest =
    if is_lexem_char c
    then (do lexem ← put s.lexem s.pos c; ok (record s { lexem = lexem; pos = s.pos + 1 }))
    else if c == b'{' || c == b'}'
    then (do
      s' ← open_token m text s
      tokens ← new_token m s'.tokens curly_barackets (some (c ∷ rest))
      ok (record s' { tokens = tokens }))
    else if c == b' '
    then ended_token m text s
    else if c == b','
    then ended_token m text s
    else if c == b':'
    then ended_token m double_colon s
    else ok s

-- `while(*buffPtr != '\0')`
unfoldable pub scan_bytes : Allocator → Scanner → Bytes → Run Scanner
unfolding scan_byte
scan_bytes m s [] = fault
scan_bytes m s (c ∷ cs) =
    let rest = (do s' ← scan_byte m s c cs; scan_bytes m s' cs) in if c == 0 then ok s else rest

-- `while(fgets(buff, buffSize, configFile))`
unfoldable pub scan_file : Allocator → Scanner → List Bytes → Run Scanner
unfolding scan_bytes
scan_file m s [] = ok s
scan_file m s (l ∷ ls) = do s' ← scan_bytes m s l; scan_file m s' ls

-- `cmon_tokenizer`; the first argument is what `malloc` gives, the slots of the array.
unfoldable pub cmon_tokenizer : Option (List Token) → Allocator → Bytes → List Bytes → Run TokenArr
unfolding scan_file
cmon_tokenizer none m lexem lines = fault
cmon_tokenizer (some slots) m lexem lines = do
  s ← scan_file m (record { lexem = lexem; pos = 0; tokens = unset_arr slots }) lines
  ok s.tokens
