-- ===== src/Config/Old.antt =====
-- `cmon_parse_config` of src/lib/config/config.c, the first version of the parser, over
-- `cmon_tokenizer`.
pub mod Idle
mod Tests
use cmon.Base.{
  ℕ, zero, suc, ◌+◌, Bool, true, false, ◌&&◌, Option, none, some, List, [], ◌∷◌, ◌==◌,
  if◌then◌else◌, Run, ok, exited, fault, ◌>>=◌,
}
use cmon.Text.{Bytes}
use cmon.Str.Alloc.{Allocator}
use cmon.Token.{TokenType, text, curly_barackets, double_colon, Value, Token, TokenArr}
use cmon.Token.Old.{cmon_tokenizer}
use cmon.Config.{
  ConfigEntry, CmonConfig, Parser, entry_of, get_token, value_text, add_value, required,
}

-- A `TEXT` token: `configTarget != NULL && inBlock == true`.
unfoldable pub old_text : Allocator → Value → Bool → Option ConfigEntry → Parser → Run Parser
unfolding add_value
old_text m v true (some e) p = do conf ← add_value m v e p.conf; ok (record p { conf = conf })
old_text m v _ _ p = ok p

-- A `CURLY_BARACKETS` token, by the first byte of its value.
unfoldable pub old_brace : ℕ → Parser → Run Parser
old_brace c p =
    if c == b'{'
    then (if p.in_block then exited 1 else ok (record p { in_block = true }))
    else if c == b'}'
    then ok (record p { in_block = false })
    else exited 1

first_byte : Bytes → ℕ
first_byte [] = 0
first_byte (c ∷ s) = c

-- A `DOUBLE_COLON` token: its value is the label.
unfoldable pub old_label : Bytes → Parser → Run Parser
unfolding entry_of
old_label l p = elim (entry_of l) [
  | none ↦ exited 1
  | some e ↦ ok (record p { config_target = some e })
]

unfoldable pub old_token : Allocator → Token → Parser → Run Parser
unfolding old_text old_brace old_label first_byte
old_token m t p = elim t.type [
  | text ↦ old_text m t.value p.in_block p.config_target p
  | curly_barackets ↦ do v ← value_text t.value; old_brace (first_byte v) p
  | double_colon ↦ do v ← value_text t.value; old_label v p
  | _ ↦ ok p
]

-- The loop, with the rounds left.
unfoldable pub old_from : Allocator → TokenArr → ℕ → ℕ → Parser → Run Parser
unfolding old_token get_token
old_from m a zero i p = ok p
old_from m a (suc n) i p = do
  found ← get_token a i
  t ← required found
  p' ← old_token m t p
  old_from m a n (i + 1) p'

-- `cmon_parse_config`; `memory` is what `cmon_tokenizer` gets for its array, `lexem` what its
-- lexem holds at first.
unfoldable pub parse_config :
    Option (List Token) → Allocator → Bytes → List Bytes → CmonConfig → Run CmonConfig
unfolding old_from cmon_tokenizer
parse_config memory m lexem lines conf = do
  token_list ← cmon_tokenizer memory m lexem lines
  p ←
      old_from m token_list token_list.len 0
        (record { config_target = none; in_block = false; conf = conf })
  ok p.conf
