-- ===== src/Config/Parse.antt =====
-- `config_parser` as a walk along a list of tokens, each with the one behind it.
use cmon.Base.{
  ℕ, ◌+◌, ◌≡◌, refl, sym, ap, ◌∙◌, Option, none, some, List, [], ◌∷◌, length, drop, get_elem?,
  get_elem?-drop, get_elem?-lt, get_elem?-ge, drop-drop, arith, Run, ok, ◌>>=◌, >>=-cong, leb, true,
  false, Bool-cases, inl, inr,
}
use cmon.Str.Alloc.{Allocator}
use cmon.Token.{TokenType, text, string, o_curly_baracket, c_curly_baracket, Value, Token, TokenArr}
use cmon.Token.Array.{IsTokens}
use cmon.Config.{
  Parser, CmonConfig, get_token, parse_label, parse_string, parse_token, parse_from, config_parser,
}

unfoldable pub parse_one : Allocator → Option Token → TokenType → Value → Parser → Run Parser
parse_one m next text v p = parse_label v next p
parse_one m next o_curly_baracket v p = ok (record p { in_block = true })
parse_one m next c_curly_baracket v p = ok (record p { in_block = false; config_target = none })
parse_one m next string v p = parse_string m v p.in_block p.config_target p
parse_one m next _ v p = ok p

unfoldable pub parse_list : Allocator → List Token → Parser → Run Parser
unfolding parse_one
parse_list m [] p = ok p
parse_list m (t ∷ ts) p = do p' ← parse_one m (get_elem? ts 0) t.type t.value p; parse_list m ts p'

add_zero : (i : ℕ) → i ≡ i + 0
add_zero i = omega arith

module _ {a : TokenArr} {ts : List Token} (is : IsTokens a ts) where
  get_token-get_elem? : (i : ℕ) → get_token a i ≡ ok (get_elem? ts i)
  unfolding get_token
  get_token-get_elem? i = elim (Bool-cases (leb a.len i)) [
    | inl out ↦ rw (out, get_elem?-ge ts i (ground (arith, is.counted)))
    | inr inside ↦
        let (t, et) = get_elem?-lt ts i (ground (arith, is.counted)) in
        rw (inside, is.kept i t et, et)
  ]

  parse_token-one :
      (m : Allocator) (i : ℕ) (ty : TokenType) (v : Value) (p : Parser)
      → parse_token m a i ty v p ≡ parse_one m (get_elem? ts (i + 1)) ty v p
  unfolding parse_token parse_one
  parse_token-one m i text v p = rw (get_token-get_elem? (i + 1))
  parse_token-one m i _ v p = refl

  parse_from-list :
      (m : Allocator) (us : List Token) (i : ℕ) (p : Parser)
      → drop i ts ≡ us
      → parse_from m a (length us) i p ≡ parse_list m us p
  unfolding parse_from parse_list
  parse_from-list m [] i p e = refl
  parse_from-list m (t ∷ us) i p e =
      let next : drop (i + 1) ts ≡ us = sym (drop-drop 1 i ts) ∙ ap (drop 1) e in
      let here : get_elem? ts i ≡ some t =
        ap (get_elem? ts) (add_zero i) ∙ sym (get_elem?-drop i ts 0) ∙ ap (λ l. get_elem? l 0) e in
      let behind : get_elem? ts (i + 1) ≡ get_elem? us 0 =
        ap (get_elem? ts) (add_zero (i + 1))
        ∙ sym (get_elem?-drop (i + 1) ts 0)
        ∙ ap (λ l. get_elem? l 0) next in
      rw (get_token-get_elem? i, here, parse_token-one m i t.type t.value p, behind)
        (>>=-cong (parse_one m (get_elem? us 0) t.type t.value p)
          (λ p'. parse_from-list m us (i + 1) p' next))

  -- `config_parser`, which asks the array for the token at its index and the next one, is the walk
  -- along the list of the tokens that the array holds, which looks at the head of the rest.
  pub config_parser-list :
      (m : Allocator) (conf : CmonConfig)
      → config_parser m a conf ≡ (
          parse_list m ts (record { config_target = none; in_block = false; conf = conf }) >>= λ p.
          ok p.conf)
  unfolding config_parser
  config_parser-list m conf =
      let start : Parser = record { config_target = none; in_block = false; conf = conf } in
      ap (λ n. parse_from m a n 0 start >>= λ p. ok p.conf) is.counted
      ∙ ap (λ r. r >>= λ p. ok p.conf) (parse_from-list m ts 0 start refl)
