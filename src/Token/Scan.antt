-- ===== src/Token/Scan.antt =====
-- The tokenizer reads every text of the grammar as its tokens.
use cmon.Base.{
  ℕ, ◌+◌, ◌≤◌, ◌<◌, ◌≡◌, refl, ◌∙◌, ◌≢◌, Bool, true, false, none, List, [], ◌∷◌, ◌++◌, length,
  length-append, arith, ok, ltb, append-nil, append_assoc, ◌>>=◌,
}
use cmon.Text.{Bytes}
use cmon.Str.Alloc.{Allocator}
use cmon.Str.CStr.{CStrs, concat}
use cmon.Token.Array.{
  IsTokens, Reliable, token, token_arr_new-IsTokens, new_token-append, new_value-null,
}
use cmon.Token.Lines.{steps, fresh_lexer, config_tokenizer-steps}
use cmon.Token.Word.{
  Between, Gathered, steps-Gathered, IsWord-CStr, alpha_free, str_is_number-alpha_free,
  end_lexem-Between,
}
use cmon.Token.Grammar.{
  is_quote, is_filler, IsLexem, Lexes, done, filler, opening, closing, quoted, label,
}
use cmon.Token.{
  TokenType, text, string, o_curly_baracket, c_curly_baracket, double_colon, null, chars, Token,
  TokenArr, Lexer, end_lexem, flush, push_token, quote_mark, step, config_tokenizer, token_arr_new,
  text_or_number,
}

module _ (m : Allocator) (given : Reliable m) where
  step-filler :
      {ts : List Token} (lx : Lexer) (c : ℕ)
      → Between false ts lx
      → is_filler c ≡ true
      → step m lx c ≡ ok lx
  unfolding step flush
  step-filler lx c b f = ground (arith, b.empty)

  -- A token with no text.
  push_token-Between :
      {ts : List Token} (lx : Lexer) (ty : TokenType)
      → Between false ts lx
      → length ts < 100
      → (lx' : Lexer) × (push_token m lx ty ≡ ok lx') × Between false (ts ++ token ty null ∷ []) lx'
  unfolding push_token
  push_token-Between lx ty b few =
      let (a, made, is) = new_token-append m ty none null b.tokens few (new_value-null m) in
      (
        record lx { tokens = a },
        rw made,
        record { empty = b.empty; quoting = b.quoting; room = b.room; tokens = is },
      )

  step-opening : (lx : Lexer) → step m lx b'{' ≡ push_token m lx o_curly_baracket
  unfolding step
  step-opening lx = refl

  step-closing : (lx : Lexer) → step m lx b'}' ≡ push_token m lx c_curly_baracket
  unfolding step
  step-closing lx = refl

  step-colon : (lx : Lexer) → step m lx b':' ≡ (flush m lx >>= λ lx'. push_token m lx' double_colon)
  unfolding step
  step-colon lx = refl

  step-quote :
      (lx : Lexer) (c : ℕ) → is_quote c ≡ true → step m lx c ≡ quote_mark m lx lx.in_quotation_mark
  unfolding step
  step-quote lx c q = ground arith

  quote_opens :
      (lx : Lexer) (q : Bool)
      → q ≡ false
      → quote_mark m lx q ≡ ok (record lx { in_quotation_mark = true })
  unfolding quote_mark
  quote_opens lx q e = rw e

  quote_closes :
      (lx lx' : Lexer) (q : Bool)
      → q ≡ true
      → end_lexem m lx (λ _. ok string) ≡ ok lx'
      → quote_mark m lx q ≡ ok (record lx' { in_quotation_mark = false })
  unfolding quote_mark
  quote_closes lx lx' q e made = rw (e, made)

  -- The opening quotation mark, the word and the closing one.
  steps-quoted :
      {ts : List Token} (lx : Lexer) (c d : ℕ) (w rest : Bytes)
      → Between false ts lx
      → is_quote c ≡ true
      → is_quote d ≡ true
      → IsLexem w
      → length ts < 100
      → (lx' : Lexer) × (steps m lx (c ∷ (w ++ d ∷ rest)) ≡ steps m lx' rest)
        × Between false (ts ++ token string (chars w) ∷ []) lx'
  unfolding steps
  steps-quoted {ts} lx c d w rest b qc qd l few =
      let inside : Lexer = record lx { in_quotation_mark = true } in
      let b' : Between true ts inside = record {
        empty = b.empty;
        quoting = refl;
        room = b.room;
        tokens = b.tokens;
      } in
      let (ready, e, g) = steps-Gathered m w (d ∷ rest) inside b' l.word (omega (arith, l.short)) in
      let (ended, made, is) =
        end_lexem-Between m ready (λ _. ok string) string g l.word l.not_empty l.short few given
          (λ _. refl) in
      (
        record ended { in_quotation_mark = false },
        rw (step-quote lx c qc, quote_opens lx lx.in_quotation_mark b.quoting)
            (e
              ∙ rw (
                step-quote ready d qd,
                quote_closes ready ended ready.in_quotation_mark g.quoting made,
              )),
        record { empty = is.empty; quoting = refl; room = is.room; tokens = is.tokens },
      )

  positive : {w : Bytes} {n : ℕ} → w ≢ [] → n ≡ length w → ltb 0 n ≡ true
  positive {w = []} ne e = absurd (ne refl)
  positive {w = c ∷ w} ne e = ground arith

  flush-Between :
      {ts : List Token} {w : Bytes} (lx : Lexer)
      → Gathered false ts w lx
      → IsLexem w
      → alpha_free w ≡ false
      → length ts < 100
      → (lx' : Lexer) × (flush m lx ≡ ok lx') × Between false (ts ++ token text (chars w) ∷ []) lx'
  unfolding flush
  flush-Between {w} lx g l letters few =
      let some_bytes : ltb 0 lx.pos ≡ true = positive l.not_empty g.reached in
      let (ended, made, is) =
        end_lexem-Between m lx text_or_number text g l.word l.not_empty l.short few given
          (λ rest. rw (str_is_number-alpha_free (IsWord-CStr w rest l.word), letters)) in
      (ended, rw some_bytes made, is)

  -- A word and the colon behind it.
  steps-label :
      {ts : List Token} (lx : Lexer) (w rest : Bytes)
      → Between false ts lx
      → IsLexem w
      → alpha_free w ≡ false
      → length ts + 1 < 100
      → (lx' : Lexer) × (steps m lx (w ++ b':' ∷ rest) ≡ steps m lx' rest)
        × Between false ((ts ++ token text (chars w) ∷ []) ++ token double_colon null ∷ []) lx'
  unfolding steps
  steps-label {ts} lx w rest b l letters few =
      let (ready, e, g) = steps-Gathered m w (b':' ∷ rest) lx b l.word (omega (arith, l.short)) in
      let (ended, made, is) = flush-Between ready g l letters (omega arith) in
      let (lx', pushed, is') =
        push_token-Between ended double_colon is
          (omega (arith, length-append ts (token text (chars w) ∷ []))) in
      (lx', e ∙ rw (step-colon ready, made, pushed), is')

  steps-Lexes :
      {s : Bytes} {us : List Token} (ts : List Token) (lx : Lexer)
      → Lexes s us
      → Between false ts lx
      → length ts + length us ≤ 100
      → (lx' : Lexer) × (steps m lx s ≡ ok lx') × Between false (ts ++ us) lx'
  unfolding steps
  steps-Lexes ts lx done b few = (lx, refl, rw append-nil b)
  steps-Lexes ts lx (filler {c} f t) b few =
      let (lx', e, after) = steps-Lexes ts lx t b few in (lx', rw (step-filler lx c b f) e, after)
  steps-Lexes ts lx (opening {ts = us} t) b few =
      let (mid, e, at_mid) = push_token-Between lx o_curly_baracket b (omega arith) in
      let v = token o_curly_baracket null in
      let (lx', e', after) =
        steps-Lexes (ts ++ v ∷ []) mid t at_mid (omega (arith, length-append ts (v ∷ []))) in
      (lx', rw (step-opening lx, e) e', rw (append_assoc ts (v ∷ []) us) at after)
  steps-Lexes ts lx (closing {ts = us} t) b few =
      let (mid, e, at_mid) = push_token-Between lx c_curly_baracket b (omega arith) in
      let v = token c_curly_baracket null in
      let (lx', e', after) =
        steps-Lexes (ts ++ v ∷ []) mid t at_mid (omega (arith, length-append ts (v ∷ []))) in
      (lx', rw (step-closing lx, e) e', rw (append_assoc ts (v ∷ []) us) at after)
  steps-Lexes ts lx (quoted {c} d w {s} {ts = us} qc qd l t) b few =
      let (mid, e, at_mid) = steps-quoted lx c d w s b qc qd l (omega arith) in
      let v = token string (chars w) in
      let (lx', e', after) =
        steps-Lexes (ts ++ v ∷ []) mid t at_mid (omega (arith, length-append ts (v ∷ []))) in
      (lx', e ∙ e', rw (append_assoc ts (v ∷ []) us) at after)
  steps-Lexes ts lx (label w {s} {ts = us} l letters t) b few =
      let (mid, e, at_mid) = steps-label lx w s b l letters (omega arith) in
      let v = token text (chars w) in
      let u = token double_colon null in
      let longer = length-append ts (v ∷ []) in
      let (lx', e', after) =
        steps-Lexes ((ts ++ v ∷ []) ++ u ∷ []) mid t at_mid
          (omega (arith, longer, length-append (ts ++ v ∷ []) (u ∷ []))) in
      let regroup : ((ts ++ v ∷ []) ++ u ∷ []) ++ us ≡ ts ++ v ∷ u ∷ us =
        append_assoc (ts ++ v ∷ []) (u ∷ []) us ∙ append_assoc ts (v ∷ []) (u ∷ us) in
      (lx', e ∙ e', rw regroup at after)

-- `config_tokenizer` on a fresh array reads a file whose text is of the grammar as the tokens of
-- that text, up to the 100 that the array holds, where `malloc` does not fail; `lexem` has its
-- 100 bytes.
pub config_tokenizer-Lexes :
    (m : Allocator) (lexem : Bytes) {lines ss : List Bytes} {ts : List Token}
    → Reliable m
    → length lexem ≡ 100
    → CStrs lines ss
    → Lexes (concat ss) ts
    → length ts ≤ 100
    → (a : TokenArr) × (config_tokenizer m lexem token_arr_new lines ≡ ok a) × IsTokens a ts
config_tokenizer-Lexes m lexem {ss} given room cs l few =
    let start : Between false [] (fresh_lexer lexem token_arr_new) = record {
      empty = refl;
      quoting = refl;
      room = room;
      tokens = token_arr_new-IsTokens;
    } in
    let (lx, e, b) =
      steps-Lexes m given [] (fresh_lexer lexem token_arr_new) l start (omega arith) in
    (lx.tokens, rw (config_tokenizer-steps m lexem token_arr_new cs, e), b.tokens)
