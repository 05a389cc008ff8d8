-- ===== src/Token/Lines.antt =====
-- How `fgets` cuts the file into lines does not matter to `config_tokenizer`.
use cmon.Base.{
  ◌≡◌, refl, ◌∙◌, List, [], ◌∷◌, ◌++◌, Run, ok, ◌>>=◌, >>=-cong, >>=-assoc, sym, false, ne→==,
}
use cmon.Text.{Bytes}
use cmon.Str.Alloc.{Allocator}
use cmon.Str.CStr.{CStr, nul, chr, CStrs, nil, cons, concat}
use cmon.Token.{Lexer, TokenArr, step, scan_line, scan_lines, config_tokenizer}

-- The rounds of the inner loop over a text, with no NUL and no lines.
unfoldable pub steps : Allocator → Lexer → Bytes → Run Lexer
steps m lx [] = ok lx
steps m lx (c ∷ cs) = do lx' ← step m lx c; steps m lx' cs

abbrev pub fresh_lexer : Bytes → TokenArr → Lexer
fresh_lexer lexem a = record { lexem = lexem; pos = 0; in_quotation_mark = false; tokens = a }

pub steps-append :
    (m : Allocator) (lx : Lexer) (s t : Bytes)
    → steps m lx (s ++ t) ≡ (steps m lx s >>= λ lx'. steps m lx' t)
unfolding steps
steps-append m lx [] t = refl
steps-append m lx (c ∷ s) t =
    >>=-cong (step m lx c) (λ lx'. steps-append m lx' s t)
    ∙ sym (>>=-assoc (step m lx c) (λ lx'. steps m lx' s) (λ lx'. steps m lx' t))

scan_line-steps :
    (m : Allocator) {b s : Bytes} (lx : Lexer) → CStr b s → scan_line m lx b ≡ steps m lx s
unfolding scan_line steps
scan_line-steps m lx nul = refl
scan_line-steps m lx (chr {c} ne t) =
    rw (ne→== c 0 ne) (>>=-cong (step m lx c) (λ lx'. scan_line-steps m lx' t))

scan_lines-steps :
    (m : Allocator) {bs ss : List Bytes} (lx : Lexer)
    → CStrs bs ss
    → scan_lines m lx bs ≡ steps m lx (concat ss)
unfolding scan_lines steps
scan_lines-steps m lx nil = refl
scan_lines-steps m lx (cons {s} {ss} t ts) = rw (scan_line-steps m lx t) (
    >>=-cong (steps m lx s) (λ lx'. scan_lines-steps m lx' ts)
    ∙ sym (steps-append m lx s (concat ss)))

-- The tokens of a file are those of its text, however `fgets` cuts the text into lines.
pub config_tokenizer-concat :
    (m : Allocator) (lexem : Bytes) (a : TokenArr) {bs cs ss ts : List Bytes}
    → CStrs bs ss
    → CStrs cs ts
    → concat ss ≡ concat ts
    → config_tokenizer m lexem a bs ≡ config_tokenizer m lexem a cs
unfolding config_tokenizer
config_tokenizer-concat m lexem a hs ht same =
    let lx = fresh_lexer lexem a in rw (scan_lines-steps m lx hs, scan_lines-steps m lx ht, same)

pub config_tokenizer-steps :
    (m : Allocator) (lexem : Bytes) (a : TokenArr) {bs ss : List Bytes}
    → CStrs bs ss
    → config_tokenizer m lexem a bs
      ≡ (steps m (fresh_lexer lexem a) (concat ss) >>= λ lx. ok lx.tokens)
unfolding config_tokenizer
config_tokenizer-steps m lexem a hs = rw (scan_lines-steps m (fresh_lexer lexem a) hs)
