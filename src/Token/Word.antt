-- ===== src/Token/Word.antt =====
-- The lexem: how the tokenizer gathers the bytes of a word and makes a token of them.
use cmon.Base.{
  ℕ, ◌+◌, ◌≤◌, ◌<◌, ◌≡◌, refl, ap, ◌∙◌, ◌≢◌, inl, inr, Bool, true, false, some, List, [], ◌∷◌, ◌++◌,
  length, All, drop, length-append, length-drop, arith, Run, ok, ◌==◌, if◌then◌else◌, Bool-cases,
  append-nil, append_assoc, ne→==, ◌>>=◌,
}
use cmon.Text.{Bytes, char_is_alpha, str_is_number}
use cmon.Str.{put}
use cmon.Str.Alloc.{Allocator}
use cmon.Str.CStr.{CStr, nul, chr, put_mid}
use cmon.Token.Array.{IsTokens, Reliable, token, new_token-append, new_value-chars}
use cmon.Token.Lines.{steps}
use cmon.Token.{TokenType, chars, Token, Lexer, is_word_char, end_lexem, step}

abbrev pub IsWord : Bytes → Type 0
IsWord = All (λ c. is_word_char c ≡ true)

step-word :
    (m : Allocator) (lx : Lexer) (c : ℕ)
    → is_word_char c ≡ true
    → step m lx c
      ≡ (put lx.lexem lx.pos c >>= λ lexem. ok (record lx { lexem = lexem; pos = lx.pos + 1 }))
unfolding step
step-word m lx c h = rw h

-- The bytes of a word go into the lexem, behind what it holds.
pub steps-word :
    (m : Allocator) (w front tl rest : Bytes) (lx : Lexer)
    → IsWord w
    → length w ≤ length tl
    → lx.lexem ≡ front ++ tl
    → lx.pos ≡ length front
    → steps m lx (w ++ rest)
      ≡ steps m
          (record lx { lexem = (front ++ w) ++ drop (length w) tl; pos = length (front ++ w) })
          rest
unfolding steps
steps-word m [] front tl rest lx word fits el ep = rw (append-nil, ← el, ← ep)
steps-word m (c ∷ w) front [] rest lx word fits el ep = absurd (omega arith)
steps-word m (c ∷ w) front (x ∷ tl) rest lx word fits el ep =
    let at_end : length front + 1 ≡ length (front ++ c ∷ []) =
      omega (arith, length-append front (c ∷ [])) in
    rw (step-word m lx c word.0, el, ep, put_mid front x c tl, at_end)
      (steps-word m w (front ++ c ∷ []) tl rest _ word.1 (omega arith) refl refl
        ∙ rw (append_assoc front (c ∷ []) w))

-- Between two lexems, after the tokens `ts`; `q` says whether inside quotation marks.
pub record Between (q : Bool) (ts : List Token) (lx : Lexer) : Type 0 where
  pub empty : lx.pos ≡ 0
  pub quoting : lx.in_quotation_mark ≡ q
  pub room : length lx.lexem ≡ 100
  pub tokens : IsTokens lx.tokens ts

-- The same with the bytes of `w` in the lexem.
pub record Gathered (q : Bool) (ts : List Token) (w : Bytes) (lx : Lexer) : Type 0 where
  pub tail : Bytes
  pub content : lx.lexem ≡ w ++ tail
  pub reached : lx.pos ≡ length w
  pub quoting : lx.in_quotation_mark ≡ q
  pub room : length lx.lexem ≡ 100
  pub tokens : IsTokens lx.tokens ts

pub steps-Gathered :
    (m : Allocator) {q : Bool} {ts : List Token} (w rest : Bytes) (lx : Lexer)
    → Between q ts lx
    → IsWord w
    → length w ≤ 100
    → (lx' : Lexer) × (steps m lx (w ++ rest) ≡ steps m lx' rest) × Gathered q ts w lx'
steps-Gathered m w rest lx b word short = (
  record lx { lexem = w ++ drop (length w) lx.lexem; pos = length w },
  steps-word m w [] lx.lexem rest lx word (omega (arith, b.room)) refl b.empty,
  record {
    tail = drop (length w) lx.lexem;
    content = refl;
    reached = refl;
    quoting = b.quoting;
    room = omega (
      arith,
      length-append w (drop (length w) lx.lexem),
      length-drop (length w) lx.lexem,
      b.room,
    );
    tokens = b.tokens;
  },
)

word_ne_nul : (c : ℕ) → is_word_char c ≡ true → c ≢ 0
unfolding is_word_char
word_ne_nul c h = ground arith

pub IsWord-CStr : (w rest : Bytes) → IsWord w → CStr (w ++ 0 ∷ rest) w
IsWord-CStr [] rest word = nul
IsWord-CStr (c ∷ w) rest word = chr (word_ne_nul c word.0) (IsWord-CStr w rest word.1)

-- Is there no alphabetic byte in the text?
unfoldable pub alpha_free : Bytes → Bool
alpha_free [] = true
alpha_free (c ∷ cs) = if char_is_alpha c == 0 then alpha_free cs else false

-- `_str_is_number` answers whether the text has no alphabetic byte.
pub str_is_number-alpha_free : {b s : Bytes} → CStr b s → str_is_number b ≡ ok (alpha_free s)
unfolding str_is_number alpha_free
str_is_number-alpha_free nul = refl
str_is_number-alpha_free (chr {c} ne t) =
    rw (ne→== c 0 ne, str_is_number-alpha_free t)
      (elim (Bool-cases (char_is_alpha c == 0)) [ inl other ↦ rw other | inr letter ↦ rw letter ])

cons_of : (l : Bytes) → 0 < length l → (x : ℕ) × (tl : Bytes) × (l ≡ x ∷ tl)
cons_of [] h = absurd (omega arith)
cons_of (x ∷ tl) h = (x, tl, refl)

-- A NUL behind the word, and a token of it.
pub end_lexem-Between :
    (m : Allocator) {q : Bool} {ts : List Token} {w : Bytes} (lx : Lexer)
    (kind : Bytes → Run TokenType) (ty : TokenType)
    → Gathered q ts w lx
    → IsWord w
    → w ≢ []
    → length w < 100
    → length ts < 100
    → Reliable m
    → ((rest : Bytes) → kind (w ++ 0 ∷ rest) ≡ ok ty)
    → (lx' : Lexer) × (end_lexem m lx kind ≡ ok lx') × Between q (ts ++ token ty (chars w) ∷ []) lx'
unfolding end_lexem
end_lexem-Between m {ts} {w} lx kind ty g word ne short few given typed =
    let (x, tl, split) =
      cons_of g.tail (omega (arith, ap length g.content, length-append w g.tail, g.room)) in
    let ended : lx.lexem ≡ w ++ x ∷ tl = g.content ∙ ap (λ t. w ++ t) split in
    let (a, made, is) =
      new_token-append m ty (some (w ++ 0 ∷ tl)) (chars w) g.tokens few
        (λ old. new_value-chars m old (IsWord-CStr w tl word) ne given) in
    let nul_put : put lx.lexem lx.pos 0 ≡ ok (w ++ 0 ∷ tl) =
      rw (ended, g.reached) (put_mid w x 0 tl ∙ rw (append_assoc w (0 ∷ []) tl)) in
    (
      record lx { lexem = w ++ 0 ∷ tl; pos = 0; tokens = a },
      rw (nul_put, typed tl, made),
      record {
        empty = refl;
        quoting = g.quoting;
        room =
            omega
              (arith, length-append w (0 ∷ tl), length-append w (x ∷ tl), ap length ended, g.room);
        tokens = is;
      },
    )
