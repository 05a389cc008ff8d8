-- ===== src/Token/Old/Empty.antt =====
-- `cmon_tokenizer` stores no token: nothing has set the position of the first one.
use cmon.Base.{
  subst, sym, length, set, ap, if◌then◌else◌, ℕ, ◌+◌, ◌≡◌, ◌≢◌, refl, inl, inr, ◌⊎◌, Bool, true,
  false, Option, none, some, List, [], ◌∷◌, ◌++◌, ltb, ◌==◌, ◌||◌, Bool-cases, arith, Run, ok,
  fault, ◌>>=◌, ne→==,
}
use cmon.Text.{Bytes}
use cmon.Str.{put}
use cmon.Str.Alloc.{Allocator}
use cmon.Str.CStr.{CStr, nul, chr, CStrs, concat}
use cmon.Token.{TokenType, text, double_colon, curly_barackets, Token, TokenArr, new_token}
use cmon.Token.Old.{
  Scanner, unset_arr, is_lexem_char, token_of, ended_token, open_token, scan_byte, scan_bytes,
  scan_file, cmon_tokenizer,
}

-- Is there a brace in the text?
unfoldable pub has_brace : Bytes → Bool
has_brace [] = false
has_brace (c ∷ s) = c == b'{' || c == b'}' || has_brace s

has_brace-append : (s t : Bytes) → has_brace (s ++ t) ≡ (has_brace s || has_brace t)
unfolding has_brace
has_brace-append [] t = refl
has_brace-append (c ∷ s) t = ground (arith, has_brace-append s t)

lexem_char-ne-brace : (c : ℕ) → is_lexem_char c ≡ true → (c == b'{' || c == b'}') ≡ false
unfolding is_lexem_char
lexem_char-ne-brace c h = ground arith

-- A token is a fault, whatever it is.
new_token-unset :
    (m : Allocator) (slots : List Token) (a : TokenArr) (ty : TokenType) (content : Option Bytes)
    → a ≡ unset_arr slots
    → new_token m a ty content ≡ fault
unfolding new_token
new_token-unset m slots a ty content e = rw (e, new_token)

-- The run is a fault, or it returns a scanner with no token, from a text with no brace.
abbrev Tokenless : List Token → Bool → Run Scanner → Type 0
Tokenless slots brace r =
    (r ≡ fault) ⊎ ((s : Scanner) × (r ≡ ok s) × (s.tokens ≡ unset_arr slots) × (brace ≡ false))

module _ (m : Allocator) (slots : List Token) where
  token_of-fault :
      (ty : TokenType) (s : Scanner) → s.tokens ≡ unset_arr slots → token_of m ty s ≡ fault
  unfolding token_of
  token_of-fault ty s e = rw (new_token-unset m slots s.tokens ty (some s.lexem) e)

  put-Tokenless :
      (s : Scanner) (pos c pos' : ℕ)
      → s.tokens ≡ unset_arr slots
      → Tokenless slots false
          (put s.lexem pos c >>= λ lexem. ok (record s { lexem = lexem; pos = pos' }))
  put-Tokenless s pos c pos' e = elim (Bool-cases (ltb pos (length s.lexem))) [
    | inl inside ↦ inr (record s { lexem = set s.lexem pos c; pos = pos' }, rw inside, e, refl)
    | inr outside ↦ inl (rw outside)
  ]

  ended_token-Tokenless :
      (ty : TokenType) (s : Scanner)
      → s.tokens ≡ unset_arr slots
      → Tokenless slots false (ended_token m ty s)
  unfolding ended_token
  ended_token-Tokenless ty s e = elim (Bool-cases (ltb 0 s.pos)) [
    | inl begun ↦ elim (Bool-cases (ltb s.pos (length s.lexem))) [
      | inl inside ↦
          inl (rw (begun, inside) (token_of-fault ty (record s { lexem = set s.lexem s.pos 0 }) e))
      | inr outside ↦ inl (rw (begun, outside))
    ]
    | inr empty ↦ inr (s, rw empty, e, refl)
  ]

  if-Tokenless :
      {brace : Bool} {x y : Run Scanner} (test : Bool)
      → Tokenless slots brace x
      → Tokenless slots brace y
      → Tokenless slots brace (if test then x else y)
  if-Tokenless true p q = p
  if-Tokenless false p q = q

  -- One piece of the file behind another.
  then-Tokenless :
      {brace brace' : Bool} (r : Run Scanner) (f : Scanner → Run Scanner)
      → Tokenless slots brace r
      → ((s : Scanner) → s.tokens ≡ unset_arr slots → Tokenless slots brace' (f s))
      → Tokenless slots (brace || brace') (r >>= f)
  then-Tokenless r f (inl e) next = inl (rw e)
  then-Tokenless r f (inr (s, e, no_token, no_brace)) next = rw (e, no_brace) (next s no_token)

  -- A brace is a fault, with a lexem in front of it and without.
  brace-fault :
      (s : Scanner) (c : ℕ) (rest : Bytes)
      → s.tokens ≡ unset_arr slots
      → (open_token m text s >>= λ s'.
          new_token m s'.tokens curly_barackets (some (c ∷ rest)) >>= λ tokens.
          ok (record s' { tokens = tokens }))
        ≡ fault
  unfolding open_token
  brace-fault s c rest e = elim (Bool-cases (ltb 0 s.pos)) [
    | inl begun ↦ rw (begun, token_of-fault text s e)
    | inr empty ↦ rw (empty, new_token-unset m slots s.tokens curly_barackets (some (c ∷ rest)) e)
  ]

  scan_byte-Tokenless :
      (s : Scanner) (c : ℕ) (rest : Bytes)
      → s.tokens ≡ unset_arr slots
      → Tokenless slots (c == b'{' || c == b'}') (scan_byte m s c rest)
  unfolding scan_byte
  scan_byte-Tokenless s c rest e = elim (Bool-cases (is_lexem_char c)) [
    | inl word ↦ rw (word, lexem_char-ne-brace c word) (put-Tokenless s s.pos c (s.pos + 1) e)
    | inr other ↦ elim (Bool-cases (c == b'{' || c == b'}')) [
      | inl brace ↦ rw (other, brace) (inl (brace-fault s c rest e))
      | inr plain ↦
          let blank = ended_token-Tokenless text s e in
          let colon = ended_token-Tokenless double_colon s e in
          rw (other, plain)
            (if-Tokenless (c == b' ') blank (
              if-Tokenless (c == b',') blank
                (if-Tokenless (c == b':') colon (inr (s, refl, e, refl)))))
    ]
  ]

  scan_bytes-cons :
      (s : Scanner) (c : ℕ) (b : Bytes)
      → c ≢ 0
      → scan_bytes m s (c ∷ b) ≡ (scan_byte m s c b >>= λ s'. scan_bytes m s' b)
  unfolding scan_bytes
  scan_bytes-cons s c b ne =
      ap (λ nul. if nul then ok s else scan_byte m s c b >>= λ s'. scan_bytes m s' b) (ne→== c 0 ne)

  -- A line, from a byte on.
  scan_bytes-Tokenless :
      {b w : Bytes} (s : Scanner)
      → CStr b w
      → s.tokens ≡ unset_arr slots
      → Tokenless slots (has_brace w) (scan_bytes m s b)
  unfolding scan_bytes has_brace
  scan_bytes-Tokenless s nul e = inr (s, refl, e, refl)
  scan_bytes-Tokenless s (chr {c} {b} {s = w} ne t) e =
      subst (Tokenless slots (has_brace (c ∷ w))) (sym (scan_bytes-cons s c b ne)) (
        then-Tokenless (scan_byte m s c b) (λ s'. scan_bytes m s' b) (scan_byte-Tokenless s c b e)
          (λ s' e'. scan_bytes-Tokenless s' t e'))

  scan_file-Tokenless :
      {lines ss : List Bytes} (s : Scanner)
      → CStrs lines ss
      → s.tokens ≡ unset_arr slots
      → Tokenless slots (has_brace (concat ss)) (scan_file m s lines)
  unfolding scan_file has_brace
  scan_file-Tokenless s CStrs.nil e = inr (s, refl, e, refl)
  scan_file-Tokenless s (CStrs.cons {b} {s = w} {bs} {ss} t ts) e =
      rw (has_brace-append w (concat ss)) (
        then-Tokenless (scan_bytes m s b) (λ s'. scan_file m s' bs) (scan_bytes-Tokenless s t e)
          (λ s' e'. scan_file-Tokenless s' ts e'))

-- `cmon_tokenizer` is a fault for every file with a brace in it; for any other file it is a fault
-- or returns an array of no tokens.
pub cmon_tokenizer-Tokenless :
    (memory : Option (List Token)) (m : Allocator) (lexem : Bytes) {lines ss : List Bytes}
    → CStrs lines ss
    → (cmon_tokenizer memory m lexem lines ≡ fault)
      ⊎ ((a : TokenArr) × (cmon_tokenizer memory m lexem lines ≡ ok a)
          × (a.len ≡ 0)
          × (has_brace (concat ss) ≡ false))
unfolding cmon_tokenizer
cmon_tokenizer-Tokenless none m lexem cs = inl refl
cmon_tokenizer-Tokenless (some slots) m lexem cs =
    let start : Scanner = record { lexem = lexem; pos = 0; tokens = unset_arr slots } in
    elim (scan_file-Tokenless m slots start cs refl) [
      | inl e ↦ inl (rw e)
      | inr (s, e, no_token, no_brace) ↦
          inr (s.tokens, rw e, ap (λ (a : TokenArr). a.len) no_token, no_brace)
    ]
