-- ===== src/Token/Array.antt =====
-- The token array stands for a list of at most 100 tokens.
use cmon.Base.{
  ℕ, ◌+◌, ◌≤◌, ◌<◌, ◌≡◌, refl, ◌∙◌, ◌≢◌, inl, inr, Option, none, some, List, [], ◌∷◌, ◌++◌, length,
  get_elem?, get_elem?-set, get_elem?-append, get_elem?-lt, length-set, length-append, arith, ok,
  ltb, leb, false, Bool-cases, ne→==, set, index-lt,
}
use cmon.Text.{Bytes}
use cmon.Str.Alloc.{Allocator}
use cmon.Str.CStr.{CStr, nul, chr}
use cmon.Token.{
  TokenType, Value, null, chars, Token, TokenArr, token_arr_new, text_of, strdup, new_value,
  store_token, new_token,
}

-- The count and the next position are those of the list, and the first slots hold its tokens.
pub record IsTokens (a : TokenArr) (ts : List Token) : Type 0 where
  pub counted : a.len ≡ length ts
  pub placed : a.next_position ≡ some (length ts)
  pub slots : length a.token_list ≡ 100
  pub kept : (i : ℕ) (t : Token) → get_elem? ts i ≡ some t → get_elem? a.token_list i ≡ some t

-- Every request for memory is met.
abbrev pub Reliable : Allocator → Type 0
Reliable m = (n : ℕ) → (b : Bytes) × (m.alloc n ≡ some b)

pub token_arr_new-IsTokens : IsTokens token_arr_new []
token_arr_new-IsTokens = record { counted = refl; placed = refl; slots = refl; kept = λ i t h. cc }

abbrev pub token : TokenType → Value → Token
token ty v = record { type = ty; value = v }

kept_after :
    {a : TokenArr} {ts : List Token} (t : Token)
    → IsTokens a ts
    → length ts < 100
    → (i : ℕ) (u : Token) → get_elem? (ts ++ t ∷ []) i ≡ some u
    → get_elem? (set a.token_list (length ts) t) i ≡ some u
kept_after {a} {ts} t h room i u e =
    let total = length-append ts (t ∷ []) in
    let below = index-lt (ts ++ t ∷ []) i e in
    let split = get_elem?-append ts (t ∷ []) i in
    rw (get_elem?-set a.token_list (length ts) i t) (elim (Bool-cases (ltb i (length ts))) [
      | inl old ↦ let kept = h.kept i u (ground arith) in ground (arith, h.slots)
      | inr new ↦
          let last : i ≡ length ts = ground arith in
          let value : some t ≡ some u = ground arith in ground (arith, h.slots)
    ])

-- `_cmon_new_token` below the limit of 100 appends a token of the given type to the list, whatever
-- its slot held, with the value that the content gives whatever value the slot had.
pub new_token-append :
    (m : Allocator) {a : TokenArr} {ts : List Token} (ty : TokenType) (content : Option Bytes)
    (v : Value)
    → IsTokens a ts
    → length ts < 100
    → ((old : Value) → new_value m old content ≡ ok v)
    → (b : TokenArr) × (new_token m a ty content ≡ ok b) × IsTokens b (ts ++ token ty v ∷ [])
unfolding new_token store_token
new_token-append m {a} {ts} ty content v h room valued =
    let (slot, held) = get_elem?-lt a.token_list (length ts) (omega (arith, h.slots)) in
    let below_limit : leb 100 a.len ≡ false = ground (arith, h.counted) in
    (
      record {
        token_list = set a.token_list (length ts) (token ty v);
        next_position = some (length ts + 1);
        len = a.len + 1;
      },
      rw (below_limit, h.placed, held, valued slot.value),
      record {
        counted = omega (arith, h.counted, length-append ts (token ty v ∷ []));
        placed = ground (arith, length-append ts (token ty v ∷ []));
        slots = length-set a.token_list (length ts) (token ty v) ∙ h.slots;
        kept = kept_after (token ty v) h room;
      },
    )

-- A full array is left as it is.
pub new_token-full :
    (m : Allocator) {a : TokenArr} {ts : List Token} (ty : TokenType) (content : Option Bytes)
    → IsTokens a ts
    → 100 ≤ length ts
    → new_token m a ty content ≡ ok a
unfolding new_token
new_token-full m {a} ty content h full = ground (arith, h.counted)

pub text_of-CStr : {b s : Bytes} → CStr b s → text_of b ≡ ok s
unfolding text_of
text_of-CStr nul = refl
text_of-CStr (chr {c} ne t) = rw (ne→== c 0 ne, text_of-CStr t)

pub new_value-chars :
    (m : Allocator) {b s : Bytes} (old : Value)
    → CStr b s
    → s ≢ []
    → Reliable m
    → new_value m old (some b) ≡ ok (chars s)
unfolding new_value strdup
new_value-chars m old nul ne given = absurd (ne refl)
new_value-chars m old (chr {c} {s} h t) ne given =
    let (block, e) = given (length (c ∷ s) + 1) in rw (ne→== c 0 h, text_of-CStr t, e)

pub new_value-null : (m : Allocator) (old : Value) → new_value m old none ≡ ok null
unfolding new_value
new_value-null m old = refl
