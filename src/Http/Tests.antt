-- ===== src/Http/Tests.antt =====
-- Runs of the functions on headers.
use cmon.Base.{
  ℕ, zero, suc, ◌<◌, ◌≡◌, refl, some, [], ◌∷◌, ◌++◌, replicate, length, arith, ok, some_inj,
}
use cmon.Base.Int.{pos}
use cmon.Text.{Bytes}
use cmon.Text.Search.{Occurs}
use cmon.Http.{crlf, parse_str_to_int, get_content_length, get_header_field, content_length_name}
use cmon.Http.Length.{with_length, get_content_length-decimal}
use cmon.Http.Field.{with_field, get_header_field-value}

-- `Host`
abbrev host : Bytes
host = b'H' ∷ b'o' ∷ b's' ∷ b't' ∷ []

-- `ab`
abbrev ab : Bytes
ab = b'a' ∷ b'b' ∷ []

-- `x` and `Host:ab`, with their ends.
abbrev header : Bytes
header = with_field (b'x' ∷ []) host ab crlf

value_ends : (r : ℕ) → r < 2 → ¬ Occurs crlf 2 (ab ++ (crlf ++ crlf)) r
value_ends zero lt occ = omega (arith, some_inj (occ 0 (omega arith)))
value_ends (suc zero) lt occ = omega (arith, some_inj (occ 0 (omega arith)))
value_ends (suc (suc r)) lt occ = absurd (omega arith)

key_first : (r : ℕ) → r < 1 → ¬ Occurs (host ++ b':' ∷ []) 5 header r
key_first zero lt occ = omega (arith, some_inj (occ 0 (omega arith)))
key_first (suc r) lt occ = absurd (omega arith)

get_header_field-value_example :
    get_header_field (some header) (length header) (some host) 4 (some (replicate 3 b'z')) 3
    ≡ ok (pos 2, some (b'a' ∷ b'b' ∷ b'z' ∷ []))
get_header_field-value_example =
    get_header_field-value (b'x' ∷ []) host ab crlf (omega arith) value_ends (replicate 3 b'z') 3
      (omega arith) (omega arith) (omega arith) (omega arith) (omega arith) key_first

number : parse_str_to_int (b'4' ∷ b' ' ∷ b'2' ∷ []) 3 ≡ ok (pos 42)
unfolding parse_str_to_int
number = refl

no_earlier : (t : Bytes) (r : ℕ) → r < 0 → ¬ Occurs content_length_name 15 t r
no_earlier t r lt = absurd (omega arith)

get_content_length-decimal_example :
    get_content_length (with_length [] (b' ' ∷ []) (b'4' ∷ b'2' ∷ []) (13 ∷ 10 ∷ [])) 20
    ≡ ok (pos 42)
get_content_length-decimal_example =
    get_content_length-decimal [] (b' ' ∷ []) (b'4' ∷ b'2' ∷ []) (13 ∷ 10 ∷ []) (omega arith)
      (no_earlier (with_length [] (b' ' ∷ []) (b'4' ∷ b'2' ∷ []) (13 ∷ 10 ∷ []))) refl (refl, tt)
      (omega arith) (refl, (refl, tt)) (omega arith) (omega arith)
