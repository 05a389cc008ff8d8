-- ===== src/Text/Decimal.antt =====
-- What `printf` and its like write for "%d".
use cmon.Base.{ℕ, zero, suc, ◌+◌, ◌/◌, ◌%◌, [], ◌∷◌, ◌++◌, ltb, if◌then◌else◌}
use cmon.Base.Int.{ℤ, pos, negsuc}
use cmon.Text.{Bytes}

-- The digits, with rounds enough for each.
abbrev pub digits_from : ℕ → ℕ → Bytes
digits_from zero n = []
digits_from (suc f) n =
    let rest = digits_from f (n / 10) ++ (48 + n % 10) ∷ [] in
    if ltb n 10 then (48 + n) ∷ [] else rest

unfoldable pub decimal_text : ℤ → Bytes
decimal_text (pos n) = digits_from (suc n) n
decimal_text (negsuc n) = b'-' ∷ digits_from (suc (suc n)) (suc n)
