-- ===== src/Text/Overrun.antt =====
-- `c_u_str_find_pattern` where the pattern is longer than the text: `t_len - p_len` wraps round.
use cmon.Base.{
  ℕ, zero, suc, ◌+◌, ◌-◌, ◌≤◌, ◌<◌, ◌≡◌, ◌⊎◌, inl, inr, false, some, length, get_elem?-lt,
  get_elem?-ge, arith, ◌==◌, Bool-cases, ok, fault,
}
use cmon.Text.{Bytes, size_mod, sub_size, match_at, search_from, find_pattern}

module _ (p t : Bytes) (n : ℕ) (in_p : n ≤ length p) (longer : length t < n) where
  -- At a shift inside the text the inner loop finds a byte that differs, or reads past the text.
  match_at-not_hit :
      (s k i : ℕ)
      → k + i ≡ n
      → s + i ≤ length t
      → (match_at p n t s k i ≡ fault) ⊎ ((match_at p n t s k i ≡ ok false) × (s < length t))
  unfolding match_at
  match_at-not_hit s zero i e inside = absurd (omega arith)
  match_at-not_hit s (suc k) i e inside = elim (Bool-cases (s + i == length t)) [
    | inl end ↦ inl (rw (get_elem?-ge t (s + i) (ground arith)))
    | inr more ↦
        let (a, ea) = get_elem?-lt t (s + i) (ground arith) in
        let (b, eb) = get_elem?-lt p i (omega arith) in
        elim (Bool-cases (a == b)) [
          | inl same ↦ elim (Bool-cases (i == n - 1)) [
            | inl last ↦ absurd (ground arith)
            | inr go ↦
                rw (ea, eb, same, go) (match_at-not_hit s k (i + 1) (omega arith) (ground arith))
          ]
          | inr differ ↦ inr (rw (ea, eb, differ), ground arith)
        ]
  ]

  search_from-fault : (k s : ℕ) → s ≤ length t → length t < s + k → search_from p n t k s ≡ fault
  unfolding search_from
  search_from-fault zero s h fuel = absurd (omega arith)
  search_from-fault (suc k) s h fuel = elim (match_at-not_hit s n 0 (omega arith) (omega arith)) [
    | inl f ↦ rw f
    | inr (miss, inside) ↦ rw miss (search_from-fault k (s + 1) (omega arith) (omega arith))
  ]

-- With a pattern longer than the text, whose object ends with it, the search always reads past the
-- text: it never answers -1, as its comment says it does where there is no match. The two lengths
-- together are less than 2 ^ 64, and the pattern's object holds its length.
pub find_pattern-fault :
    (p t : Bytes) (p_len : ℕ)
    → p_len ≤ length p
    → length t < p_len
    → p_len < size_mod - length t
    → find_pattern (some p) p_len (some t) (length t) ≡ fault
unfolding find_pattern
find_pattern-fault p t p_len in_p longer small =
    search_from-fault p t p_len in_p longer (sub_size (length t) p_len + 1) 0 (omega arith)
      (omega arith)
