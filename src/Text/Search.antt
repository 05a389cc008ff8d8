-- ===== src/Text/Search.antt =====
-- `c_u_str_find_pattern` on a text at least as long as the pattern.
use cmon.Base.{
  ℕ, zero, suc, ◌+◌, ◌-◌, ◌≤◌, ◌<◌, ◌≡◌, refl, sym, ap, ◌∙◌, inl, inr, Bool, true, false, Option,
  none, some, length, get_elem?, get_elem?-lt, get_elem?-append, ◌++◌, ltb, arith, ◌==◌, ==_iff,
  Bool-cases, ok,
}
use cmon.Text.{Bytes, size_mod, sub_size, match_at, search_from, find_pattern}

-- The first `n` bytes of `p` stand in `t` from position `s` on.
abbrev pub Occurs : Bytes → ℕ → Bytes → ℕ → Type 0
Occurs p n t s = (i : ℕ) → i < n → get_elem? t (s + i) ≡ get_elem? p i

-- What the search says: the first position where the pattern occurs, or that there is none.
abbrev pub FirstFrom : Bytes → ℕ → Bytes → ℕ → ℕ → Option ℕ → Type 0
FirstFrom p n t t_len lo none = (s : ℕ) → lo ≤ s → s + n ≤ t_len → ¬ Occurs p n t s
FirstFrom p n t t_len lo (some s) =
    (s + n ≤ t_len) × Occurs p n t s × ((r : ℕ) → lo ≤ r → r < s → ¬ Occurs p n t r)

-- The inner loop decides an occurrence, given that the first `i` bytes agree.
abbrev Decides : Bytes → ℕ → Bytes → ℕ → Bool → Type 0
Decides p n t s true = Occurs p n t s
Decides p n t s false = ¬ Occurs p n t s

Occurs-suc :
    (p t : Bytes) (s i : ℕ)
    → Occurs p i t s
    → get_elem? t (s + i) ≡ get_elem? p i
    → Occurs p (i + 1) t s
Occurs-suc p t s i before e j h = elim (Bool-cases (j == i)) [
  | inl same ↦ let q = (==_iff j i).0 same in rw q e
  | inr differ ↦ before j (ground arith)
]

module _ (p : Bytes) (n : ℕ) (t : Bytes) (in_p : n ≤ length p) where
  match_at-Decides :
      (s k i : ℕ)
      → s + n ≤ length t
      → k + i ≡ n
      → 0 < k
      → Occurs p i t s
      → (b : Bool) × (match_at p n t s k i ≡ ok b) × Decides p n t s b
  unfolding match_at
  match_at-Decides s zero i in_t e pos before = absurd (omega arith)
  match_at-Decides s (suc k) i in_t e pos before =
      let (a, ea) = get_elem?-lt t (s + i) (omega arith) in
      let (b, eb) = get_elem?-lt p i (omega arith) in
      elim (Bool-cases (a == b)) [
        | inl same ↦
            let agree : get_elem? t (s + i) ≡ get_elem? p i =
              ea ∙ ap some ((==_iff a b).0 same) ∙ sym eb in
            elim (Bool-cases (i == n - 1)) [
              | inl last ↦
                  let end : i + 1 ≡ n = ground arith in
                  (true, rw (ea, eb, same, last), rw (← end) (Occurs-suc p t s i before agree))
              | inr more ↦
                  let (c, ec, d) =
                    match_at-Decides s k (i + 1) in_t (omega arith) (ground arith)
                      (Occurs-suc p t s i before agree) in
                  (c, rw (ea, eb, same, more) ec, d)
            ]
        | inr differ ↦ (false, rw (ea, eb, differ), λ occ. ground (arith, occ i (omega arith)))
      ]

  -- One round of the outer loop, given its inner loop's answer and the rounds that follow.
  round-FirstFrom :
      (t_len k s : ℕ) (b : Bool)
      → s + n ≤ t_len
      → match_at p n t s n 0 ≡ ok b
      → Decides p n t s b
      → (r : Option ℕ) × (search_from p n t k (s + 1) ≡ ok r) × FirstFrom p n t t_len (s + 1) r
      → (r : Option ℕ) × (search_from p n t (suc k) s ≡ ok r) × FirstFrom p n t t_len s r
  unfolding search_from
  round-FirstFrom t_len k s true fits e d rest =
      (some s, rw e, (fits, d, λ r lo hi. absurd (omega arith)))
  round-FirstFrom t_len k s false fits e d (none, er, absent) = (
    none,
    rw e er,
    λ r lo h. elim (Bool-cases (r == s)) [
      | inl same ↦ rw ((==_iff r s).0 same) d
      | inr differ ↦ absent r (ground arith) h
    ],
  )
  round-FirstFrom t_len k s false fits e d (some v, er, (h, occ, first)) = (
    some v,
    rw e er,
    (
      h,
      occ,
      λ r lo hi. elim (Bool-cases (r == s)) [
        | inl same ↦ rw ((==_iff r s).0 same) d
        | inr differ ↦ first r (ground arith) hi
      ],
    ),
  )

  search_from-FirstFrom :
      (t_len k s : ℕ)
      → 0 < n
      → t_len ≤ length t
      → s + k + n ≡ t_len + 1
      → (r : Option ℕ) × (search_from p n t k s ≡ ok r) × FirstFrom p n t t_len s r
  unfolding search_from
  search_from-FirstFrom t_len zero s pos fits e = (none, refl, λ r h g. absurd (omega arith))
  search_from-FirstFrom t_len (suc k) s pos fits e =
      let (b, eb, d) =
        match_at-Decides s n 0 (omega arith) (omega arith) pos (λ j h. absurd (omega arith)) in
      round-FirstFrom t_len k s b (omega arith) eb d
        (search_from-FirstFrom t_len k (s + 1) pos fits (omega arith))

-- The search has no fault and answers with the first occurrence of the pattern in the first
-- `t_len` bytes of the text, or with -1 where there is none: for a pattern of at least one byte,
-- a text no shorter than the pattern and of less than 2 ^ 64 bytes, and objects that hold the bytes
-- that the lengths promise.
pub find_pattern-FirstFrom :
    (p t : Bytes) (p_len t_len : ℕ)
    → 0 < p_len
    → p_len ≤ length p
    → p_len ≤ t_len
    → t_len ≤ length t
    → t_len < size_mod
    → (r : Option ℕ) × (find_pattern (some p) p_len (some t) t_len ≡ ok r)
      × FirstFrom p p_len t t_len 0 r
unfolding find_pattern
find_pattern-FirstFrom p t p_len t_len pos in_p le in_t small =
    search_from-FirstFrom p p_len t in_p t_len (sub_size t_len p_len + 1) 0 pos in_t (omega arith)

-- Where the first occurrence is known, the search finds it.
pub find_pattern-at :
    (p t : Bytes) (p_len t_len s : ℕ)
    → 0 < p_len
    → p_len ≤ length p
    → t_len ≤ length t
    → t_len < size_mod
    → s + p_len ≤ t_len
    → Occurs p p_len t s
    → ((r : ℕ) → r < s → ¬ Occurs p p_len t r)
    → find_pattern (some p) p_len (some t) t_len ≡ ok (some s)
find_pattern-at p t p_len t_len s pos in_p in_t small fits occ first =
    let (r, e, found) = find_pattern-FirstFrom p t p_len t_len pos in_p (omega arith) in_t small in
    e ∙ ap ok (is_first r found)
  where
    is_first : (r : Option ℕ) → FirstFrom p p_len t t_len 0 r → r ≡ some s
    is_first none absent = absurd (absent s (omega arith) fits occ)
    is_first (some q) (inside, there, before) = elim (Bool-cases (q == s)) [
      | inl same ↦ ap some ((==_iff q s).0 same)
      | inr differ ↦ absurd (elim (Bool-cases (ltb q s)) [
        | inl less ↦ first q (ground arith) there
        | inr more ↦ before s (omega arith) (ground arith) occ
      ])
    ]

-- Where it occurs nowhere, the search answers -1.
pub find_pattern-absent :
    (p t : Bytes) (p_len t_len : ℕ)
    → 0 < p_len
    → p_len ≤ length p
    → p_len ≤ t_len
    → t_len ≤ length t
    → t_len < size_mod
    → ((r : ℕ) → r + p_len ≤ t_len → ¬ Occurs p p_len t r)
    → find_pattern (some p) p_len (some t) t_len ≡ ok none
find_pattern-absent p t p_len t_len pos in_p le in_t small nowhere =
    let (r, e, found) = find_pattern-FirstFrom p t p_len t_len pos in_p le in_t small in
    e ∙ ap ok (is_none r found)
  where
    is_none : (r : Option ℕ) → FirstFrom p p_len t t_len 0 r → r ≡ none
    is_none none absent = refl
    is_none (some q) (inside, there, before) = absurd (nowhere q inside there)

pub Occurs-middle : (pre p rest : Bytes) → Occurs p (length p) (pre ++ (p ++ rest)) (length pre)
Occurs-middle pre p rest i lt = ground (
  arith,
  get_elem?-append pre (p ++ rest) (length pre + i),
  get_elem?-append p rest (length pre + i - length pre),
  back,
)
  where
    back : length pre + i - length pre ≡ i
    back = omega arith
