-- ===== src/Paths/Dot.antt =====
-- What the extension of a path is, and how the end of `cmon_path_new` fills it in.
use cmon.Base.{
  ℕ, zero, suc, ◌+◌, ◌-◌, ◌≤◌, ◌<◌, ◌≡◌, ◌≢◌, ◌⊎◌, refl, ap, ◌∙◌, inl, inr, false, Option, none,
  some, [], ◌∷◌, ◌++◌, length, All, take, drop, get_elem?, index-lt, arith, ok, ◌==◌, lt→ltb, ne→==,
  ==_iff, Bool-cases, some_inj, if◌then◌else◌,
}
use cmon.Text.{Bytes}
use cmon.Paths.{CmonPath, Reallocator, str_len, path_of}

-- What the field `ext` says of a path: the last dot, unless that is the first byte, and what is
-- behind.
abbrev pub Extension : Bytes → ℕ → Option ℕ → Type 0
Extension s n none = (n ≡ 0) × ((q : ℕ) → 0 < q → get_elem? s q ≢ some b'.')
Extension s n (some p) =
    (n + p ≡ length s)
    × (0 < p)
    × (get_elem? s p ≡ some b'.')
    × ((q : ℕ) → p < q → get_elem? s q ≢ some b'.')

abbrev pub last_dot : ℕ → ℕ → Bytes → ℕ
last_dot last i [] = last
last_dot last i (c ∷ cs) = last_dot (if c == b'.' then i else last) (i + 1) cs

abbrev pub Text : Bytes → Type 0
Text s = All (λ c. c ≢ 0) s

str_len-Text :
    (b s : Bytes) → Text s → take (suc (length s)) b ≡ s ++ 0 ∷ [] → str_len b ≡ ok (length s)
str_len-Text [] [] bytes same = absurd (cc)
str_len-Text [] (x ∷ s) bytes same = absurd (cc)
str_len-Text (y ∷ b) [] bytes same = let nul : y ≡ 0 = cc in rw nul refl
str_len-Text (y ∷ b) (x ∷ s) (some_byte, bytes) same =
    let head : y ≡ x = cc in
    let tail : take (suc (length s)) b ≡ s ++ 0 ∷ [] = cc in
    let rest = str_len-Text b s bytes tail in rw head (rw (ne→== x 0 some_byte, rest) refl)

str_len-drop :
    (b s : Bytes) (p : ℕ)
    → p ≤ length s
    → Text s
    → take (suc (length s)) b ≡ s ++ 0 ∷ []
    → str_len (drop p b) ≡ ok (length s - p)
str_len-drop b s zero le bytes same =
    let all : length s - 0 ≡ length s = omega arith in rw all (str_len-Text b s bytes same)
str_len-drop b [] (suc p) le bytes same = absurd (omega arith)
str_len-drop [] (x ∷ s) (suc p) le bytes same = absurd (cc)
str_len-drop (y ∷ b) (x ∷ s) (suc p) le (_, bytes) same =
    let tail : take (suc (length s)) b ≡ s ++ 0 ∷ [] = cc in
    let less : suc (length s) - suc p ≡ length s - p = omega arith in
    rw less (str_len-drop b s p (omega arith) bytes tail)

-- The last dot: where it was, or among the bytes that follow.
last_dot-cases :
    (last i : ℕ) (cs : Bytes)
    → ((last_dot last i cs ≡ last) × ((q : ℕ) → get_elem? cs q ≢ some b'.'))
      ⊎ ((k : ℕ) × (last_dot last i cs ≡ i + k)
          × (get_elem? cs k ≡ some b'.')
          × ((q : ℕ) → k < q → get_elem? cs q ≢ some b'.'))
last_dot-cases last i [] = inl (refl, λ q e. absurd (cc))
last_dot-cases last i (c ∷ cs) = elim (last_dot-cases (if c == b'.' then i else last) (i + 1) cs) [
  | inr (k, e, dot, after) ↦ inr (suc k, e ∙ omega arith, dot, later c cs k after)
  | inl (e, none_after) ↦ elim (Bool-cases (c == b'.')) [
    | inl is_dot ↦
        inr (
          0,
          e ∙ rw is_dot (omega arith),
          ap some ((==_iff c b'.').0 is_dot),
          first c cs none_after,
        )
    | inr other ↦ inl (e ∙ rw other refl, none_at c cs other none_after)
  ]
]
  where
    later :
        (c : ℕ) (cs : Bytes) (k : ℕ)
        → ((q : ℕ) → k < q → get_elem? cs q ≢ some b'.')
        → (q : ℕ) → suc k < q
        → get_elem? (c ∷ cs) q ≢ some b'.'
    later c cs k after zero lt = absurd (omega arith)
    later c cs k after (suc q) lt = after q (omega arith)

    first :
        (c : ℕ) (cs : Bytes)
        → ((q : ℕ) → get_elem? cs q ≢ some b'.')
        → (q : ℕ) → 0 < q
        → get_elem? (c ∷ cs) q ≢ some b'.'
    first c cs none_after zero lt = absurd (omega arith)
    first c cs none_after (suc q) lt = none_after q

    none_at :
        (c : ℕ) (cs : Bytes)
        → (c == b'.') ≡ false
        → ((q : ℕ) → get_elem? cs q ≢ some b'.')
        → (q : ℕ) → get_elem? (c ∷ cs) q ≢ some b'.'
    none_at c cs other none_after zero e = let same = some_inj e in ground (arith, same)
    none_at c cs other none_after (suc q) e = none_after q e

-- The end of `cmon_path_new`, from either answer about the dots.
path_of-dot :
    (mem : Reallocator) (s : Bytes) (n last size : ℕ) (buffer : Bytes)
    → n ≡ length s
    → Text s
    → take (suc (length s)) buffer ≡ s ++ 0 ∷ []
    → 0 < last
    → get_elem? s last ≡ some b'.'
    → ((q : ℕ) → last < q → get_elem? s q ≢ some b'.')
    → (path : CmonPath) × (path_of mem (some (buffer, n, last), size) ≡ ok (some path, size))
      × (path.path ≡ buffer)
      × (path.path_len ≡ length s)
      × Extension s path.ext_len path.ext
unfolding path_of
path_of-dot mem s n last size buffer counted bytes whole behind dot after =
    let inside = index-lt s last dot in
    let behind' = lt→ltb 0 last behind in
    let found = str_len-drop buffer s last (omega (arith, inside)) bytes whole in
    (
      record { path_len = n; path = buffer; ext_len = length s - last; ext = some last },
      rw (behind', found) refl,
      refl,
      counted,
      (omega (arith, inside), behind, dot, after),
    )

path_of-no_dot :
    (mem : Reallocator) (s : Bytes) (n size : ℕ) (buffer : Bytes)
    → n ≡ length s
    → ((q : ℕ) → 0 < q → get_elem? s q ≢ some b'.')
    → (path : CmonPath) × (path_of mem (some (buffer, n, 0), size) ≡ ok (some path, size))
      × (path.path ≡ buffer)
      × (path.path_len ≡ length s)
      × Extension s path.ext_len path.ext
unfolding path_of
path_of-no_dot mem s n size buffer counted after = (
  record { path_len = n; path = buffer; ext_len = 0; ext = none },
  refl,
  refl,
  counted,
  (refl, after),
)

pub path_of-Extension :
    (mem : Reallocator) (s : Bytes) (n size : ℕ) (buffer : Bytes)
    → n ≡ length s
    → Text s
    → take (suc (length s)) buffer ≡ s ++ 0 ∷ []
    → (path : CmonPath) × (path_of mem (some (buffer, n, last_dot 0 0 s), size)
        ≡ ok (some path, size))
      × (path.path ≡ buffer)
      × (path.path_len ≡ length s)
      × Extension s path.ext_len path.ext
path_of-Extension mem s n size buffer counted bytes whole = elim (last_dot-cases 0 0 s) [
  | inl (e, nowhere) ↦ rw e (path_of-no_dot mem s n size buffer counted λ q lt. nowhere q)
  | inr (zero, e, dot, after) ↦ rw e (path_of-no_dot mem s n size buffer counted after)
  | inr (suc k, e, dot, after) ↦
      let at : last_dot 0 0 s ≡ suc k = e ∙ omega arith in
      rw at (path_of-dot mem s n (suc k) size buffer counted bytes whole (omega arith) dot after)
]
