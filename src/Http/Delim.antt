-- ===== src/Http/Delim.antt =====
-- The end of a header in a buffer at whose front the bytes that were read stand.
use cmon.Base.{
  ℕ, ◌+◌, ◌-◌, ◌≤◌, ◌<◌, ◌≡◌, refl, sym, ◌∙◌, some, ◌++◌, length, get_elem?, length-append, arith,
  ok, lt→ltb, le→leb,
}
use cmon.Text.{Bytes, size_mod, find_pattern}
use cmon.Text.Search.{Occurs, find_pattern-at, Occurs-middle}
use cmon.Mem.Copy.{overwrite, get_elem?-overwrite, length-overwrite}
use cmon.Http.{header_delim}

-- What was read stands at the front of the buffer.
pub front :
    (buff bytes : Bytes) (j : ℕ)
    → length bytes ≤ length buff
    → j < length bytes
    → get_elem? (overwrite buff 0 bytes) j ≡ get_elem? bytes j
front buff bytes j fits lt =
    let back : j - 0 ≡ j = omega arith in
    get_elem?-overwrite buff 0 bytes j (omega arith)
    ∙ rw (le→leb 0 j (omega arith), lt→ltb j (0 + length bytes) (omega arith), back) refl

module _ (buff head rest : Bytes) (fits : length (head ++ (header_delim ++ rest)) ≤ length buff)
    (small : length buff < size_mod)
    (first : (r : ℕ)
      → r < length head
      → ¬ Occurs header_delim 4 (head ++ (header_delim ++ rest)) r) where
  pub delim_found :
      (n : ℕ)
      → n ≡ length (head ++ (header_delim ++ rest))
      → find_pattern
          (some header_delim)
          4
          (some (overwrite buff 0 (head ++ (header_delim ++ rest))))
          n
        ≡ ok (some (length head))
  delim_found n e =
      let bytes = head ++ (header_delim ++ rest) in
      let size = length-append head (header_delim ++ rest) in
      find_pattern-at header_delim (overwrite buff 0 bytes) 4 n (length head) (omega arith)
        (omega arith) (omega (arith, e, length-overwrite buff 0 bytes)) (omega (arith, e))
        (omega (arith, e, size))
        (λ i lt.
          front buff bytes (length head + i) fits (omega (arith, size))
          ∙ Occurs-middle head header_delim rest i lt)
        (λ r lt occ.
          first r lt (λ i li. sym (front buff bytes (r + i) fits (omega (arith, size))) ∙ occ i li))
