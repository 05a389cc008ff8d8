-- ===== src/Paths/Sample.antt =====
-- Data for the tests: a `malloc` and a `realloc` that never fail, and give zeroed bytes.
use cmon.Base.{
  ℕ, ◌≤◌, ◌≡◌, refl, sym, ap, ◌∙◌, some, ◌++◌, length, take, get_elem?-take, get_elem?-append,
  get_elem?-ge, length-take, length-append, length-replicate, replicate, ext, some_inj, arith,
}
use cmon.Text.{Bytes}
use cmon.Paths.{Reallocator}
use cmon.Paths.Extension.{Ample}

abbrev pub grown : Bytes → ℕ → Bytes
grown b n = take n (b ++ replicate n 0)

pub length-grown : (b : Bytes) (n : ℕ) → length (grown b n) ≡ n
length-grown b n = omega (
  arith,
  length-take n (b ++ replicate n 0),
  length-append b (replicate n 0),
  length-replicate {A = ℕ} n 0,
)

pub take-grown : (b : Bytes) (n : ℕ) → length b ≤ n → take (length b) (grown b n) ≡ b
take-grown b n le = ext _ _ λ j. ground (
  arith,
  get_elem?-take (length b) (grown b n) j,
  get_elem?-take n (b ++ replicate n 0) j,
  get_elem?-append b (replicate n 0) j,
  get_elem?-ge b j,
)

abbrev pub zeroing : Reallocator
zeroing = record {
  alloc = λ n. some (replicate n 0);
  alloc_size = λ n b e. ap length (sym (some_inj e)) ∙ length-replicate {A = ℕ} n 0;
  realloc = λ b n. some (grown b n);
  realloc_size = λ b n b' e. ap length (sym (some_inj e)) ∙ length-grown b n;
  realloc_keeps = λ b n b' le e. ap (take (length b)) (sym (some_inj e)) ∙ take-grown b n le;
}

pub zeroing-Ample : Ample zeroing
zeroing-Ample = record { gives = λ n. (replicate n 0, refl); grows = λ b n. (grown b n, refl) }
