-- ===== src/Release/Blocks.antt =====
-- Which blocks are freed, and how often.
use cmon.Base.{
  length-append, ℕ, ◌+◌, ◌≤◌, ◌≡◌, refl, sym, ap, ◌∙◌, inl, inr, Option, some, List, [], ◌∷◌, ◌++◌,
  ◌==◌, if◌then◌else◌, length, map, Bool-cases, append_assoc, arith, Run, ok, ◌>>=◌, >>=-cong,
  >>=-assoc, get_elem?,
}
use cmon.Base.Int.{ℤ, pos}
use cmon.Release.{release, free, Strings, free_from, str_arr_free, ConfigBlocks, config_free}

-- How often an address is in a list.
abbrev pub count : ℕ → List ℕ → ℕ
count a [] = 0
count a (b ∷ bs) = (if b == a then 1 else 0) + count a bs

-- One block after the other.
free_all : List ℕ → List ℕ → Run (List ℕ)
free_all [] live = ok live
free_all (p ∷ ps) live = do live' ← release p live; free_all ps live'

free_all-append :
    (ps qs live : List ℕ)
    → free_all (ps ++ qs) live ≡ (free_all ps live >>= λ live'. free_all qs live')
unfolding free_all
free_all-append [] qs live = refl
free_all-append (p ∷ ps) qs live =
    >>=-cong (release p live) (λ live'. free_all-append ps qs live')
    ∙ sym (>>=-assoc (release p live) (free_all ps) (free_all qs))

release-count :
    (p : ℕ) (live : List ℕ)
    → 1 ≤ count p live
    → (live' : List ℕ) × (release p live ≡ ok live')
      × ((a : ℕ) → count a live ≡ (if p == a then 1 else 0) + count a live')
unfolding release
release-count p [] h = absurd (omega arith)
release-count p (b ∷ live) h = elim (Bool-cases (b == p)) [
  | inl here ↦ let same : b ≡ p = ground arith in (live, rw here, λ a. rw same refl)
  | inr other ↦
      let (live', freed, counts) = release-count p live (ground arith) in
      (b ∷ live', rw (other, freed), λ a. omega (arith, counts a))
]

free_all-count :
    (ps live : List ℕ)
    → ((a : ℕ) → count a ps ≤ count a live)
    → (live' : List ℕ) × (free_all ps live ≡ ok live')
      × ((a : ℕ) → count a live ≡ count a ps + count a live')
unfolding free_all
free_all-count [] live h = (live, refl, λ a. omega arith)
free_all-count (p ∷ ps) live h =
    let (one, freed, counts) = release-count p live (ground (arith, h p)) in
    let (live', all, others) = free_all-count ps one (λ a. omega (arith, h a, counts a)) in
    (live', rw freed all, λ a. omega (arith, counts a, others a))

-- The array holds these pointers, and anything behind them.
pub record Holds (s : Strings) (ps : List ℕ) : Type 0 where
  pub slack : List (Option ℕ)
  pub counted : s.len ≡ length ps
  pub slots : s.arr ≡ map some ps ++ slack

get_elem?-mid :
    (front tl : List (Option ℕ)) (p : Option ℕ)
    → get_elem? (front ++ p ∷ tl) (length front) ≡ some p
get_elem?-mid [] tl p = refl
get_elem?-mid (x ∷ front) tl p = get_elem?-mid front tl p

free_from-all :
    (ps : List ℕ) (front slack : List (Option ℕ)) (live : List ℕ)
    → free_from (front ++ (map some ps ++ slack)) (length ps) (length front) live ≡ free_all ps live
unfolding free_from free_all
free_from-all [] front slack live = refl
free_from-all (p ∷ ps) front slack live =
    let one_more : length (front ++ some p ∷ []) ≡ length front + 1 =
      omega (arith, length-append front (some p ∷ [])) in
    rw (get_elem?-mid front (map some ps ++ slack) (some p)) (
      >>=-cong (release p live) (λ live'.
        rw (one_more, append_assoc front (some p ∷ []) (map some ps ++ slack)) at
          (free_from-all ps (front ++ some p ∷ []) slack live')))

-- `cmon_str_arr_free`, and what follows it.
str_arr_free-then :
    {s : Strings} {ps : List ℕ} (live : List ℕ) (next : List ℕ → Run (ℤ × List ℕ))
    → Holds s ps
    → (str_arr_free (some s) live >>= λ r. next r.1) ≡ (free_all ps live >>= next)
unfolding str_arr_free
str_arr_free-then {ps} live next h =
    rw (h.counted, h.slots, free_from-all ps [] h.slack live)
      (>>=-assoc (free_all ps live) (λ l. ok (pos 0, l)) (λ r. next r.1))

free_all-then :
    (ps qs live : List ℕ) (next : List ℕ → Run (ℤ × List ℕ))
    → (free_all (ps ++ qs) live >>= next) ≡ (free_all ps live >>= λ l. free_all qs l >>= next)
free_all-then ps qs live next =
    ap (λ r. r >>= next) (free_all-append ps qs live)
    ∙ >>=-assoc (free_all ps live) (free_all qs) next

free_all-three :
    (a b c : ℕ) (live : List ℕ) (next : List ℕ → Run (ℤ × List ℕ))
    → (free_all (a ∷ b ∷ c ∷ []) live >>= next)
      ≡ (release a live >>= λ x. release b x >>= λ y. release c y >>= next)
unfolding free_all
free_all-three a b c live next =
    >>=-assoc (release a live) (free_all (b ∷ c ∷ [])) next
    ∙ >>=-cong (release a live) (λ x.
      >>=-assoc (release b x) (free_all (c ∷ [])) next
      ∙ >>=-cong (release b x) (λ y. >>=-assoc (release c y) ok next))

-- The blocks that a configuration points to, and its own.
abbrev pub blocks : List ℕ → List ℕ → List ℕ → ℕ → ℕ → ℕ → List ℕ
blocks dirs files names cwd exe conf = dirs ++ (files ++ (names ++ cwd ∷ exe ∷ conf ∷ []))

abbrev done : List ℕ → Run (ℤ × List ℕ)
done live = ok (pos 0, live)

config_free-free_all :
    (c : ConfigBlocks) {dirs files names : List ℕ} (cwd exe : ℕ) (live : List ℕ)
    → Holds c.ignore_dirs dirs
    → Holds c.ignore_files files
    → Holds c.watch_ext_names names
    → c.cwd ≡ some cwd
    → c.exe ≡ some exe
    → config_free c live ≡ (free_all (blocks dirs files names cwd exe c.conf) live >>= done)
unfolding config_free free
config_free-free_all c {dirs} {files} {names} cwd exe live hd hf hn hc he =
    let last = cwd ∷ exe ∷ c.conf ∷ [] in
    rw (hc, he)
      (str_arr_free-then live _ hd
        ∙ >>=-cong (free_all dirs live) (λ l1.
          str_arr_free-then l1 _ hf
          ∙ >>=-cong (free_all files l1) (λ l2.
            str_arr_free-then l2 _ hn
            ∙ >>=-cong (free_all names l2) (λ l3. sym (free_all-three cwd exe c.conf l3 done))
            ∙ sym (free_all-then names last l2 done))
          ∙ sym (free_all-then files (names ++ last) l1 done))
        ∙ sym (free_all-then dirs (files ++ (names ++ last)) live done))

-- `config_free` returns 0 and frees each string of the three arrays, the working directory, the
-- program's name and the configuration itself, each as often as it is pointed to, and nothing
-- else: every other block is still allocated, so also the bytes of the strings, which are blocks
-- of their own. For a configuration whose pointers are all to allocated blocks, no block twice.
pub config_free-blocks :
    (c : ConfigBlocks) {dirs files names : List ℕ} (cwd exe : ℕ) (live : List ℕ)
    → Holds c.ignore_dirs dirs
    → Holds c.ignore_files files
    → Holds c.watch_ext_names names
    → c.cwd ≡ some cwd
    → c.exe ≡ some exe
    → ((a : ℕ) → count a (blocks dirs files names cwd exe c.conf) ≤ count a live)
    → (live' : List ℕ) × (config_free c live ≡ ok (pos 0, live'))
      × ((a : ℕ) → count a live ≡ count a (blocks dirs files names cwd exe c.conf) + count a live')
config_free-blocks c {dirs} {files} {names} cwd exe live hd hf hn hc he owned =
    let (live', freed, counts) =
      free_all-count (blocks dirs files names cwd exe c.conf) live owned in
    (live', config_free-free_all c cwd exe live hd hf hn hc he ∙ ap (λ r. r >>= done) freed, counts)
