-- ===== src/Proxy/Start/Race.antt =====
-- Which clients the threads of the proxy serve.
use cmon.Base.{
  ℕ, zero, suc, ◌+◌, ◌≡◌, refl, ap, sym, ◌∙◌, inl, inr, Bool, true, false, Option, none, some, List,
  [], ◌∷◌, ◌++◌, map, length, get_elem?, set, replicate, ◌==◌, ==_iff, if◌then◌else◌, Bool-cases,
  arith, get_elem?-set, get_elem?-append, index-lt, length-append, append_assoc, lt→ltb,
}
use cmon.Base.Int.{ℤ, pos, negsuc}
use cmon.Proxy.Start.{
  Thread, created, serving, Server, Event, accepts, begins, accepted, begun, begin_at, after, run,
  proxy_start,
}

-- What `rc` holds when the thread `k` takes its first step, where the list has that step.
abbrev pub first_read : ℕ → ℤ → List Event → Option ℤ
first_read k rc [] = none
first_read k rc (accepts answer made ∷ es) = first_read k answer es
first_read k rc (begins i ∷ es) = if i == k then some rc else first_read k rc es

-- A thread that has its client keeps it, and one that has not takes what it reads first.
abbrev pub settled : Option ℤ → Thread → Thread
settled none created = created
settled (some v) created = serving v
settled first (serving v) = serving v

-- What is there stays there when the list grows.
kept_front :
    (ts us : List Thread) (k : ℕ) {t : Thread}
    → get_elem? ts k ≡ some t
    → get_elem? (ts ++ us) k ≡ some t
kept_front ts us k h =
    let below = index-lt ts k h in let split = get_elem?-append ts us k in ground (arith, h)

accepted-threads :
    (answer : ℤ) (made : Bool) (s : Server) (k : ℕ) {t : Thread}
    → get_elem? s.threads k ≡ some t
    → (get_elem? (accepted answer made s).threads k ≡ some t)
      × ((accepted answer made s).rc ≡ answer)
unfolding accepted
accepted-threads (negsuc zero) made s k h = (h, refl)
accepted-threads (negsuc (suc n)) true s k h = (kept_front s.threads (created ∷ []) k h, refl)
accepted-threads (negsuc (suc n)) false s k h = (h, refl)
accepted-threads (pos n) true s k h = (kept_front s.threads (created ∷ []) k h, refl)
accepted-threads (pos n) false s k h = (h, refl)

-- A step of a thread leaves the other threads alone.
begins-other :
    (i : ℕ) (s : Server) (k : ℕ) {t : Thread}
    → (i == k) ≡ false
    → get_elem? s.threads k ≡ some t
    → get_elem? (after (begins i) s).threads k ≡ some t
unfolding after
begins-other i s k {t} other h = go (get_elem? s.threads i)
  where
    go : (found : Option Thread) → get_elem? (begin_at s.threads i s.rc found) k ≡ some t
    go none = h
    go (some u) = get_elem?-set s.threads i k (begun s.rc u) ∙ rw other h

begins-same :
    (i : ℕ) (s : Server) {t : Thread}
    → get_elem? s.threads i ≡ some t
    → get_elem? (after (begins i) s).threads i ≡ some (begun s.rc t)
unfolding after
begins-same i s {t} h =
    let inside = index-lt s.threads i h in
    let here = (==_iff i i).1 refl in
    ap (λ found. get_elem? (begin_at s.threads i s.rc found) i) h
    ∙ get_elem?-set s.threads i i (begun s.rc t)
    ∙ rw (here, lt→ltb i (length s.threads) inside)

settled-begun :
    (first : Option ℤ) (rc : ℤ) (t : Thread) → settled first (begun rc t) ≡ settled (some rc) t
settled-begun none rc created = refl
settled-begun (some v) rc created = refl
settled-begun none rc (serving v) = refl
settled-begun (some v) rc (serving w) = refl

-- In any order of the rounds of the loop and the first steps of the threads, a thread that has its
-- client keeps it, and one that has not serves just what `rc` holds when its own first step comes,
-- whichever client it was made for: the latest answer of `accept` by then, -1 for an error included,
-- or what `rc` held before where there was none. While that step has not come, it serves no client.
pub run-first_read :
    (es : List Event) (s : Server) (k : ℕ) {t : Thread}
    → get_elem? s.threads k ≡ some t
    → get_elem? (run es s).threads k ≡ some (settled (first_read k s.rc es) t)
unfolding run
run-first_read [] s k {t = created} h = h
run-first_read [] s k {t = serving v} h = h
run-first_read (accepts answer made ∷ es) s k {t} h =
    let (there, rc) = accepted-threads answer made s k h in
    run-first_read es (after (accepts answer made) s) k there
    ∙ ap (λ v. some (settled (first_read k v es) t)) rc
run-first_read (begins i ∷ es) s k {t} h = elim (Bool-cases (i == k)) [
  | inl here ↦
      let same : k ≡ i = sym ((==_iff i k).0 here) in
      let at : get_elem? s.threads i ≡ some t = ap (get_elem? s.threads) (sym same) ∙ h in
      let next : get_elem? (after (begins i) s).threads k ≡ some (begun s.rc t) =
        ap (get_elem? (after (begins i) s).threads) same ∙ begins-same i s at in
      rw here (
        run-first_read es (after (begins i) s) k next
        ∙ ap some (settled-begun (first_read k s.rc es) s.rc t))
  | inr other ↦ rw other (run-first_read es (after (begins i) s) k (begins-other i s k other h))
]

-- The clients `fds` are accepted, with a thread for each.
abbrev accept_all : List ℕ → List Event
accept_all fds = map (λ fd. accepts (pos fd) true) fds

-- The first steps of `n` threads, from the one at `i` on.
abbrev begin_all : ℕ → ℕ → List Event
begin_all i zero = []
begin_all i (suc n) = begins i ∷ begin_all (i + 1) n

run-append : (es fs : List Event) (s : Server) → run (es ++ fs) s ≡ run fs (run es s)
unfolding run
run-append [] fs s = refl
run-append (e ∷ es) fs s = run-append es fs (after e s)

run-accept_all :
    (fds : List ℕ) (fd : ℕ) (s : Server)
    → run (accept_all (fds ++ fd ∷ [])) s
      ≡ record { rc = pos fd; threads = s.threads ++ replicate (suc (length fds)) created }
unfolding run after accepted
run-accept_all [] fd s = refl
run-accept_all (x ∷ fds) fd s =
    run-accept_all fds fd (after (accepts (pos x) true) s)
    ∙ rw (append_assoc s.threads (created ∷ []) (replicate (suc (length fds)) created))

get_elem?-mid :
    (front tl : List Thread) (t : Thread) → get_elem? (front ++ t ∷ tl) (length front) ≡ some t
get_elem?-mid [] tl t = refl
get_elem?-mid (x ∷ front) tl t = get_elem?-mid front tl t

set_mid :
    (front tl : List Thread) (t u : Thread)
    → set (front ++ t ∷ tl) (length front) u ≡ (front ++ u ∷ []) ++ tl
set_mid [] tl t u = refl
set_mid (x ∷ front) tl t u = ap (◌∷◌ x) (set_mid front tl t u)

after-mid :
    (front tl : List Thread) (v : ℤ)
    → after (begins (length front)) (record { rc = v; threads = front ++ created ∷ tl })
      ≡ record { rc = v; threads = (front ++ serving v ∷ []) ++ tl }
unfolding after
after-mid front tl v = rw (get_elem?-mid front tl created, set_mid front tl created (serving v))

run-begin_all :
    (n : ℕ) (v : ℤ) (front : List Thread)
    → run (begin_all (length front) n) (record { rc = v; threads = front ++ replicate n created })
      ≡ record { rc = v; threads = front ++ replicate n (serving v) }
unfolding run
run-begin_all zero v front = refl
run-begin_all (suc n) v front =
    let rest = replicate n created in
    let one_more : length (front ++ serving v ∷ []) ≡ length front + 1 =
      omega (arith, length-append front (serving v ∷ [])) in
    let next = run-begin_all n v (front ++ serving v ∷ []) in
    ap (run (begin_all (length front + 1) n)) (after-mid front rest v)
    ∙ rw one_more at next
    ∙ rw (append_assoc front (serving v ∷ []) (replicate n (serving v)))

-- Where all clients are accepted before the first thread runs, every thread serves the last client,
-- and no thread serves any other.
pub proxy_start_hurried :
    (listening rc : ℕ) (fds : List ℕ) (fd : ℕ)
    → proxy_start
        (pos listening)
        (pos rc)
        (accept_all (fds ++ fd ∷ []) ++ begin_all 0 (suc (length fds)))
      ≡ some (record { rc = pos fd; threads = replicate (suc (length fds)) (serving (pos fd)) })
unfolding proxy_start
proxy_start_hurried listening rc fds fd =
    let n = suc (length fds) in
    let fresh : Server = record { rc = pos rc; threads = [] } in
    ap some (
      run-append (accept_all (fds ++ fd ∷ [])) (begin_all 0 n) fresh
      ∙ ap (run (begin_all 0 n)) (run-accept_all fds fd fresh)
      ∙ run-begin_all n (pos fd) [])
