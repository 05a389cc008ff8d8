-- ===== src/Processes/Kill.antt =====
-- Whom `process_kill_subtree` signals.
use cmon.Base.{
  ℕ, zero, suc, ◌+◌, ◌≤◌, ◌<◌, ◌≡◌, refl, sym, ap, ◌∙◌, some, List, [], ◌∷◌, ◌++◌, length, take,
  get_elem?-lt, arith, ok, false, ◌==◌, ne→==, take_suc,
}
use cmon.Base.Int.{ℤ, pos}
use cmon.Integers.{CmonIntArray}
use cmon.Integers.Items.{Represents}
use cmon.Processes.{Signals, kill_from, kill_subtree}

module _ (sys : Signals) where
  -- Each gets the signal once, from the last to the first.
  abbrev pub ended : List ℤ → sys.World → sys.World
  ended [] w = w
  ended (pid ∷ pids) w = (sys.kill pid (ended pids w)).1

  ended-append :
      (xs : List ℤ) (v : ℤ) (w : sys.World) → ended (xs ++ v ∷ []) w ≡ ended xs (sys.kill v w).1
  ended-append [] v w = refl
  ended-append (x ∷ xs) v w = ap (λ u. (sys.kill x u).1) (ended-append xs v w)

  kill_from-ended :
      (pids : List ℤ) (n : ℕ) (w : sys.World)
      → n ≤ length pids
      → kill_from sys pids n w ≡ ok (ended (take n pids) w)
  unfolding kill_from
  kill_from-ended pids zero w h = refl
  kill_from-ended pids (suc n) w h =
      let (v, e) = get_elem?-lt pids n (omega arith) in
      let next : n + 1 ≡ suc n = omega arith in
      let longer : take n pids ++ v ∷ [] ≡ take (suc n) pids =
        take_suc pids n v e ∙ ap (λ k. take k pids) next in
      rw e (
        kill_from-ended pids n (sys.kill v w).1 (omega arith)
        ∙ ap ok (sym (ended-append (take n pids) v w) ∙ ap (λ t. ended t w) longer))

  -- `process_kill_subtree` on an array that stands for a list of processes, not empty, returns 0
  -- and signals each of them once, the last one first, whether or not a signal succeeds.
  pub kill_subtree-ended :
      (a : CmonIntArray) {xs : List ℤ} (w : sys.World)
      → Represents a xs
      → 0 < length xs
      → kill_subtree sys (some a) w ≡ ok (pos 0, ended xs w)
  unfolding kill_subtree
  kill_subtree-ended a w r some_pid =
      let not_none : (a.len == 0) ≡ false = ne→== a.len 0 (λ e. omega (arith, e, r.counted)) in
      let all = kill_from-ended a.arr a.len w (omega (arith, r.slots, r.room)) in
      rw (not_none, all, r.items) refl
