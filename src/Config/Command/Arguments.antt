-- ===== src/Config/Command/Arguments.antt =====
-- How many arguments a `CmonCommand` takes.
use cmon.Base.{
  ◌<◌, inl, inr, Bool-cases, ℕ, suc, ◌+◌, ◌≡◌, refl, ap, ◌∙◌, some, List, [], ◌∷◌, ◌++◌, map, ltb,
  if◌then◌else◌, length, set, drop, Run, ok, fault, arith, append-nil, append_assoc, length-append,
  lt→ltb, ge→ltb,
}
use cmon.Text.{Bytes}
use cmon.Str.Alloc.{Allocator}
use cmon.Str.CStr.{CStr, no_nul, no_nul-CStr}
use cmon.Token.{chars, strdup}
use cmon.Token.Array.{Reliable, text_of-CStr}
use cmon.Config.Command.{
  Pointer, nowhere, to, CmonCommand, store, process_text, store_args, parse_argv,
}

strdup-CStr : (m : Allocator) {b s : Bytes} → CStr b s → Reliable m → strdup m b ≡ ok (chars s)
unfolding strdup
strdup-CStr m {s} t given = let (block, e) = given (length s + 1) in rw (text_of-CStr t, e)

set_mid :
    (front : List Pointer) (x p : Pointer) (tl : List Pointer)
    → set (front ++ x ∷ tl) (length front) p ≡ front ++ p ∷ tl
set_mid [] x p tl = refl
set_mid (y ∷ front) x p tl = ap (◌∷◌ y) (set_mid front x p tl)

store_mid :
    (front : List Pointer) (x p : Pointer) (tl : List Pointer)
    → store (front ++ x ∷ tl) (length front) p ≡ ok (front ++ p ∷ tl)
store_mid front x p tl = rw (
  lt→ltb (length front) (length (front ++ x ∷ tl)) (omega (arith, length-append front (x ∷ tl))),
  set_mid front x p tl,
)

store_past : (argv : List Pointer) (p : Pointer) → store argv (length argv) p ≡ fault
store_past argv p = rw (ge→ltb (length argv) (length argv) (omega arith))

ltb-suc : (a b : ℕ) → ltb (suc a) (suc b) ≡ ltb a b
ltb-suc a b = ground arith

cons_of : (l : List Pointer) → 0 < length l → (x : Pointer) × (tl : List Pointer) × (l ≡ x ∷ tl)
cons_of [] h = absurd (omega arith)
cons_of (x ∷ tl) h = (x, tl, refl)

-- The arguments and NULL, where they fit into the slots.
abbrev placed : List Pointer → List Bytes → List Pointer → Run (List Pointer)
placed front args tl =
    if ltb (length args) (length tl)
    then ok (front ++ (map to args ++ nowhere ∷ drop (suc (length args)) tl))
    else fault

store_args-placed :
    (args : List Bytes) (front tl : List Pointer)
    → store_args args (length front) (front ++ tl) ≡ placed front args tl
unfolding store_args
store_args-placed [] front [] = rw append-nil (store_past front nowhere)
store_args-placed (arg ∷ args) front [] =
    rw (append-nil, store_past front (to arg), ge→ltb (suc (length args)) 0 (omega arith))
store_args-placed [] front (x ∷ tl) =
    store_mid front x nowhere tl ∙ rw (lt→ltb 0 (suc (length tl)) (omega arith))
store_args-placed (arg ∷ args) front (x ∷ tl) =
    let next = store_args-placed args (front ++ to arg ∷ []) tl in
    let at_end : length (front ++ to arg ∷ []) ≡ length front + 1 =
      omega (arith, length-append front (to arg ∷ [])) in
    let whole = append_assoc front (to arg ∷ []) tl in
    let same : placed (front ++ to arg ∷ []) args tl ≡ placed front (arg ∷ args) (x ∷ tl) = rw (
      append_assoc front (to arg ∷ []) (map to args ++ nowhere ∷ drop (suc (length args)) tl),
      ltb-suc (length args) (length tl),
    ) in
    rw (store_mid front x (to arg) tl) (rw (at_end, whole) at next ∙ same)

-- `cmon_parse_argv` takes the program and at most eight arguments: `argv` is then its process name,
-- the arguments and NULL, and what it held behind these. With nine arguments or more it writes
-- past the ten slots of `argv`. For a command line with a program, and where `malloc` does not
-- fail.
pub parse_argv-arguments :
    (m : Allocator) (c : CmonCommand) {exe exe_text : Bytes} (name : Bytes) (args : List Bytes)
    → Reliable m
    → length c.argv ≡ 10
    → CStr exe exe_text
    → parse_argv m (some c) (name ∷ exe ∷ args) ≡ (
        if ltb (length args) 9
        then ok (
            some (record {
              exe = to (exe_text ++ 0 ∷ []);
              process_name = to (process_text ++ 0 ∷ []);
              argv =
                  to (process_text ++ 0 ∷ [])
                  ∷ (map to args ++ nowhere ∷ drop (suc (suc (length args))) c.argv);
            }))
        else fault)
unfolding parse_argv no_nul
parse_argv-arguments m c {exe_text} name args given ten exe_is =
    let (x, rest, split) = cons_of c.argv (omega (arith, ten)) in
    let nine : length rest ≡ 9 = omega (arith, ap length split, ten) in
    let process = to (process_text ++ 0 ∷ []) in
    let named = strdup-CStr m (no_nul-CStr process_text refl) given in
    let filled = store_args-placed args (process ∷ []) rest in
    rw (strdup-CStr m exe_is given, named, split, store_mid [] x process rest, filled, nine)
      (elim (Bool-cases (ltb (length args) 9)) [ inl few ↦ rw few | inr many ↦ rw many ])
