-- ===== src/Config/Kept.antt =====
-- What `config_parser` leaves alone: the working directory and the command of a configuration.
use cmon.Base.{
  subst, ℕ, zero, suc, ◌+◌, ◌≡◌, refl, ◌∙◌, Bool, true, false, Option, none, some, Run, ok, exited,
  fault, ◌>>=◌,
}
use cmon.Str.Alloc.{Allocator}
use cmon.Token.{TokenType, text, string, double_colon, Value, Token, TokenArr}
use cmon.Config.{
  ConfigEntry, watch_file_ext_names, ignore_files, ignore_dirs, CmonConfig, Parser, entry_of,
  get_token, add_value, set_target, parse_label, parse_string, parse_token, parse_from, required,
  config_parser, value_arg, value_text, under_cwd,
}
use cmon.Str.Array.{str_arr_add_from_str, str_arr_add_new_char_arr}

-- What holds of the result, where there is one.
abbrev pub IfOk {ℓ} : {A : Type ℓ} → (A → Type 0) → Run A → Type 0
IfOk P (ok a) = P a
IfOk P (exited n) = Unit {0}
IfOk P fault = Unit {0}

pub IfOk-bind {ℓ κ} :
    {A : Type ℓ} {B : Type κ} (P : B → Type 0) (r : Run A) (f : A → Run B)
    → ((a : A) → IfOk P (f a))
    → IfOk P (r >>= f)
IfOk-bind P (ok a) f h = h a
IfOk-bind P (exited n) f h = tt
IfOk-bind P fault f h = tt

pub IfOk-chain {ℓ κ} :
    {A : Type ℓ} {B : Type κ} (Q : A → Type 0) (P : B → Type 0) (r : Run A) (f : A → Run B)
    → IfOk Q r
    → ((a : A) → Q a → IfOk P (f a))
    → IfOk P (r >>= f)
IfOk-chain Q P (ok a) f q h = h a q
IfOk-chain Q P (exited n) f q h = tt
IfOk-chain Q P fault f q h = tt

pub IfOk-map {ℓ} :
    {A : Type ℓ} {Q P : A → Type 0} (r : Run A) → IfOk Q r → ((a : A) → Q a → P a) → IfOk P r
IfOk-map (ok a) q h = h a q
IfOk-map (exited n) q h = tt
IfOk-map fault q h = tt

pub IfOk-found {ℓ κ} :
    {A : Type ℓ} {B : Type κ} (P : B → Type 0) (r : Run A) (f : A → Run B)
    → ((a : A) → r ≡ ok a → IfOk P (f a))
    → IfOk P (r >>= f)
IfOk-found P (ok a) f h = h a refl
IfOk-found P (exited n) f h = tt
IfOk-found P fault f h = tt

pub IfOk-ok {ℓ} : {A : Type ℓ} (P : A → Type 0) {r : Run A} {a : A} → r ≡ ok a → IfOk P r → P a
IfOk-ok P e h = subst (IfOk P) e h

pub record SameCommand (old new : CmonConfig) : Type 0 where
  pub cwd : new.cwd ≡ old.cwd
  pub exe : new.exe ≡ old.exe
  pub argv : new.argv ≡ old.argv

SameCommand-trans : {a b c : CmonConfig} → SameCommand a b → SameCommand b c → SameCommand a c
SameCommand-trans f g = record { cwd = g.cwd ∙ f.cwd; exe = g.exe ∙ f.exe; argv = g.argv ∙ f.argv }

-- The same of two states of the parser.
abbrev Keeps : Parser → Run Parser → Type 0
Keeps p = IfOk (λ q. SameCommand p.conf q.conf)

SameCommand-refl : (c : CmonConfig) → SameCommand c c
SameCommand-refl c = record { cwd = refl; exe = refl; argv = refl }

add_value-SameCommand :
    (m : Allocator) (v : Value) (e : ConfigEntry) (conf : CmonConfig)
    → IfOk (SameCommand conf) (add_value m v e conf)
unfolding add_value
add_value-SameCommand m v watch_file_ext_names conf = IfOk-bind _ (value_arg v) _ λ value.
    IfOk-bind _ (str_arr_add_new_char_arr m conf.watch_ext_names value) _
      λ added. record { cwd = refl; exe = refl; argv = refl }
add_value-SameCommand m v ignore_files conf = IfOk-bind _ (value_arg v) _ λ value.
    IfOk-bind _ (under_cwd m conf.cwd value) _ λ new_str.
      IfOk-bind _ (str_arr_add_from_str conf.ignore_files_arr new_str) _
        λ added. record { cwd = refl; exe = refl; argv = refl }
add_value-SameCommand m v ignore_dirs conf = IfOk-bind _ (value_arg v) _ λ value.
    IfOk-bind _ (under_cwd m conf.cwd value) _ λ new_str.
      IfOk-bind _ (str_arr_add_from_str conf.ignore_dirs_arr new_str) _
        λ added. record { cwd = refl; exe = refl; argv = refl }

parse_string-Keeps :
    (m : Allocator) (v : Value) (b : Bool) (e : Option ConfigEntry) (p : Parser)
    → Keeps p (parse_string m v b e p)
unfolding parse_string
parse_string-Keeps m v true (some e) p =
    IfOk-chain _ _ (add_value m v e p.conf) _ (add_value-SameCommand m v e p.conf) λ conf same. same
parse_string-Keeps m v true none p = SameCommand-refl p.conf
parse_string-Keeps m v false e p = SameCommand-refl p.conf

set_target-Keeps : (v : Value) (ty : TokenType) (p : Parser) → Keeps p (set_target v ty p)
unfolding set_target
set_target-Keeps v double_colon p = IfOk-bind _ (value_text v) _ λ l. targeted (entry_of l)
  where
    targeted :
        (e : Option ConfigEntry)
        → SameCommand p.conf
            (elim e as (λ _. Parser) [
              | none ↦ p
              | some e ↦ record p { config_target = some e }
            ]).conf
    targeted none = SameCommand-refl p.conf
    targeted (some e) = SameCommand-refl p.conf
set_target-Keeps v _ p = SameCommand-refl p.conf

parse_label-Keeps : (v : Value) (t : Option Token) (p : Parser) → Keeps p (parse_label v t p)
unfolding parse_label
parse_label-Keeps v none p = tt
parse_label-Keeps v (some t) p = set_target-Keeps v t.type p

parse_token-Keeps :
    (m : Allocator) (a : TokenArr) (i : ℕ) (ty : TokenType) (v : Value) (p : Parser)
    → Keeps p (parse_token m a i ty v p)
unfolding parse_token
parse_token-Keeps m a i text v p =
    IfOk-bind _ (get_token a (i + 1)) _ λ next. parse_label-Keeps v next p
parse_token-Keeps m a i string v p = parse_string-Keeps m v p.in_block p.config_target p
parse_token-Keeps m a i _ v p = SameCommand-refl p.conf

parse_from-Keeps :
    (m : Allocator) (a : TokenArr) (n i : ℕ) (p : Parser) → Keeps p (parse_from m a n i p)
unfolding parse_from
parse_from-Keeps m a zero i p = SameCommand-refl p.conf
parse_from-Keeps m a (suc n) i p = IfOk-bind _ (get_token a i) _ λ cur.
    IfOk-bind _ (required cur) _ λ t.
      IfOk-chain (λ q. SameCommand p.conf q.conf) _ (parse_token m a i t.type t.value p) _
        (parse_token-Keeps m a i t.type t.value p)
        λ q same.
          IfOk-map (parse_from m a n (i + 1) q) (parse_from-Keeps m a n (i + 1) q)
            λ r later. SameCommand-trans same later

pub config_parser-SameCommand :
    (m : Allocator) (a : TokenArr) (conf : CmonConfig)
    → IfOk (SameCommand conf) (config_parser m a conf)
unfolding config_parser
config_parser-SameCommand m a conf =
    let start : Parser = record { config_target = none; in_block = false; conf = conf } in
    IfOk-chain _ _ (parse_from m a a.len 0 start) _ (parse_from-Keeps m a a.len 0 start)
      λ p same. same
