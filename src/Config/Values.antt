-- ===== src/Config/Values.antt =====
-- `config_parser` on the tokens of a list of blocks.
use cmon.Base.{
  ℕ, ◌+◌, ◌≤◌, ◌<◌, ◌≡◌, refl, ◌∙◌, true, false, none, some, List, [], ◌∷◌, ◌++◌, map, length,
  length-map, All, length-append, append_assoc, append-nil, arith, ok,
}
use mathlib.Core.List.{map-append}
use cmon.Text.{Bytes}
use cmon.Str.Alloc.{Allocator}
use cmon.Str.CStr.{nil, cons, concat}
use cmon.Str.Concat.{Allocates, of_text, str_new_from_char_arrs-concat}
use cmon.Str.Array.{CmonStringArray}
use cmon.Str.Array.Items.{Represents, str_arr_add_from_str-append, str_arr_add_new_char_arr-append}
use cmon.Token.{c_curly_baracket, null, chars, Token, TokenArr}
use cmon.Token.Array.{IsTokens, Reliable, token}
use cmon.Config.{
  ConfigEntry, watch_file_ext_names, ignore_files, ignore_dirs, CmonConfig, entry_of, Parser,
  under_cwd, add_value, set_target, parse_label, parse_string, config_parser,
}
use cmon.Config.Blocks.{
  Block, string_token, block_tokens, tokens, label_of, Settings, Stands, Means, with_value,
  with_values, with_blocks, IsValue, Fits,
}
use cmon.Config.Parse.{parse_list, config_parser-list}

pub Allocates-Reliable : (m : Allocator) (n : ℕ) → Reliable m → Allocates m n
Allocates-Reliable m n given =
    let (h, eh) = given 16 in
    let (b, eb) = given (n + 1) in
    record { header = h; block = b; header_given = eh; block_given = eb }

-- One more text behind those that an array stands for.
Stands-append :
    {a : CmonStringArray} (ss : List Bytes) (v : Bytes)
    → Represents a (map of_text ss ++ of_text v ∷ [])
    → Stands a (ss ++ v ∷ [])
Stands-append ss v r = rw (map-append of_text ss (v ∷ [])) r

entry_of-label : (e : ConfigEntry) → entry_of (label_of e) ≡ some e
unfolding entry_of
entry_of-label watch_file_ext_names = refl
entry_of-label ignore_files = refl
entry_of-label ignore_dirs = refl

room_for : (ss : List Bytes) (v : Bytes) → length (ss ++ v ∷ []) ≤ 50 → length (map of_text ss) < 50
room_for ss v h = omega (arith, length-append ss (v ∷ []), length-map ss of_text)

Fits-value :
    (cwd : Bytes) (e : ConfigEntry) (v : Bytes) (s : Settings)
    → Fits (with_value cwd e v s)
    → Fits s
Fits-value cwd watch_file_ext_names v s h = omega (arith, length-append s.watch (v ∷ []))
Fits-value cwd ignore_files v s h = omega (arith, length-append s.files ((cwd ++ v) ∷ []))
Fits-value cwd ignore_dirs v s h = omega (arith, length-append s.dirs ((cwd ++ v) ∷ []))

Fits-values :
    (cwd : Bytes) (e : ConfigEntry) (vs : List Bytes) (s : Settings)
    → Fits (with_values cwd e vs s)
    → Fits s
Fits-values cwd e [] s h = h
Fits-values cwd e (v ∷ vs) s h = Fits-value cwd e v s (Fits-values cwd e vs _ h)

Fits-blocks : (cwd : Bytes) (bs : List Block) (s : Settings) → Fits (with_blocks cwd bs s) → Fits s
Fits-blocks cwd [] s h = h
Fits-blocks cwd (b ∷ bs) s h = Fits-values cwd b.entry b.values s (Fits-blocks cwd bs _ h)

-- The parser between two blocks, and inside one.
abbrev pub outside : CmonConfig → Parser
outside conf = record { config_target = none; in_block = false; conf = conf }

abbrev inside : ConfigEntry → CmonConfig → Parser
inside e conf = record { config_target = some e; in_block = true; conf = conf }

module _ (m : Allocator) (given : Reliable m) {cwd : Bytes} (near : length cwd ≤ 257) where
  under_cwd-of_text :
      {conf : CmonConfig} {s : Settings} {v : Bytes}
      → Means cwd conf s
      → IsValue v
      → under_cwd m conf.cwd (some (v ++ 0 ∷ [])) ≡ ok (some (of_text (cwd ++ v)))
  unfolding under_cwd
  under_cwd-of_text {v} means is =
      let room = Allocates-Reliable m (length (concat (cwd ∷ v ∷ []))) given in
      let made =
        str_new_from_char_arrs-concat m means.cwd_holds.text (cons is.text nil)
          (near, (is.short, tt)) (omega arith) room in
      rw means.cwd_set (made ∙ rw (append-nil v))

  add_value-Means :
      {conf : CmonConfig} {s : Settings} (e : ConfigEntry) (v : Bytes)
      → Means cwd conf s
      → IsValue v
      → Fits (with_value cwd e v s)
      → (conf' : CmonConfig) × (add_value m (chars v) e conf ≡ ok conf')
        × Means cwd conf' (with_value cwd e v s)
  unfolding add_value
  add_value-Means {conf} {s} watch_file_ext_names v means is fits =
      let few = room_for s.watch v fits.watch in
      let (a, e, r) =
        str_arr_add_new_char_arr-append m means.watch few is.text is.not_empty is.short
          (Allocates-Reliable m (length v) given) in
      (
        record conf { watch_ext_names = a },
        rw e,
        record {
          cwd_string = means.cwd_string;
          cwd_set = means.cwd_set;
          cwd_holds = means.cwd_holds;
          watch = Stands-append s.watch v r;
          files = means.files;
          dirs = means.dirs;
        },
      )
  add_value-Means {conf} {s} ignore_files v means is fits =
      let (a, e, r) =
        str_arr_add_from_str-append (of_text (cwd ++ v)) means.files
          (room_for s.files (cwd ++ v) fits.files) in
      (
        record conf { ignore_files_arr = a },
        rw (under_cwd-of_text means is, e),
        record {
          cwd_string = means.cwd_string;
          cwd_set = means.cwd_set;
          cwd_holds = means.cwd_holds;
          watch = means.watch;
          files = Stands-append s.files (cwd ++ v) r;
          dirs = means.dirs;
        },
      )
  add_value-Means {conf} {s} ignore_dirs v means is fits =
      let (a, e, r) =
        str_arr_add_from_str-append (of_text (cwd ++ v)) means.dirs
          (room_for s.dirs (cwd ++ v) fits.dirs) in
      (
        record conf { ignore_dirs_arr = a },
        rw (under_cwd-of_text means is, e),
        record {
          cwd_string = means.cwd_string;
          cwd_set = means.cwd_set;
          cwd_holds = means.cwd_holds;
          watch = means.watch;
          files = means.files;
          dirs = Stands-append s.dirs (cwd ++ v) r;
        },
      )

  -- The strings of a block, inside its braces.
  parse_list-values :
      (e : ConfigEntry) (vs : List Bytes) (rest : List Token) {conf : CmonConfig} {s : Settings}
      → Means cwd conf s
      → All IsValue vs
      → Fits (with_values cwd e vs s)
      → (conf' : CmonConfig) × (parse_list m (map string_token vs ++ rest) (inside e conf)
          ≡ parse_list m rest (inside e conf'))
        × Means cwd conf' (with_values cwd e vs s)
  unfolding parse_list parse_string
  parse_list-values e [] rest {conf} means is fits = (conf, refl, means)
  parse_list-values e (v ∷ vs) rest {s} means is fits =
      let s' = with_value cwd e v s in
      let (conf', added, means') = add_value-Means e v means is.0 (Fits-values cwd e vs s' fits) in
      let (conf'', parsed, means'') = parse_list-values e vs rest means' is.1 fits in
      (conf'', rw added parsed, means'')

  -- A block, from its label to its closing brace.
  parse_list-block :
      {conf : CmonConfig} {s : Settings} (b : Block) (rest : List Token)
      → Means cwd conf s
      → All IsValue b.values
      → Fits (with_values cwd b.entry b.values s)
      → (conf' : CmonConfig) × (parse_list m (block_tokens b ++ rest) (outside conf)
          ≡ parse_list m rest (outside conf'))
        × Means cwd conf' (with_values cwd b.entry b.values s)
  unfolding parse_list parse_label set_target
  parse_list-block {conf} b rest means is fits =
      let close = token c_curly_baracket null in
      let (conf', parsed, means') =
        parse_list-values b.entry b.values (close ∷ rest) means is fits in
      (
        conf',
        rw (entry_of-label b.entry, append_assoc (map string_token b.values) (close ∷ []) rest)
            parsed,
        means',
      )

  pub parse_list-blocks :
      (bs : List Block) (rest : List Token) {conf : CmonConfig} {s : Settings}
      → Means cwd conf s
      → All (λ b. All IsValue b.values) bs
      → Fits (with_blocks cwd bs s)
      → (conf' : CmonConfig) × (parse_list m (tokens bs ++ rest) (outside conf)
          ≡ parse_list m rest (outside conf'))
        × Means cwd conf' (with_blocks cwd bs s)
  parse_list-blocks [] rest {conf} means is fits = (conf, refl, means)
  parse_list-blocks (b ∷ bs) rest {s} means is fits =
      let s' = with_values cwd b.entry b.values s in
      let (conf', e, means') =
        parse_list-block b (tokens bs ++ rest) means is.0 (Fits-blocks cwd bs s' fits) in
      let (conf'', e', means'') = parse_list-blocks bs rest means' is.1 fits in
      (conf'', rw (append_assoc (block_tokens b) (tokens bs) rest) (e ∙ e'), means'')

-- `config_parser` on the tokens of a list of blocks adds the values of each block, in order, to the
-- array of its label, with the working directory in front of an ignored file or directory: for
-- values of 1 to 257 bytes, a working directory of at most 257, at most 50 items in each array, and
-- where `malloc` does not fail.
pub config_parser-blocks :
    (m : Allocator) {a : TokenArr} {conf : CmonConfig} {cwd : Bytes} {s : Settings}
    (bs : List Block)
    → Reliable m
    → IsTokens a (tokens bs)
    → Means cwd conf s
    → length cwd ≤ 257
    → All (λ b. All IsValue b.values) bs
    → Fits (with_blocks cwd bs s)
    → (conf' : CmonConfig) × (config_parser m a conf ≡ ok conf')
      × Means cwd conf' (with_blocks cwd bs s)
unfolding parse_list
config_parser-blocks m {conf} bs given is means near values fits =
    let (conf', parsed, means') = parse_list-blocks m given near bs [] means values fits in
    (conf', config_parser-list is m conf ∙ rw (rw append-nil at parsed), means')
