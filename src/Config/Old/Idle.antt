-- ===== src/Config/Old/Idle.antt =====
-- What `cmon_parse_config` can do, with the tokenizer that it calls.
use cmon.Base.{◌≡◌, ◌⊎◌, inl, inr, Option, List, false, ok, fault}
use cmon.Text.{Bytes}
use cmon.Str.Alloc.{Allocator}
use cmon.Str.CStr.{CStrs, concat}
use cmon.Token.{Token}
use cmon.Token.Old.Empty.{has_brace, cmon_tokenizer-Tokenless}
use cmon.Config.{CmonConfig}
use cmon.Config.Old.{parse_config}

-- `cmon_parse_config` never reads a setting: it is a fault for every file with a brace in it, so
-- for every file with a block; for any other file it is a fault, or leaves the configuration as it
-- is.
pub parse_config-idle :
    (memory : Option (List Token)) (m : Allocator) (lexem : Bytes) {lines ss : List Bytes}
    (conf : CmonConfig)
    → CStrs lines ss
    → (parse_config memory m lexem lines conf ≡ fault)
      ⊎ ((parse_config memory m lexem lines conf ≡ ok conf) × (has_brace (concat ss) ≡ false))
unfolding parse_config
parse_config-idle memory m lexem conf cs = elim (cmon_tokenizer-Tokenless memory m lexem cs) [
  | inl e ↦ inl (rw e)
  | inr (a, e, empty, no_brace) ↦ inr (rw (e, empty), no_brace)
]
