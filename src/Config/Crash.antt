-- ===== src/Config/Crash.antt =====
-- `config_parser` reads the token behind a label without asking whether there is one.
use cmon.Base.{◌≤◌, ◌≡◌, ◌∙◌, List, [], ◌∷◌, ◌++◌, length, All, fault}
use cmon.Text.{Bytes}
use cmon.Str.Alloc.{Allocator}
use cmon.Token.{text, Value, TokenArr}
use cmon.Token.Array.{IsTokens, Reliable, token}
use cmon.Config.{CmonConfig, config_parser, parse_label}
use cmon.Config.Blocks.{Block, tokens, Settings, Means, with_blocks, IsValue, Fits}
use cmon.Config.Parse.{parse_list, config_parser-list}
use cmon.Config.Values.{parse_list-blocks}

-- Where the last token is a text, behind any well-formed blocks, `config_parser` reads the type
-- of a token through NULL; the blocks have values of 1 to 257 bytes, the working directory has at
-- most 257, no array gets more than 50 items, and `malloc` does not fail.
pub config_parser-fault :
    (m : Allocator) {a : TokenArr} {conf : CmonConfig} {cwd : Bytes} {s : Settings}
    (bs : List Block) (v : Value)
    → Reliable m
    → IsTokens a (tokens bs ++ token text v ∷ [])
    → Means cwd conf s
    → length cwd ≤ 257
    → All (λ b. All IsValue b.values) bs
    → Fits (with_blocks cwd bs s)
    → config_parser m a conf ≡ fault
unfolding parse_list parse_label
config_parser-fault m {conf} bs v given is means near values fits =
    let (conf', parsed, means') =
      parse_list-blocks m given near bs (token text v ∷ []) means values fits in
    config_parser-list is m conf ∙ rw parsed
