-- ===== src/Protocol.antt =====
-- lib/protocol.js: the priorities, the operation keys and the checks on an incoming message.
-- An operation key is a list of UTF-16 code units, since the code walks it. A value that is not a
-- string is `none`.
pub mod Text
pub mod Operations
pub mod Envelope
pub mod Examples
use node_red_contrib_pod_gat.Prelude.{
  ℕ, suc, ◌+◌, ◌-◌, ◌≡◌, Bool, true, false, not, ◌&&◌, ◌||◌, Option, none, some, List, [], ◌∷◌,
  String, length, nonempty, all, take, drop, leb, eqb, codes, ◌==◌, string_eq, if◌then◌else◌,
}
use node_red_contrib_pod_gat.Prelude
use node_red_contrib_pod_gat.Result.{Result, ok, throws}
use Text.{trim, index_of}

abbrev pub protocol_version : String
protocol_version = "1.0"

-- `PRIORITY[name]`, `none` for `undefined`.
unfoldable pub priority : String → Option ℕ
priority name = if name == "normal" then some 1 else if name == "bulk" then some 0 else none

pub record Operation : Type 0 where
  pub service : Prelude.Text
  pub operation : Prelude.Text
  pub value : Prelude.Text

abbrev is_alphanumeric : ℕ → Bool
is_alphanumeric c = leb b'A' c && leb c b'Z' || leb b'a' c && leb c b'z' || leb b'0' c && leb c b'9'

-- [A-Za-z0-9._-]
unfoldable pub is_service_char : ℕ → Bool
is_service_char c = is_alphanumeric c || eqb c b'.' || eqb c b'_' || eqb c b'-'

-- [A-Za-z0-9._:-]
unfoldable pub is_name_char : ℕ → Bool
is_name_char c = is_alphanumeric c || eqb c b'.' || eqb c b'_' || eqb c b':' || eqb c b'-'

check_characters : Prelude.Text → Prelude.Text → Prelude.Text → Result Operation
check_characters service name value =
    if not (nonempty service && all is_service_char service)
      || not (nonempty name && all is_name_char name)
    then throws (codes "operation contains unsupported characters")
    else ok (record { service = service; operation = name; value = value })

split_operation : Prelude.Text → Option ℕ → Result Operation
unfolding check_characters
split_operation value none = throws (codes "operation must use the form service/name")
split_operation value (some slash) =
    if eqb slash 0 || eqb (slash + 1) (length value)
    then throws (codes "operation must use the form service/name")
    else check_characters (take slash value) (drop (slash + 1) value) value

unfoldable pub parse_operation : Option Prelude.Text → Result Operation
unfolding split_operation
parse_operation none = throws (codes "operation must be a non-empty string")
parse_operation (some operation) =
    let value = trim operation in
    if nonempty value
    then split_operation value (index_of b'/' value)
    else throws (codes "operation must be a non-empty string")
