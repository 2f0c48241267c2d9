-- ===== src/Protocol/Envelope.antt =====
-- `validateEnvelope` of lib/protocol.js, on an object. A field that is not a string is `none`.
use node_red_contrib_pod_gat.Prelude.{
  Bool, true, false, ◌||◌, Option, none, some, String, Text, string_eq, codes, ◌==◌, if◌then◌else◌,
}
use node_red_contrib_pod_gat.Result.{Result, ok, throws, ◌>>◌}
use node_red_contrib_pod_gat.Protocol.{parse_operation}

-- `['call', 'event'].includes(type)`
unfoldable pub is_request : Option String → Bool
is_request none = false
is_request (some kind) = kind == "call" || kind == "event"

abbrev missing : Option String → Bool
missing none = true
missing (some id) = id == ""

unfoldable pub validate_envelope : Option String → Option String → Option Text → Result (Unit {0})
unfolding is_request
validate_envelope none request_id operation = throws (codes "message.type is required")
validate_envelope (some kind) request_id operation =
    if is_request (some kind)
    then if missing request_id
      then throws (codes "requestId is required")
      else (do parse_operation operation; ok tt)
    else ok tt
