-- ===== src/Gateway/Receive.antt =====
-- `_message`: what the gateway does with a frame of a socket.
pub mod Admission
use node_red_contrib_pod_gat.Prelude.{
  ℕ, suc, Bool, true, false, not, Option, none, some, List, [], ◌∷◌, ◌++◌, String, Text, string_eq,
  nat_eq, ◌==◌, codes, ltb, or_else, if◌then◌else◌,
}
use node_red_contrib_pod_gat.Map.{get}
use node_red_contrib_pod_gat.Result.{Result, ok, throws}
use node_red_contrib_pod_gat.Protocol.Envelope.{is_request, validate_envelope}
use node_red_contrib_pod_gat.Gateway.Types.{
  Gateway, Connection, Message, Parsed, Outgoing, failed, heartbeat,
}
use node_red_contrib_pod_gat.Gateway.Send.{post}
use node_red_contrib_pod_gat.Gateway.Connect.{hello}
use node_red_contrib_pod_gat.Gateway.Enqueue.{caller_of, enqueue}

abbrev pub kind_is : String → Option String → Bool
kind_is name none = false
kind_is name (some kind) = kind == name

-- A call or an event of an authenticated connection.
unfoldable pub request : Gateway → ℕ → ℕ → Connection → Message → Gateway
request g now ws c m = elim (validate_envelope m.kind m.request_id m.operation) [
  | throws e ↦ post g ws (failed m.request_id "INVALID_REQUEST" e false)
  | ok _ ↦ enqueue g now (caller_of ws c) m
]

unfoldable pub dispatch : Gateway → ℕ → ℕ → Connection → Message → Gateway
dispatch g now ws c m =
    if kind_is "hello" m.kind
    then hello g ws c m
    else if kind_is "heartbeat" m.kind
    then post g ws (heartbeat now)
    else if not c.authenticated
    then post g ws
        (failed m.request_id "NOT_AUTHENTICATED" (codes "Send hello before requests") false)
    else if not (is_request m.kind)
    then post g ws (
        failed m.request_id "UNSUPPORTED_MESSAGE"
          (codes "Unsupported message type: " ++ codes (or_else m.kind "undefined")) false)
    else request g now ws c m

-- `message.type` of `null` throws, which nobody catches.
unfoldable pub parsed : Gateway → ℕ → ℕ → Connection → Parsed → Gateway
parsed g now ws c Parsed.invalid =
    post g ws (failed (some "") "INVALID_MESSAGE" (codes "Message must be valid JSON") false)
parsed g now ws c Parsed.null = record g { unhandled = suc g.unhandled }
parsed g now ws c (Parsed.message m) = dispatch g now ws c m

-- A frame of so many bytes.
unfoldable pub receive : Gateway → ℕ → ℕ → Connection → ℕ → Parsed → Gateway
receive g now ws c bytes frame =
    if ltb g.max_message_bytes bytes
    then post g ws (
        failed (some "") "MESSAGE_TOO_LARGE"
          (codes "Gateway message exceeds the configured size limit") false)
    else parsed g now ws c frame
