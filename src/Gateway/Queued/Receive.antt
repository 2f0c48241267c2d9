-- ===== src/Gateway/Queued/Receive.antt =====
-- `_message` of a server with a shared queue, which passes a request on to `_enqueue` with the queue.
use node_red_contrib_pod_gat.Prelude.{
  ℕ, suc, false, not, some, ◌++◌, string_eq, codes, ltb, or_else, if◌then◌else◌,
}
use node_red_contrib_pod_gat.Result.{ok, throws}
use node_red_contrib_pod_gat.Protocol.Envelope.{is_request, validate_envelope}
use node_red_contrib_pod_gat.Gateway.Types.{
  Gateway, Connection, Message, Parsed, Outgoing, failed, heartbeat,
}
use node_red_contrib_pod_gat.Gateway.Send.{post}
use node_red_contrib_pod_gat.Gateway.Connect.{hello}
use node_red_contrib_pod_gat.Gateway.Enqueue.{caller_of}
use node_red_contrib_pod_gat.Gateway.Receive.{kind_is}
use node_red_contrib_pod_gat.Gateway.Queued.{Backend, Server}
use node_red_contrib_pod_gat.Gateway.Queued.Requests.{enqueue}

module _ (b : Backend) where
  abbrev pub with_gateway : Server b → Gateway → Server b
  with_gateway s g = record s { gateway = g }

  abbrev answer : Server b → ℕ → Outgoing → Server b
  answer s ws m = with_gateway s (post s.gateway ws m)

  unfoldable pub request : Server b → ℕ → ℕ → Connection → Message → Server b
  request s now ws c m = elim (validate_envelope m.kind m.request_id m.operation) [
    | throws e ↦ answer s ws (failed m.request_id "INVALID_REQUEST" e false)
    | ok _ ↦ enqueue b s now (caller_of ws c) m
  ]

  unfoldable pub dispatch : Server b → ℕ → ℕ → Connection → Message → Server b
  dispatch s now ws c m =
      if kind_is "hello" m.kind
      then with_gateway s (hello s.gateway ws c m)
      else if kind_is "heartbeat" m.kind
      then answer s ws (heartbeat now)
      else if not c.authenticated
      then answer s ws
          (failed m.request_id "NOT_AUTHENTICATED" (codes "Send hello before requests") false)
      else if not (is_request m.kind)
      then answer s ws (
          failed m.request_id "UNSUPPORTED_MESSAGE"
            (codes "Unsupported message type: " ++ codes (or_else m.kind "undefined")) false)
      else request s now ws c m

  unfoldable pub parsed : Server b → ℕ → ℕ → Connection → Parsed → Server b
  parsed s now ws c Parsed.invalid =
      answer s ws (failed (some "") "INVALID_MESSAGE" (codes "Message must be valid JSON") false)
  parsed s now ws c Parsed.null =
      with_gateway s (record s.gateway { unhandled = suc s.gateway.unhandled })
  parsed s now ws c (Parsed.message m) = dispatch s now ws c m

  unfoldable pub receive : Server b → ℕ → ℕ → Connection → ℕ → Parsed → Server b
  receive s now ws c bytes frame =
      if ltb s.gateway.max_message_bytes bytes
      then answer s ws (
          failed (some "") "MESSAGE_TOO_LARGE"
            (codes "Gateway message exceeds the configured size limit") false)
      else parsed s now ws c frame
