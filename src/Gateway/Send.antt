-- ===== src/Gateway/Send.antt =====
-- `_send`, `_emitMetric`, `_failed`, `_error`, `errorPayload` and the capabilities messages.
use node_red_contrib_pod_gat.Prelude.{
  ℕ, Bool, true, false, ◌&&◌, Option, none, some, List, [], ◌∷◌, String, Text, string_eq, nat_eq,
  text_eq, ◌==◌, codes, nonempty, is_some, if◌then◌else◌,
}
use node_red_contrib_pod_gat.Map.{Map, get, set, delete}
use node_red_contrib_pod_gat.Result.{ok, throws}
use node_red_contrib_pod_gat.Protocol.{parse_operation}
use node_red_contrib_pod_gat.Gateway.Types.{
  Gateway, Connection, Item, Metric, Outgoing, Failure, ErrorPayload, Adapter, Capability, truthy,
  Outgoing.capabilities,
}

abbrev pub is_open : Option Connection → Bool
is_open none = false
is_open (some c) = c.ready && c.sends

-- `_send`: true if the message was handed to an open socket.
unfoldable pub send : Gateway → ℕ → Outgoing → Gateway × Bool
send g ws m =
    if is_open (get g.objects ws) then (record g { sent = (ws, m) ∷ g.sent }, true) else (g, false)

unfoldable pub post : Gateway → ℕ → Outgoing → Gateway
post g ws m = (send g ws m).0

unfoldable pub emit_metric : Gateway → Metric → Gateway
emit_metric g m = record g { metrics = m ∷ g.metrics }

-- A metric about an item.
abbrev pub item_metric : String → Item → String → Metric
item_metric event item code = record {
  event = event;
  item = some item.serial;
  request_id = item.request_id;
  pod_id = item.pod_id;
  operation_key = item.operation.value;
  error_code = code;
}

-- `_error(code, message, retryable)`
abbrev pub failure_of : String → Text → Bool → Failure
failure_of code message retryable = record {
  code = code;
  message = message;
  retryable = retryable;
  retry_after_ms = none;
  details = none;
  status = none;
  response_body = none;
}

-- `errorPayload(error)` without defaults.
unfoldable pub error_payload : Failure → ErrorPayload
error_payload e = record {
  code = if e.code == "" then "GATEWAY_ERROR" else e.code;
  message = if nonempty e.message then e.message else codes "Gateway request failed";
  retryable = e.retryable;
  retry_after_ms = e.retry_after_ms;
  details = e.details;
}

unfoldable pub capability : Text → Adapter → Capability
capability operation a = record {
  operation = operation;
  label = truthy a.label;
  description = truthy a.description;
  input_schema = a.input_schema;
  request_schema = a.request_schema;
}

unfoldable pub capability_list : Map Text Adapter → List Capability
capability_list [] = []
capability_list ((operation, a) ∷ adapters) = capability operation a ∷ capability_list adapters

unfoldable pub is_authenticated : Option Connection → Bool
is_authenticated none = false
is_authenticated (some c) = c.authenticated

-- The loop of `_broadcastCapabilities` over the connections.
unfoldable pub broadcast_to : List ℕ → List Capability → Gateway → Gateway
broadcast_to [] items g = g
broadcast_to (ws ∷ rest) items g =
    broadcast_to rest items
      (if is_authenticated (get g.objects ws) then post g ws (capabilities items) else g)

-- The callback that `_scheduleCapabilitiesBroadcast` hands to `process.nextTick`.
unfoldable pub broadcast_capabilities : Gateway → Gateway
broadcast_capabilities g =
    if g.broadcast_pending
    then broadcast_to g.connections (capability_list g.adapters)
        (record g { broadcast_pending = false })
    else g

-- `registerOperation`: a key that does not parse throws, and changes nothing.
unfoldable pub register_operation : Gateway → Text → Adapter → Gateway
register_operation g operation adapter = elim (parse_operation (some operation)) [
  | throws e ↦ g
  | ok o ↦ record g { adapters = set g.adapters operation adapter; broadcast_pending = true }
]

unfoldable pub unregister_operation : Gateway → Text → Gateway × Bool
unregister_operation g operation = elim (parse_operation (some operation)) [
  | throws e ↦ (g, false)
  | ok o ↦
      if is_some (get g.adapters operation)
      then (record g { adapters = delete g.adapters operation; broadcast_pending = true }, true)
      else (g, false)
]
