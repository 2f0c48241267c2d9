-- ===== src/Gateway/Enqueue.antt =====
-- `_enqueue` without a Redis queue. It runs to its end without waiting.
use node_red_contrib_pod_gat.Prelude.{
  ℕ, suc, Bool, true, false, Option, none, some, List, [], ◌∷◌, ◌++◌, String, Text, string_eq,
  text_eq, ◌==◌, codes, nonempty, or_else, leb, eqb, length, if◌then◌else◌,
}
use Prim.Native.String.{◌++◌ as ◌<>◌}
use node_red_contrib_pod_gat.Map.{get, set}
use node_red_contrib_pod_gat.Result.{ok, throws}
use node_red_contrib_pod_gat.Json.{str, Fields, end, field}
use node_red_contrib_pod_gat.Protocol.{Operation, parse_operation}
use node_red_contrib_pod_gat.Request.{Schema, normalize_request}
use node_red_contrib_pod_gat.Request.Validation.{validate_request, join_errors}
use node_red_contrib_pod_gat.Gateway.Types.{
  Gateway, Connection, Message, Adapter, Item, Failure, Metric, failed, rejected, accepted,
  duplicate, result,
}
use node_red_contrib_pod_gat.Gateway.Send.{post, emit_metric, item_metric, error_payload}
use node_red_contrib_pod_gat.Gateway.Sorting.{sort_items}
use node_red_contrib_pod_gat.Gateway.Finish.{
  Duplicate, claim_idempotency_sync, response_for_request, method_of,
}
use node_red_contrib_pod_gat.Gateway.Pump.{start_pump}

-- A metric about a message that became no item.
abbrev pub message_metric : String → String → String → Operation → String → Metric
message_metric event request_id pod_id o code = record {
  event = event;
  item = none;
  request_id = request_id;
  pod_id = pod_id;
  operation_key = o.value;
  error_code = code;
}

-- The POD and the connection that a request comes from.
pub record Caller : Type 0 where
  pub ws : ℕ
  pub connection_id : String
  pub pod_id : String
  pub instance_id : String

abbrev pub caller_of : ℕ → Connection → Caller
caller_of ws c = record {
  ws = ws;
  connection_id = c.connection_id;
  pod_id = or_else c.pod_id "";
  instance_id = or_else c.instance_id "";
}

unfoldable pub reject : Gateway → Caller → String → Operation → String → Text → Bool → Gateway
reject g who id o code message retryable =
    post (emit_metric g (message_metric "request.rejected" id who.pod_id o code)) who.ws
      (failed (some id) code message retryable)

abbrev pub context_of : Caller → String → Operation → Fields
context_of who id o = field (codes "requestId") (str (codes id)) (
    field (codes "podId") (str (codes who.pod_id))
      (field (codes "service") (str o.service) (field (codes "operation") (str o.operation) end)))

-- `validationError(validation)`
unfoldable pub validation_failure : List Text → Failure
validation_failure errors = record {
  code = "REQUEST_VALIDATION_FAILED";
  message =
      if nonempty (join_errors errors)
      then join_errors errors
      else codes "Gateway request is invalid";
  retryable = false;
  retry_after_ms = none;
  details = some errors;
  status = none;
  response_body = none;
}

unfoldable pub reject_invalid :
    Gateway → Caller → String → Operation → Option Schema → Message → List Text → Gateway
reject_invalid g who id o schema m errors =
    let e = error_payload (validation_failure errors) in
    post (emit_metric g (message_metric "request.rejected" id who.pod_id o e.code)) who.ws (
      rejected (some id) e (record {
        method = method_of schema;
        request = normalize_request m.request;
        payload = m.payload;
        status_code = none;
        body = none;
        error = some e;
      }))

-- `${connection.podId}:${idempotencyKey}`
unfoldable pub dedup_key_of : String → Option String → Option String
dedup_key_of pod_id none = none
dedup_key_of pod_id (some key) = if key == "" then none else some (◌<>◌ pod_id (◌<>◌ ":" key))

unfoldable pub answer_duplicate : Gateway → Caller → String → Operation → Duplicate → Gateway
answer_duplicate g who id o d =
    let told = emit_metric g (message_metric "request.duplicate" id who.pod_id o "") in
    elim d.response [
      | some r ↦ post told who.ws (result (response_for_request r id))
      | none ↦ post told who.ws (duplicate id d.request_id)
    ]

unfoldable pub new_item :
    Gateway → ℕ → Caller → String → Operation → Adapter → Message → Option String → Item
new_item g now who id o a m key = record {
  serial = g.next_serial;
  connection_id = who.connection_id;
  pod_id = who.pod_id;
  instance_id = who.instance_id;
  request_id = id;
  message = m;
  request = normalize_request m.request;
  operation = o;
  rate_limit = a.rate_limit;
  request_schema = a.request_schema;
  received_at = now;
  enqueued_at = now;
  last_queued_at = now;
  rate_limit_blocked_at = none;
  queue_wait_ms = 0;
  rate_limit_wait_ms = 0;
  upstream_ms = 0;
  last_upstream_ms = 0;
  attempts = 0;
  timeout_ms = 0;
  dedup_key = key;
}

unfoldable pub reserve : Gateway → Option String → Item → Gateway
reserve g none item = g
reserve g (some key) item = record g { inflight_idempotency = set g.inflight_idempotency key item }

-- `memoryQueue.indexOf(item)`
unfoldable pub position : ℕ → List Item → ℕ
position n [] = 0
position n (x ∷ xs) = if eqb x.serial n then 0 else suc (position n xs)

-- The request becomes an item of the queue.
unfoldable pub push_item : Gateway → Caller → Item → Gateway
push_item g who item =
    let received = emit_metric g (item_metric "request.received" item "") in
    let reserved = reserve received item.dedup_key item in
    let pushed = record reserved {
      memory_queue = sort_items (g.memory_queue ++ item ∷ []);
      next_serial = suc g.next_serial;
    } in
    let told = emit_metric pushed (item_metric "request.accepted" item "") in
    start_pump
      (post told who.ws (accepted item.request_id (suc (position item.serial told.memory_queue))))

unfoldable pub claim_of : Gateway → Option String → Option Duplicate
claim_of g none = none
claim_of g (some key) = claim_idempotency_sync g key

unfoldable pub claim_and_push :
    Gateway → ℕ → Caller → String → Operation → Adapter → Message → Gateway
claim_and_push g now who id o a m =
    let key = dedup_key_of who.pod_id m.idempotency_key in
    elim (claim_of g key) [
      | some d ↦ answer_duplicate g who id o d
      | none ↦ push_item g who (new_item g now who id o a m key)
    ]

unfoldable pub validated :
    Gateway → ℕ → Caller → String → Operation → Adapter → Message → List Text → Gateway
validated g now who id o a m (e ∷ es) = reject_invalid g who id o a.request_schema m (e ∷ es)
validated g now who id o a m [] =
    if leb g.max_queue_size (length g.memory_queue)
    then reject g who id o "QUEUE_FULL" (codes "Gateway queue is full") true
    else claim_and_push g now who id o a m

unfoldable pub registered :
    Gateway → ℕ → Caller → String → Operation → Option Adapter → Message → Gateway
registered g now who id o none m =
    reject g who id o "OPERATION_NOT_FOUND" (codes "Operation is not registered: " ++ o.value) false
registered g now who id o (some a) m =
    validated g now who id o a m
      (validate_request m.payload m.request a.request_schema (context_of who id o))

-- `_enqueue`: an operation that does not parse throws, which nobody catches.
unfoldable pub enqueue : Gateway → ℕ → Caller → Message → Gateway
enqueue g now who m = elim (parse_operation m.operation) [
  | throws e ↦ record g { unhandled = suc g.unhandled }
  | ok o ↦ registered g now who (or_else m.request_id "") o (get g.adapters o.value) m
]
