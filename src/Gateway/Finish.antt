-- ===== src/Gateway/Finish.antt =====
-- `_finish`, `_deliverResponse`, `_storePending`, `_findConnection` and the idempotency records.
pub mod Results
pub mod Targets
use node_red_contrib_pod_gat.Prelude.{
  ℕ, ◌+◌, ◌*◌, Bool, true, false, not, ◌&&◌, Option, none, some, List, [], ◌∷◌, String, Text,
  string_eq, nat_eq, ◌==◌, codes, is_some, or_else, first_some, if◌then◌else◌,
}
use mathlib.Core.Option
use node_red_contrib_pod_gat.Map.{Map, get, set, delete}
use node_red_contrib_pod_gat.Json.{Value, obj}
use node_red_contrib_pod_gat.Request.{Request, Schema, request_fields, normalize_request}
use node_red_contrib_pod_gat.Gateway.Types.{
  Gateway, Connection, Item, Failure, Envelope, Response, success, Outcome, Outcome.failure, Timer,
  Outgoing, result,
}
use node_red_contrib_pod_gat.Gateway.Send.{
  send, emit_metric, item_metric, error_payload, failure_of,
}
use node_red_contrib_pod_gat.Gateway.Timing.{total_ms}

-- What a claim finds: the original request, and its response if there is one.
pub record Duplicate : Type 0 where
  pub request_id : String
  pub response : Option Response

unfoldable pub claim_idempotency_sync : Gateway → String → Option Duplicate
claim_idempotency_sync g key = elim (get g.inflight_idempotency key) [
  | some item ↦ some (record { request_id = item.request_id; response = none })
  | none ↦ elim (get g.idempotency_results key) [
    | some r ↦ some (record { request_id = r.request_id; response = some r })
    | none ↦ none
  ]
]

unfoldable pub response_for_request : Response → String → Response
response_for_request r request_id =
    if r.request_id == request_id
    then r
    else record r { request_id = request_id; duplicate_of = some r.request_id }

unfoldable pub is_origin : Item → Option Connection → Bool
is_origin item none = false
is_origin item (some c) = c.authenticated && c.connection_id == item.connection_id

unfoldable pub find_origin : Gateway → Item → List ℕ → Option ℕ
find_origin g item [] = none
find_origin g item (ws ∷ rest) =
    if is_origin item (get g.objects ws) then some ws else find_origin g item rest

unfoldable pub has_hello : Option Connection → Bool
has_hello none = false
has_hello (some c) = c.authenticated

unfoldable pub current_of : Gateway → Option ℕ → Option ℕ
current_of g none = none
current_of g (some ws) = if has_hello (get g.objects ws) then some ws else none

-- The originating socket, else the latest one of the POD.
unfoldable pub find_connection : Gateway → Item → Option ℕ
find_connection g item =
    first_some (find_origin g item g.connections)
      (current_of g (get g.connections_by_pod item.pod_id))

-- `_storePending`
unfoldable pub store_pending : Gateway → String → String → Response → Gateway
store_pending g pod_id request_id r = record g {
  pending_results =
      set g.pending_results pod_id (set (or_else (get g.pending_results pod_id) []) request_id r);
}

unfoldable pub send_to : Gateway → Option ℕ → Response → Gateway × Bool
send_to g none r = (g, false)
send_to g (some ws) r = send g ws (result r)

-- `_deliverResponse`: sent, or kept for the POD's next connection.
unfoldable pub deliver_response : Gateway → Item → Response → Gateway × Bool
deliver_response g item r =
    let (sent, delivered) = send_to g (find_connection g item) r in
    if delivered then (sent, true) else (store_pending g item.pod_id item.request_id r, false)

-- How a request ends: with the adapter's value, or with an error.
pub data Ending : Type 0 where
  returned : Value → Ending
  raised : Failure → Ending

abbrev pub error_of : Ending → Option Failure
error_of (returned v) = none
error_of (raised e) = some e

abbrev pub outcome_of : Ending → Outcome
outcome_of (returned v) = success v
outcome_of (raised e) = failure (error_payload e)

abbrev pub ending_status : Ending → Option ℕ
ending_status (returned v) = none
ending_status (raised e) = e.status

abbrev pub ending_body : Ending → Option Value
ending_body (returned v) = some v
ending_body (raised e) = e.response_body

abbrev pub ending_code : Ending → String
ending_code (returned v) = ""
ending_code (raised e) = e.code

abbrev pub method_of : Option Schema → Option Text
method_of none = none
method_of (some s) = some s.method

-- `requestEnvelope` of an item that has ended.
unfoldable pub item_envelope : Item → Ending → Option ℕ → Envelope
item_envelope item ending status = record {
  method = method_of item.request_schema;
  request = normalize_request (some (obj (request_fields item.request)));
  payload = item.message.payload;
  status_code = status;
  body = ending_body ending;
  error = Option.map error_payload (error_of ending);
}

-- The response that `_finish` builds. `status` is the status code of the upstream response.
unfoldable pub build_response : ℕ → Item → Ending → Option ℕ → Response
build_response now item ending status =
    let code = first_some status (ending_status ending) in
    record {
      request_id = item.request_id;
      operation = item.operation.value;
      outcome = outcome_of ending;
      duration_ms = total_ms item now;
      status_code = code;
      envelope = item_envelope item ending code;
      duplicate_of = none;
    }

-- The idempotency record of a request that has ended, with the timer that drops it.
unfoldable pub settle_idempotency : Gateway → ℕ → Option String → Response → Gateway
settle_idempotency g now none r = g
settle_idempotency g now (some key) r = record g {
  inflight_idempotency = delete g.inflight_idempotency key;
  idempotency_results = set g.idempotency_results key r;
  expiries = record { due = now + g.result_ttl_seconds * 1000; value = key } ∷ g.expiries;
}

unfoldable pub finish : Gateway → ℕ → Item → Ending → Option ℕ → Gateway
finish g now item ending status =
    let r = build_response now item ending status in
    let settled = settle_idempotency g now item.dedup_key r in
    emit_metric (deliver_response settled item r).0
      (item_metric "request.completed" item (ending_code ending))
