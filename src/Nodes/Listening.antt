-- ===== src/Nodes/Listening.antt =====
-- What nodes/gateway-in.js and nodes/gateway-metrics.js pass on of the messages and the metrics that they
-- listen to. An operation of a message is a text; one that is missing is empty.
use node_red_contrib_pod_gat.Prelude.{
  ℕ, Bool, false, not, ◌&&◌, ◌||◌, Option, none, some, List, [], ◌∷◌, Text, text_eq, ◌==◌, codes,
  eqb, any, nonempty, take, drop, suc, if◌then◌else◌,
}
use node_red_contrib_pod_gat.Json.{Value}
use node_red_contrib_pod_gat.Protocol.Text.{trim, index_of}

-- A message of the client, of which the node reads these fields. `request_id` is `requestId ||
-- messageId`, `status_code` the first of the three places where it may stand.
pub record Heard : Type 0 where
  pub operation : Text
  pub event : Option Text
  pub request_id : Option Text
  pub payload : Value
  pub request : Option Value
  pub is_failed : Bool
  pub status_code : Option ℕ
  pub error : Option Value

pub record Passed : Type 0 where
  pub payload : Value
  pub request : Option Value
  pub request_id : Option Text
  pub service : Text
  pub operation : Text
  pub operation_key : Text
  pub status : Text
  pub event : Option Text
  pub http_status : Option ℕ
  pub error : Option Value

abbrev pub is_event : Text → Option Text → Bool
is_event filter none = false
is_event filter (some e) = filter == e

-- The first part of the operation, and the others joined again.
unfoldable pub service_of : Text → Text
service_of operation = elim (index_of b'/' operation) [ none ↦ [] | some n ↦ take n operation ]

unfoldable pub name_of : Text → Text
name_of operation = elim (index_of b'/' operation) [
  | none ↦ operation
  | some n ↦ drop (suc n) operation
]

-- The listener of a gateway-in node.
unfoldable pub message_heard : Option Text → Heard → Option Passed
message_heard configured h =
    let filter = trim (or_blank configured) in
    if nonempty filter && (not (filter == h.operation) && not (is_event filter h.event))
    then none
    else some (record {
      payload = h.payload;
      request = h.request;
      request_id = h.request_id;
      service = service_of h.operation;
      operation = name_of h.operation;
      operation_key = h.operation;
      status = codes (if h.is_failed then "failed" else "received");
      event = h.event;
      http_status = h.status_code;
      error = h.error;
    })
  where
    or_blank : Option Text → Text
    or_blank none = []
    or_blank (some t) = t

-- `split(',')`
unfoldable pub split_commas : Text → List Text
split_commas [] = [] ∷ []
split_commas (c ∷ s) =
    let rest = split_commas s in
    if eqb c b',' then [] ∷ rest else elim rest [ [] ↦ (c ∷ []) ∷ [] | (x ∷ xs) ↦ (c ∷ x) ∷ xs ]

unfoldable pub trimmed_names : List Text → List Text
trimmed_names [] = []
trimmed_names (x ∷ xs) =
    let rest = trimmed_names xs in if nonempty (trim x) then trim x ∷ rest else rest

-- Whether a gateway-metrics node passes the metric of this event on.
unfoldable pub metric_heard : Text → Text → Bool
metric_heard events event =
    let filters = trimmed_names (split_commas events) in
    not (nonempty filters) || any (λ f. f == event) filters
