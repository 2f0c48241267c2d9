-- ===== src/Gateway/Types.antt =====
-- The data of lib/gateway-server.js: messages, items, responses, connections and the state of a
-- GatewayServer that has no Redis queue. `undefined` and `null` are `none`. Times are in
-- milliseconds. An item carries a serial number, which stands for the identity of its object.
use node_red_contrib_pod_gat.Prelude.{
  ℕ, Bool, Option, none, some, List, String, Text, string_eq, ◌==◌, if◌then◌else◌,
}
use node_red_contrib_pod_gat.Map.{Map}
use node_red_contrib_pod_gat.Json.{Value}
use node_red_contrib_pod_gat.Protocol.{Operation}
use node_red_contrib_pod_gat.Request.{Request, Schema}
use node_red_contrib_pod_gat.RateLimit.{Limit}

-- `value || undefined` of a string.
abbrev pub truthy : Option String → Option String
truthy none = none
truthy (some s) = if s == "" then none else some s

-- A message from a POD. `deadline_at` is what `Date.parse` makes of it, `none` where that is not a
-- number: both `_expired` and `_execute` then act as if there were no deadline.
pub record Message : Type 0 where
  pub kind : Option String
  pub request_id : Option String
  pub operation : Option Text
  pub payload : Value
  pub request : Option Value
  pub priority : Option String
  pub idempotency_key : Option String
  pub deadline_at : Option ℕ
  pub upstream_timeout_ms : Option ℕ
  pub pod_id : Option String
  pub instance_id : Option String
  pub protocol_version : Option String

-- `JSON.parse(data.toString())`
pub data Parsed : Type 0 where
  invalid : Parsed
  null : Parsed
  message : Message → Parsed

-- An operation of the `adapters` map; `callable` says that its `execute` is a function.
pub record Adapter : Type 0 where
  pub label : Option String
  pub description : Option String
  pub input_schema : Option Value
  pub request_schema : Option Schema
  pub rate_limit : Option Limit
  pub callable : Bool

pub record Capability : Type 0 where
  pub operation : Text
  pub label : Option String
  pub description : Option String
  pub input_schema : Option Value
  pub request_schema : Option Schema

-- What an error object carries.
pub record Failure : Type 0 where
  pub code : String
  pub message : Text
  pub retryable : Bool
  pub retry_after_ms : Option ℕ
  pub details : Option (List Text)
  pub status : Option ℕ
  pub response_body : Option Value

-- The result of `errorPayload`.
pub record ErrorPayload : Type 0 where
  pub code : String
  pub message : Text
  pub retryable : Bool
  pub retry_after_ms : Option ℕ
  pub details : Option (List Text)

-- The result of `requestEnvelope`: its `input`, then its `output`.
pub record Envelope : Type 0 where
  pub method : Option Text
  pub request : Request
  pub payload : Value
  pub status_code : Option ℕ
  pub body : Option Value
  pub error : Option ErrorPayload

pub data Outcome : Type 0 where
  success : Value → Outcome
  failure : ErrorPayload → Outcome

-- A message of type `result` that `_finish` builds.
pub record Response : Type 0 where
  pub request_id : String
  pub operation : Text
  pub outcome : Outcome
  pub duration_ms : ℕ
  pub status_code : Option ℕ
  pub envelope : Envelope
  pub duplicate_of : Option String

pub data Outgoing : Type 0 where
  failed : Option String → String → Text → Bool → Outgoing
  rejected : Option String → ErrorPayload → Envelope → Outgoing
  hello_error : String → Text → Outgoing
  hello_ack : String → List Capability → Outgoing
  heartbeat : ℕ → Outgoing
  capabilities : List Capability → Outgoing
  accepted : String → ℕ → Outgoing
  queued : String → ℕ → Outgoing
  duplicate : String → String → Outgoing
  result : Response → Outgoing

-- A connection object. `ready` is `readyState === OPEN`; `sends` says that `ws.send` does not throw.
pub record Connection : Type 0 where
  pub connection_id : String
  pub authenticated : Bool
  pub pod_id : Option String
  pub instance_id : Option String
  pub ready : Bool
  pub sends : Bool

pub record Item : Type 0 where
  pub serial : ℕ
  pub connection_id : String
  pub pod_id : String
  pub instance_id : String
  pub request_id : String
  pub message : Message
  pub request : Request
  pub operation : Operation
  pub rate_limit : Option Limit
  pub request_schema : Option Schema
  pub received_at : ℕ
  pub enqueued_at : ℕ
  pub last_queued_at : ℕ
  pub rate_limit_blocked_at : Option ℕ
  pub queue_wait_ms : ℕ
  pub rate_limit_wait_ms : ℕ
  pub upstream_ms : ℕ
  pub last_upstream_ms : ℕ
  pub attempts : ℕ
  pub timeout_ms : ℕ
  pub dedup_key : Option String

-- An event of `_emitMetric`; of its extra fields the error code.
pub record Metric : Type 0 where
  pub event : String
  pub item : Option ℕ
  pub request_id : String
  pub pod_id : String
  pub operation_key : Text
  pub error_code : String

pub record Config : Type 0 where
  pub max_queue_size : ℕ
  pub max_message_bytes : ℕ
  pub concurrency : ℕ
  pub upstream_timeout_ms : ℕ
  pub max_attempts : ℕ
  pub result_ttl_seconds : ℕ

-- Where the asynchronous block of `_pump` stands: not running, before the test of its loop, or
-- waiting for the rate limiter's decision about an item.
pub data Pump : Type 0 where
  parked turning : Pump
  deciding : Item → Pump

-- A timer: when it is due, and what it was set for.
pub record Timer {ℓ} (A : Type ℓ) : Type ℓ where
  pub due : ℕ
  pub value : A

-- The server. `objects` holds every connection object, `connections` the keys of the map of that
-- name. `handshakes` are the `hello` messages that wait for `authenticate`, `executing` the items
-- whose adapter runs, `settling` counts the executions whose `finally` has not run, `delayed` are
-- the retries that wait for their timer, `expiries` the timers that drop idempotency results.
-- `sent`, `metrics` and `unhandled` record the effects, the latest first.
pub record Gateway : Type 0 where
  pub config : Config
  pub open config use *
  pub started : Bool
  pub adapters : Map Text Adapter
  pub memory_queue : List Item
  pub active : ℕ
  pub pump : Pump
  pub pump_timer : Option ℕ
  pub objects : Map ℕ Connection
  pub connections : List ℕ
  pub connections_by_pod : Map String ℕ
  pub pending_results : Map String (Map String Response)
  pub inflight_idempotency : Map String Item
  pub idempotency_results : Map String Response
  pub broadcast_pending : Bool
  pub handshakes : List (ℕ × Message)
  pub executing : List Item
  pub settling : ℕ
  pub delayed : List (Timer Item)
  pub expiries : List (Timer String)
  pub next_serial : ℕ
  pub sent : List (ℕ × Outgoing)
  pub metrics : List Metric
  pub unhandled : ℕ
