-- ===== src/Client/Types.antt =====
-- The state of a GatewayClient. A call is a promise of `send` or `request` behind its `await`; its
-- serial number stands for the promise's identity. An attempt is one run of the body of `connect`,
-- with its socket, its timer and the listeners that it registered.
use node_red_contrib_pod_gat.Prelude.{ℕ, Bool, Option, List, String, Text}
use node_red_contrib_pod_gat.Map.{Map}
use node_red_contrib_pod_gat.Json.{Value}
use node_red_contrib_pod_gat.Gateway.Types.{Failure}

pub data Phase : Type 0 where
  disconnected connecting connected closed : Phase

-- The error object of a message.
pub record Problem : Type 0 where
  pub code : Option String
  pub message : Option Text
  pub retryable : Bool
  pub retry_after_ms : Option ℕ
  pub details : Option (List Text)

-- A message from the gateway. `is_ok` is `ok !== false`, `status_code` is
-- `response?.statusCode ?? _request?.output?.statusCode`, `body` is `_request?.output?.body`.
pub record Incoming : Type 0 where
  pub kind : Option String
  pub request_id : Option String
  pub is_ok : Bool
  pub problem : Option Problem
  pub duplicate_of : Option String
  pub status_code : Option ℕ
  pub body : Option Value
  pub capabilities : List Value

pub data Received : Type 0 where
  invalid : Received
  message : Incoming → Received

-- An entry of `pending` or of `aliases`.
pub record Call : Type 0 where
  pub serial : ℕ
  pub request_id : String
  pub waits_for_result : Bool
  pub accepted : Bool

-- How a promise is settled.
pub data Outcome : Type 0 where
  resolved : Incoming → Outcome
  rejected : Failure → Outcome

-- An armed timer of a call: `timer`, or `acceptedTimer`.
pub record Alarm : Type 0 where
  pub call : ℕ
  pub request_id : String
  pub waits_for_result : Bool

-- `is_open` is `readyState === OPEN`; `ws.send` of an open socket does not throw. `on_ack` and
-- `on_error` say that the listener is registered.
pub record Attempt : Type 0 where
  pub serial : ℕ
  pub is_open : Bool
  pub settled : Bool
  pub timer : Bool
  pub on_ack : Bool
  pub on_error : Bool

-- What the client emits, and what it puts on the wire.
pub data Signal : Type 0 where
  state_changed : Phase → Signal
  capabilities_listed : List Value → Signal
  heartbeat_received accepted_received result_received message_received : Incoming → Signal
  error_raised : Failure → Signal

pub data Frame : Type 0 where
  hello heartbeat : Frame
  envelope : String → Frame

-- How the promise of an attempt is settled.
pub data Handshake : Type 0 where
  acknowledged : Handshake
  refused : Failure → Handshake

-- `ws` is the attempt whose socket `this.ws` is, `connect_promise` the one whose promise is kept.
-- `timers` and `accept_timers` are the armed timers of the calls. `outcomes` has how each settled call
-- was settled first; `handshakes` the same for the attempts. `uncaught` counts the errors that were
-- thrown in an event handler.
pub record Client : Type 0 where
  pub has_url : Bool
  pub phase : Phase
  pub ws : Option ℕ
  pub attempts : List Attempt
  pub connect_promise : Option ℕ
  pub reconnect_timer : Bool
  pub heartbeat_timer : Bool
  pub closing : Bool
  pub auth_failed : Bool
  pub capabilities : List Value
  pub pending : Map String Call
  pub aliases : Map String (List Call)
  pub timers : List Alarm
  pub accept_timers : List Alarm
  pub next_call : ℕ
  pub next_attempt : ℕ
  pub outcomes : List (ℕ × Outcome)
  pub handshakes : List (ℕ × Handshake)
  pub signals : List Signal
  pub frames : List Frame
  pub uncaught : ℕ
