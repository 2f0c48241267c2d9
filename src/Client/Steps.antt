-- ===== src/Client/Steps.antt =====
-- The client's event loop: what a caller, the sockets and the timers may do, in any order. A call is the
-- part of `send` or `request` behind `await this.connect()`.
use node_red_contrib_pod_gat.Prelude.{
  ℕ, Bool, true, false, Option, none, List, [], ◌∷◌, String, codes, string_eq, if◌then◌else◌,
}
use node_red_contrib_pod_gat.Gateway.Types.{Failure, truthy}
use node_red_contrib_pod_gat.Gateway.Send.{failure_of}
use node_red_contrib_pod_gat.Client.Types.{
  Client, Received, invalid, message, Incoming, disconnected, capabilities_listed, error_raised,
  heartbeat_received,
}
use node_red_contrib_pod_gat.Client.Calls.{call, timer_fires, accept_timer_fires}
use node_red_contrib_pod_gat.Client.Messages.{emit, is_kind, answer}
use node_red_contrib_pod_gat.Client.Connection.{
  connect, close, socket_opens, socket_closes, connect_timer_fires, reconnect_fires,
  heartbeat_fires, on_hello_ack, on_hello_error, each_attempt,
}

unfoldable pub invalid_message : Failure
invalid_message = failure_of "INVALID_GATEWAY_MESSAGE" (codes "Gateway sent invalid JSON") false

-- `_handleMessage` of a JSON object.
unfoldable pub handle_incoming : Client → Incoming → Client
handle_incoming c m =
    if is_kind "hello_ack" m
    then each_attempt (λ d a. on_hello_ack d m a) c c.attempts
    else if is_kind "hello_error" m
    then each_attempt (λ d a. on_hello_error d m a) c c.attempts
    else if is_kind "capabilities" m
    then emit (record c { capabilities = m.capabilities }) (capabilities_listed m.capabilities)
    else if is_kind "heartbeat" m
    then emit c (heartbeat_received m)
    else answer c m (truthy m.request_id)

unfoldable pub handle_message : Client → Received → Client
handle_message c invalid = emit c (error_raised invalid_message)
handle_message c (message m) = handle_incoming c m

pub data Event : Type 0 where
  connects : Option Failure → Event
  closes : Event
  sends requests : String → Event
  receives : Received → Event
  opens socket_closed : ℕ → Event
  socket_fails : Failure → Event
  connect_timer call_timer accept_timer : ℕ → Event
  reconnect_timer : Option Failure → Event
  heartbeat_timer : Event

unfoldable pub step : Client → Event → Client
step c (connects thrown) = (connect c thrown).0
step c closes = close c
step c (sends id) = call c id false
step c (requests id) = call c id true
step c (receives m) = handle_message c m
step c (opens n) = socket_opens c n
step c (socket_closed n) = socket_closes c n
step c (socket_fails e) = emit c (error_raised e)
step c (connect_timer n) = connect_timer_fires c n
step c (call_timer n) = timer_fires c n
step c (accept_timer n) = accept_timer_fires c n
step c (reconnect_timer thrown) = reconnect_fires c thrown
step c heartbeat_timer = heartbeat_fires c

unfoldable pub run : Client → List Event → Client
run c [] = c
run c (e ∷ es) = run (step c e) es

-- The constructor.
abbrev pub init : Bool → Client
init has_url = record {
  has_url = has_url;
  phase = disconnected;
  ws = none;
  attempts = [];
  connect_promise = none;
  reconnect_timer = false;
  heartbeat_timer = false;
  closing = false;
  auth_failed = false;
  capabilities = [];
  pending = [];
  aliases = [];
  timers = [];
  accept_timers = [];
  next_call = 0;
  next_attempt = 0;
  outcomes = [];
  handshakes = [];
  signals = [];
  frames = [];
  uncaught = 0;
}
