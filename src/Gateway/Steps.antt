-- ===== src/Gateway/Steps.antt =====
-- The event loop. An event is a callback that Node runs: a frame or a close of a socket, the end of
-- an `await`, or a timer. A run is any sequence of events with their times, so every interleaving
-- of the asynchronous parts is a run. An event that does not apply leaves the server as it is.
use node_red_contrib_pod_gat.Prelude.{
  ℕ, zero, suc, Bool, true, false, Option, none, some, List, [], ◌∷◌, String, Text, string_eq,
  nat_eq, text_eq, leb, if◌then◌else◌,
}
use node_red_contrib_pod_gat.Map.{Map, get, delete}
use node_red_contrib_pod_gat.Gateway.Types.{
  Gateway, Config, Connection, Message, Parsed, Adapter, Response, Timer, parked,
}
use node_red_contrib_pod_gat.Gateway.Send.{
  broadcast_capabilities, register_operation, unregister_operation,
}
use node_red_contrib_pod_gat.Gateway.Finish.{Ending}
use node_red_contrib_pod_gat.Gateway.Connect.{connect, authenticated, disconnect, Verdict}
use node_red_contrib_pod_gat.Gateway.Pump.{
  Answer, pump_turn, decided, executed, settle, retry_due, pump_timer_fires,
}
use node_red_contrib_pod_gat.Gateway.Receive.{receive}

pub data Event : Type 0 where
  connects : ℕ → String → Bool → Event
  frame : ℕ → ℕ → Parsed → Event
  verdict : ℕ → Verdict → Event
  closes : ℕ → Event
  turns : Event
  decides : Answer → Event
  executes : ℕ → Ending → Option ℕ → ℕ → Event
  settles : Event
  retry_timer : ℕ → Event
  pump_alarm : Event
  expiry_timer : Event
  registers : Text → Adapter → Event
  unregisters : Text → Event
  broadcasts : Event

abbrev pub Handshake : Type 0
Handshake = ℕ × Message

unfoldable pub keep_handshake :
    Handshake → Option (Handshake × List Handshake) → Option (Handshake × List Handshake)
keep_handshake h none = none
keep_handshake h (some (x, xs)) = some (x, h ∷ xs)

-- The handshake that stands at this place, and the others.
unfoldable pub take_handshake : ℕ → List Handshake → Option (Handshake × List Handshake)
take_handshake n [] = none
take_handshake zero (h ∷ hs) = some (h, hs)
take_handshake (suc n) (h ∷ hs) = keep_handshake h (take_handshake n hs)

unfoldable pub with_object : Gateway → Option Connection → (Connection → Gateway) → Gateway
with_object g none f = g
with_object g (some c) f = f c

-- Run a handler with the object of a socket.
abbrev pub with_connection : Gateway → ℕ → (Connection → Gateway) → Gateway
with_connection g ws f = with_object g (get g.objects ws) f

unfoldable pub resume_hello : Gateway → Verdict → Option (Handshake × List Handshake) → Gateway
resume_hello g v none = g
resume_hello g v (some ((ws, m), rest)) =
    let h : Gateway = record g { handshakes = rest } in
    with_connection h ws (λ c. authenticated h ws c m v)

-- The timers of idempotency results that are due.
unfoldable pub drop_due : ℕ → List (Timer String) → List (Timer String)
drop_due now [] = []
drop_due now (t ∷ ts) = let rest = drop_due now ts in if leb t.due now then rest else t ∷ rest

unfoldable pub expire : ℕ → List (Timer String) → Map String Response → Map String Response
expire now [] results = results
expire now (t ∷ ts) results =
    expire now ts (if leb t.due now then delete results t.value else results)

unfoldable pub expire_results : Gateway → ℕ → Gateway
expire_results g now = record g {
  idempotency_results = expire now g.expiries g.idempotency_results;
  expiries = drop_due now g.expiries;
}

unfoldable pub step : Gateway → ℕ → Event → Gateway
step g now (connects ws connection_id sends) = connect g ws connection_id sends
step g now (frame ws bytes p) = with_connection g ws (λ c. receive g now ws c bytes p)
step g now (verdict n v) = resume_hello g v (take_handshake n g.handshakes)
step g now (closes ws) = with_connection g ws (disconnect g ws)
step g now turns = pump_turn g now
step g now (decides a) = decided g now a
step g now (executes serial ending status elapsed) = executed g now serial ending status elapsed
step g now settles = settle g
step g now (retry_timer serial) = retry_due g now serial
step g now pump_alarm = pump_timer_fires g now
step g now expiry_timer = expire_results g now
step g now (registers operation a) = register_operation g operation a
step g now (unregisters operation) = (unregister_operation g operation).0
step g now broadcasts = broadcast_capabilities g

unfoldable pub run : Gateway → List (ℕ × Event) → Gateway
run g [] = g
run g ((now, e) ∷ es) = run (step g now e) es

-- The constructor: a server with its adapters.
abbrev pub init : Config → Map Text Adapter → Gateway
init c adapters = record {
  config = c;
  started = true;
  adapters = adapters;
  memory_queue = [];
  active = 0;
  pump = parked;
  pump_timer = none;
  objects = [];
  connections = [];
  connections_by_pod = [];
  pending_results = [];
  inflight_idempotency = [];
  idempotency_results = [];
  broadcast_pending = false;
  handshakes = [];
  executing = [];
  settling = 0;
  delayed = [];
  expiries = [];
  next_serial = 0;
  sent = [];
  metrics = [];
  unhandled = 0;
}
