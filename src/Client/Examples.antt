-- ===== src/Client/Examples.antt =====
-- The theorems about lib/gateway-client.js, applied to a client that has sent a call.
use node_red_contrib_pod_gat.Prelude.{
  ◌++◌, ◌≡◌, refl, ap, ◌∙◌, true, false, none, some, [], List, ◌∷◌, String, string_eq, arith, inl,
  ◌⊎◌, Option,
}
use node_red_contrib_pod_gat.Map.{get, set}
use node_red_contrib_pod_gat.Client.Types.{
  Client, Call, Alarm, Incoming, message, connected, connecting, Attempt, acknowledged,
  capabilities_listed, state_changed, hello, envelope,
}
use node_red_contrib_pod_gat.Client.Calls.{
  not_connected, is_settled, timer_fires, find_alarm, timed_out, settle, clear_timer, find_attempt,
  attempt_of, send_raw, call, enter, reject_unsent,
}
use node_red_contrib_pod_gat.Client.Messages.{emit, is_success}
use node_red_contrib_pod_gat.Client.Connection.{
  connect, begin_attempt, waits, close, socket_closes, set_state, socket_opens, change_attempt,
  each_attempt, on_hello_ack, settle_attempt, start_heartbeat,
}
use node_red_contrib_pod_gat.Client.Steps.{
  Event, connects, opens, receives, requests, call_timer, step, run, init, handle_message,
  handle_incoming, reconnect_timer,
}
use node_red_contrib_pod_gat.Client.Settling.{is_covered, book}
use node_red_contrib_pod_gat.Client.Settling.Answers.{IsSettling}
use node_red_contrib_pod_gat.Client.Waiting.{IsFreshRun, run-covered}
use node_red_contrib_pod_gat.Client.Closing.{Shut, door}
use node_red_contrib_pod_gat.Client.Closing.Run.{run-close}
use node_red_contrib_pod_gat.Client.Answering.Final.{
  Finished, handle_incoming-Finished, Broken, Fits, Abandoned, socket_closes-Abandoned,
}
use node_red_contrib_pod_gat.Client.Refusal.{connect-stuck}

abbrev incoming : String → Option String → Incoming
incoming kind id = record {
  kind = some kind;
  request_id = id;
  is_ok = true;
  problem = none;
  duplicate_of = none;
  status_code = some 200;
  body = none;
  capabilities = [];
}

abbrev handshake : List Event
handshake = connects none ∷ opens 0 ∷ receives (message (incoming "hello_ack" none)) ∷ []

abbrev open_socket : Attempt
open_socket = record {
  serial = 0;
  is_open = true;
  settled = true;
  timer = false;
  on_ack = false;
  on_error = false;
}

abbrev greeted : Client
greeted = record (init true) {
  phase = connected;
  ws = some 0;
  attempts = open_socket ∷ [];
  heartbeat_timer = true;
  next_attempt = 1;
  handshakes = (0, acknowledged) ∷ [];
  signals = capabilities_listed [] ∷ state_changed connected ∷ state_changed connecting ∷ [];
  frames = hello ∷ [];
}

abbrev first_alarm : Alarm
first_alarm = record { call = 0; request_id = "r1"; waits_for_result = true }

abbrev first_call : Call
first_call = record { serial = 0; request_id = "r1"; waits_for_result = true; accepted = false }

-- Connected, and with the call `r1` under way.
abbrev waiting_client : Client
waiting_client = record greeted {
  pending = ("r1", first_call) ∷ [];
  timers = first_alarm ∷ [];
  accept_timers = first_alarm ∷ [];
  next_call = 1;
  frames = envelope "r1" ∷ hello ∷ [];
}

greets : run (init true) handshake ≡ greeted
unfolding run step connect begin_attempt set_state emit socket_opens change_attempt find_attempt
    attempt_of send_raw handle_message handle_incoming each_attempt on_hello_ack settle_attempt
    start_heartbeat
greets = refl

requests_first : step greeted (requests "r1") ≡ waiting_client
unfolding step call attempt_of find_attempt send_raw enter reject_unsent set
requests_first = refl

abbrev after : List Event → Client
after es = run (init true) (handshake ++ requests "r1" ∷ es)

runs : (es : List Event) → after es ≡ run waiting_client es
unfolding run
runs es = ap (λ c. run c (requests "r1" ∷ es)) greets ∙ ap (λ c. run c es) requests_first

fresh_run : IsFreshRun (init true) (handshake ++ requests "r1" ∷ call_timer 0 ∷ [])
unfolding IsFreshRun run IsSettling
fresh_run =
    let e : step (step (step (init true) (connects none)) (opens 0))
          (receives (message (incoming "hello_ack" none)))
        ≡ greeted =
      greets in
    (tt, (tt, (tt, (rw e tt, (tt, tt)))))

times_out : (run waiting_client (call_timer 0 ∷ [])).next_call ≡ 1
unfolding run step timer_fires find_alarm timed_out settle is_settled clear_timer
times_out = refl

-- The call's timer has fired.
run-covered_example : is_covered (book (after (call_timer 0 ∷ []))) 0 ≡ true
run-covered_example =
    run-covered true (handshake ++ requests "r1" ∷ call_timer 0 ∷ []) 0 fresh_run
      (rw (runs (call_timer 0 ∷ []), times_out) (omega arith))

abbrev late_events : List Event
late_events = reconnect_timer none ∷ opens 0 ∷ requests "r2" ∷ []

run-close_example :
    Shut (door (run (close waiting_client) late_events))
    × ((run (close waiting_client) late_events).next_call ≡ 1)
    × ((run (close waiting_client) late_events).next_attempt ≡ 1)
    × ((run (close waiting_client) late_events).frames ≡ envelope "r1" ∷ hello ∷ [])
run-close_example = run-close waiting_client late_events

unsettled : is_settled 0 [] ≡ false
unfolding is_settled
unsettled = refl

-- The call `r1` is a `send`.
abbrev sent_call : Call
sent_call = record first_call { waits_for_result = false }

abbrev sending_client : Client
sending_client = record waiting_client { pending = ("r1", sent_call) ∷ [] }

found_send : get sending_client.pending "r1" ≡ some sent_call
unfolding get
found_send = refl

handle_incoming-Finished_example :
    (let m = incoming "result" (some "r1") in
      let d = handle_incoming sending_client m in
      (Fits m sent_call × Finished sending_client m "r1" sent_call d)
      ⊎ ((sent_call.waits_for_result ≡ false)
          × (is_success m ≡ true)
          × Broken sending_client "r1" sent_call d))
handle_incoming-Finished_example =
    handle_incoming-Finished sending_client (incoming "result" (some "r1")) "r1" sent_call
      (inl refl) refl found_send unsettled

found_socket : find_attempt 0 waiting_client.attempts ≡ some open_socket
unfolding find_attempt
found_socket = refl

socket_closes-Abandoned_example : Abandoned waiting_client (socket_closes waiting_client 0)
socket_closes-Abandoned_example =
    socket_closes-Abandoned waiting_client 0 open_socket found_socket refl

-- The reconnect timer fires, and a caller connects.
abbrev retries : List Event
retries = reconnect_timer none ∷ connects none ∷ reconnect_timer none ∷ []

connect-stuck_example :
    (let d = run (begin_attempt (init true) (some not_connected)).0 retries in
      (connect d none ≡ (d, waits 0)) × (d.next_attempt ≡ 1))
connect-stuck_example =
    connect-stuck (init true) not_connected none retries refl (tt, (tt, (tt, tt)))
