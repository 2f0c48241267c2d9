-- ===== src/Gateway/Queued/Examples.antt =====
-- The theorems about a server that shares the queue in Redis, applied to a Redis of maps.
use node_red_contrib_pod_gat.Prelude.{
  ◌≡◌, refl, ◌⊎◌, true, false, none, some, List, [], ◌∷◌, ℕ, text_eq, nat_eq, string_eq, codes,
  length, if◌then◌else◌,
}
use node_red_contrib_pod_gat.Map.{get, set, delete}
use node_red_contrib_pod_gat.Json.{null}
use node_red_contrib_pod_gat.Gateway.Types.{Response, Item, Parsed, Outgoing}
use node_red_contrib_pod_gat.Gateway.Send.{
  failure_of, emit_metric, send, post, is_open, capability, capability_list,
}
use node_red_contrib_pod_gat.Gateway.Connect.{
  accepts, connect, hello as handle_hello, other_version, authenticated, welcome, replay_pending,
}
use node_red_contrib_pod_gat.Gateway.Steps.{take_handshake}
use node_red_contrib_pod_gat.Gateway.Timing.{mark_processing, expired}
use node_red_contrib_pod_gat.Gateway.Pump.{answered, unavailable}
use node_red_contrib_pod_gat.Gateway.Enqueue.{Caller, dedup_key_of, new_item}
use node_red_contrib_pod_gat.Gateway.Tests.{config, adapters, adapter, hello, call}
use node_red_contrib_pod_gat.Gateway.Examples.{item}
use node_red_contrib_pod_gat.StreamQueue.Delivery
use node_red_contrib_pod_gat.StreamQueue.Delivery.{dispatch_ends}
use node_red_contrib_pod_gat.StreamQueue.Store.{is_bulk}
use node_red_contrib_pod_gat.StreamQueue.Store.Scripts.{schedule_retry, schedule_script, put_retry}
use node_red_contrib_pod_gat.StreamQueue.Balance.Steps.{all_sent, IsWaiting}
use node_red_contrib_pod_gat.StreamQueue.Maps.{maps, maps-Laws, empty_queue}
use node_red_contrib_pod_gat.StreamQueue.Records.Maps.{strings, strings-laws, codec}
use node_red_contrib_pod_gat.StreamQueue.Records.{Entry, get_idempotency_result}
use node_red_contrib_pod_gat.StreamQueue.Pending.Maps.{hashes, hashes-laws, format}
use node_red_contrib_pod_gat.StreamQueue.Pending.{
  read_pending_results, drop_pending_results, taken_results, readable,
}
use node_red_contrib_pod_gat.Gateway.Queued.{
  Backend, BackendLaws, Server, tell, send_all, finish_replay, finish, completed, deliver_response,
  settle_idempotency,
}
use node_red_contrib_pod_gat.Gateway.Finish.{
  find_connection, find_origin, is_origin, send_to, build_response, item_envelope,
}
use node_red_contrib_pod_gat.Gateway.Queued.Receive.{receive, dispatch, parsed}
use node_red_contrib_pod_gat.Gateway.Queued.Handling.{
  Input, looked, limited, deciding, begin_item, advance, look_up, check_deadline, found, ended,
  decided, put_off, requeue, fail_with, ended_by,
}
use node_red_contrib_pod_gat.Gateway.Queued.Outcomes.{IsDone, IsAnswered, source_of}
use node_red_contrib_pod_gat.Gateway.Queued.Requests.{claim_and_push}
use node_red_contrib_pod_gat.Gateway.Queued.Runs.{
  Handler, System, Event, connects, frame, verdict, replays_on, others_change, arrives, advances,
  pick, proceed, arrive, advance_at, frame_from, welcome_from, resume_hello, replay_for, replay_at,
  continue_replay, step, start, run,
}
use node_red_contrib_pod_gat.Gateway.Queued.Runs.Sound.{run-active, run-Done}
use node_red_contrib_pod_gat.Gateway.Queued.Redis.{Wire, Shared, redis}
use node_red_contrib_pod_gat.Gateway.Queued.Answers.{IsAnswer}
use node_red_contrib_pod_gat.Gateway.Queued.Admission.{
  IsQueued, IsRefused, claim_and_push-free, claim_and_push-held,
}
use node_red_contrib_pod_gat.Gateway.Queued.Redis.Safety.{
  redis-BackendLaws, IsScheduled, run-IsSafe,
}

abbrev wire : Wire (strings Response) (hashes Response)
wire = record {
  encode = λ t. codes "{}";
  rest_of = λ i. null;
  retries_of = λ i. 0;
  random_id = "x";
  offline = failure_of "" (codes "The client is offline") true;
  faults = record { incr = none; xadd = none; decr = none };
  unreleased = none;
  records = codec Response;
  results = format Response;
}

abbrev shared : Backend
shared = redis maps (strings Response) (hashes Response) wire

laws : BackendLaws shared
laws =
    redis-BackendLaws maps maps-Laws (strings Response) (hashes Response) (hashes-laws Response)
      wire (λ x. refl)

abbrev store : Shared maps (strings Response) (hashes Response)
store = record {
  queue = record empty_queue {
    normal = record empty_queue.normal {
      stream = (maps.xadd empty_queue.normal.stream (codes "{}")).1;
    };
    depth = 1;
  };
  strings = [];
  hashes = [];
}

abbrev entry : Delivery.Message
entry = record { id = 0; bulk = false; payload = codes "{}" }

-- A POD connects and what is kept for it is taken. The entry is handed to its handler, which finds no
-- stored result.
abbrev events : List (ℕ × Event shared)
events =
    (0, connects 1 "c1" true)
    ∷ (1, frame 1 20 (Parsed.message hello))
    ∷ (2, verdict 0 accepts)
    ∷ (3, replays_on 0)
    ∷ (4, replays_on 0)
    ∷ (10, others_change store)
    ∷ (20, arrives entry item)
    ∷ (21, advances 0 looked)
    ∷ []

abbrev waiting : Handler
waiting = record { entry = entry; original = item; stage = deciding (mark_processing 20 item) }

picked :
    pick 0 (run shared (start shared config adapters store) events).handlers ≡ some (waiting, [])
unfolding pick run step arrive begin_item advance_at proceed advance look_up found check_deadline
    expired mark_processing get_idempotency_result get tell emit_metric connect frame_from receive
    parsed dispatch handle_hello other_version welcome_from resume_hello take_handshake
    authenticated welcome replay_pending post send set capability_list capability replay_for
    replay_at continue_replay finish_replay send_all read_pending_results drop_pending_results
    taken_results readable
picked = refl

run-active_example :
    (run shared (start shared config adapters store) events).server.gateway.active
    ≡ length (run shared (start shared config adapters store) events).handlers
run-active_example = run-active shared laws config adapters store events

run-Done_example :
    (let y = run shared (start shared config adapters store) events in
      IsDone shared y.server item
        (advance shared y.server 22 (deciding (mark_processing 20 item)) (limited unavailable)))
run-Done_example =
    run-Done shared laws config adapters store events 22 0 (limited unavailable) waiting [] picked

-- The error of the rate limiter is sent to the POD's socket, behind the answer to its `hello`.
delivery_test :
    length
      (advance shared
        (run shared (start shared config adapters store) events).server
        22
        waiting.stage
        (limited unavailable)).0.gateway.sent
    ≡ 2
unfolding pick run step arrive begin_item advance_at proceed advance look_up found check_deadline
    expired mark_processing get_idempotency_result get tell emit_metric connect frame_from receive
    parsed dispatch handle_hello other_version welcome_from resume_hello take_handshake
    authenticated welcome replay_pending post send set capability_list capability replay_for
    replay_at continue_replay finish_replay send_all read_pending_results drop_pending_results
    taken_results readable decided fail_with finish ended_by completed deliver_response
    settle_idempotency find_connection find_origin is_origin send_to build_response item_envelope
    delete
delivery_test = refl

-- The rate limiter refuses the item.
abbrev refused : Input
refused = limited (answered (record { allowed = false; retry_after_ms = 5 }))

abbrev reached : System shared
reached = run shared (start shared config adapters store) events

abbrev last : Server shared
last = (advance shared reached.server 22 waiting.stage refused).0

deferred :
    advance shared reached.server 22 waiting.stage refused ≡ (last, ended (Delivery.returned true))
unfolding pick run step arrive begin_item advance_at proceed advance look_up found check_deadline
    expired mark_processing get_idempotency_result get tell emit_metric connect frame_from receive
    parsed dispatch handle_hello other_version welcome_from resume_hello take_handshake
    authenticated welcome replay_pending post send set capability_list capability replay_for
    replay_at continue_replay finish_replay send_all read_pending_results drop_pending_results
    taken_results readable decided put_off requeue schedule_retry schedule_script put_retry is_bulk
deferred = refl

unacknowledged : IsWaiting maps reached.server.store.queue entry
unfolding pick run step arrive begin_item advance_at proceed advance look_up found check_deadline
    expired mark_processing get_idempotency_result get tell emit_metric connect frame_from receive
    parsed dispatch handle_hello other_version welcome_from resume_hello take_handshake
    authenticated welcome replay_pending post send set capability_list capability replay_for
    replay_at continue_replay finish_replay send_all read_pending_results drop_pending_results
    taken_results readable
unacknowledged = refl

run-IsSafe_example :
    IsWaiting maps
      (dispatch_ends maps last.store.queue entry (Delivery.returned true) all_sent)
      entry
    ⊎ (IsAnswered shared reached.server last (source_of item) "r1"
        ⊎ IsScheduled maps
            (strings Response)
            (hashes Response)
            wire
            last.store
            (source_of item)
            "r1")
run-IsSafe_example =
    run-IsSafe maps maps-Laws (strings Response) (hashes Response) (hashes-laws Response) wire
      (λ x. refl) config adapters store events 22 0 refused waiting [] reached last
      (Delivery.returned true) all_sent refl picked deferred unacknowledged

abbrev caller : Caller
caller = record { ws = 1; connection_id = "c1"; pod_id = "p1"; instance_id = "p1" }

abbrev idle : Server shared
idle = (start shared config adapters store).server

free : (strings Response).get_value store.strings (codes "p1:k") ≡ none
unfolding get
free = refl

-- What a request of the caller makes of the server, and its item.
abbrev admitted : Server shared → Server shared
admitted y = claim_and_push shared y 5 caller "r1" item.operation adapter (call "r1")

abbrev new : Server shared → Item
new y =
    new_item y.gateway 5 caller "r1" item.operation adapter (call "r1")
      (dedup_key_of "p1" (some "k"))

claim_and_push-free_example :
    IsQueued maps (strings Response) (hashes Response) wire idle (admitted idle) "k" "r1" (new idle)
    ⊎ IsRefused maps
        (strings Response)
        (hashes Response)
        wire
        idle
        (admitted idle)
        "k"
        "r1"
        (new idle)
claim_and_push-free_example =
    claim_and_push-free maps maps-Laws (strings Response) (strings-laws Response) (hashes Response)
      wire (λ e. refl) idle 5 caller "r1" item.operation adapter (call "r1") "k" refl refl free

-- Another request has the key.
abbrev claim_record : Entry Response
claim_record = record { request_id = some "r0"; response = none }

abbrev claimed_store : Shared maps (strings Response) (hashes Response)
claimed_store = record store { strings = (codes "p1:k", claim_record) ∷ [] }

abbrev contested : Server shared
contested = record idle { store = claimed_store }

held : (strings Response).get_value claimed_store.strings (codes "p1:k") ≡ some claim_record
unfolding get
held = refl

claim_and_push-held_example :
    (let z = admitted contested in
      (z.store ≡ contested.store)
      × ((answer : Outgoing) × IsAnswer claim_record "r1" answer
          × (z.gateway.sent ≡ (
              if is_open (get contested.gateway.objects 1)
              then (1, answer) ∷ contested.gateway.sent
              else contested.gateway.sent))))
claim_and_push-held_example =
    claim_and_push-held maps maps-Laws (strings Response) (strings-laws Response) (hashes Response)
      wire (λ e. refl) contested 5 caller "r1" item.operation adapter (call "r1") "k" claim_record
      refl refl held
