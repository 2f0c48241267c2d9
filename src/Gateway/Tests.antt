-- ===== src/Gateway/Tests.antt =====
-- A server that runs, for tests and examples: a POD connects, sends two calls with one idempotency
-- key, and the first one is executed.
use node_red_contrib_pod_gat.Prelude.{
  ℕ, ◌≡◌, refl, true, none, some, List, [], ◌∷◌, ◌++◌, String, Text, string_eq, text_eq, nat_eq,
  codes, length,
}
use node_red_contrib_pod_gat.Map.{Map, get, set, delete}
use node_red_contrib_pod_gat.Json.{null}
use node_red_contrib_pod_gat.Gateway.Types.{Gateway, Config, Adapter, Message, Parsed}
use node_red_contrib_pod_gat.Gateway.Connect.{accepts}
use node_red_contrib_pod_gat.Gateway.Finish.{returned}
use node_red_contrib_pod_gat.Gateway.Pump.{answered}
use node_red_contrib_pod_gat.Gateway.Steps.{
  Event, connects, frame, verdict, turns, decides, executes, settles, init, run,
}
use node_red_contrib_pod_gat.Gateway.Send.{
  send, post, emit_metric, error_payload, capability, capability_list,
}
use node_red_contrib_pod_gat.Gateway.Timing.{
  expired, mark_processing, record_upstream, execution_timeout, total_ms,
}
use node_red_contrib_pod_gat.Gateway.Sorting.{weight, in_order, insert_item, sort_items}
use node_red_contrib_pod_gat.Gateway.Finish.{
  claim_idempotency_sync, response_for_request, is_origin, find_origin, has_hello, current_of,
  find_connection, store_pending, send_to, deliver_response, item_envelope, build_response,
  settle_idempotency, finish,
}
use node_red_contrib_pod_gat.Gateway.Connect.{
  connect, post_all, replay_pending, other_version, hello as handle_hello, refuse, welcome,
  authenticated,
}
use node_red_contrib_pod_gat.Gateway.Pump.{
  start_pump, is_callable, execute, take_item, turn, round, pump_turn, admit, decided_for, resume,
  decided, conclude, keep_item, take_out, executed, settled, settle,
}
use node_red_contrib_pod_gat.Gateway.Enqueue.{
  reject, dedup_key_of, answer_duplicate, new_item, reserve, position, push_item, claim_of,
  claim_and_push, validated, registered, enqueue,
}
use node_red_contrib_pod_gat.Gateway.Receive.{request, dispatch, parsed, receive}
use node_red_contrib_pod_gat.Gateway.Steps.{
  keep_handshake, take_handshake, with_object, resume_hello, step, run,
}
use node_red_contrib_pod_gat.Protocol.{parse_operation, is_service_char, is_name_char}
use node_red_contrib_pod_gat.Protocol.Text.{is_space, trim, index_of}
use node_red_contrib_pod_gat.Protocol.Envelope.{validate_envelope}
use node_red_contrib_pod_gat.Request.{normalize_request, request_source, request_fields}
use node_red_contrib_pod_gat.Request.Validation.{validate_request}
use node_red_contrib_pod_gat.Json.{lookup}

abbrev pub config : Config
config = record {
  max_queue_size = 2;
  max_message_bytes = 100;
  concurrency = 1;
  upstream_timeout_ms = 60000;
  max_attempts = 2;
  result_ttl_seconds = 3600;
}

abbrev pub adapter : Adapter
adapter = record {
  label = none;
  description = none;
  input_schema = none;
  request_schema = none;
  rate_limit = none;
  callable = true;
}

abbrev pub adapters : Map Text Adapter
adapters = (codes "crm/find", adapter) ∷ []

abbrev pub hello : Message
hello = record {
  kind = some "hello";
  request_id = none;
  operation = none;
  payload = null;
  request = none;
  priority = none;
  idempotency_key = none;
  deadline_at = none;
  upstream_timeout_ms = none;
  pod_id = some "p1";
  instance_id = none;
  protocol_version = some "1.0";
}

abbrev pub call : String → Message
call id = record hello {
  kind = some "call";
  request_id = some id;
  operation = some (codes "crm/find");
  idempotency_key = some "k";
}

-- A POD connects and its two calls with one key arrive.
abbrev pub arrivals : List (ℕ × Event)
arrivals =
    (0, connects 1 "c1" true)
    ∷ (1, frame 1 20 (Parsed.message hello))
    ∷ (2, verdict 0 accepts)
    ∷ (10, frame 1 50 (Parsed.message (call "r1")))
    ∷ (11, frame 1 50 (Parsed.message (call "r2")))
    ∷ []

-- Then the first call is admitted.
abbrev pub admission : List (ℕ × Event)
admission =
    (12, turns) ∷ (13, decides (answered (record { allowed = true; retry_after_ms = 0 }))) ∷ []

-- The adapter returns, and a third call comes with the same key.
abbrev pub completion : List (ℕ × Event)
completion =
    (43, executes 0 (returned null) (some 200) 30)
    ∷ (44, settles)
    ∷ (50, frame 1 50 (Parsed.message (call "r3")))
    ∷ []

abbrev pub lifecycle : List (ℕ × Event)
lifecycle = arrivals ++ (admission ++ completion)

abbrev pub after_arrivals : Gateway
after_arrivals = run (init config adapters) arrivals

-- How many requests wait, how many execute, and how many messages were sent.
abbrev sizes : Gateway → ℕ × ℕ × ℕ
sizes g = (length g.memory_queue, length g.executing, length g.sent)

-- The first call waits and the second one is answered as a duplicate of it; the first one executes;
-- its result is sent; the third one is answered with that result.
lifecycle_test :
    (sizes after_arrivals ≡ (1, 0, 3))
    × (sizes (run (init config adapters) (arrivals ++ admission)) ≡ (0, 1, 3))
    × (sizes (run (init config adapters) lifecycle) ≡ (0, 0, 5))
unfolding send post emit_metric error_payload capability capability_list expired mark_processing
    record_upstream execution_timeout total_ms weight in_order insert_item sort_items
    claim_idempotency_sync response_for_request is_origin find_origin has_hello current_of
    find_connection store_pending send_to deliver_response item_envelope build_response
    settle_idempotency finish connect post_all replay_pending other_version handle_hello refuse
    welcome authenticated start_pump is_callable execute take_item turn round pump_turn admit
    decided_for resume decided conclude keep_item take_out executed settled settle reject
    dedup_key_of answer_duplicate new_item reserve position push_item claim_of claim_and_push
    validated registered enqueue request dispatch parsed receive keep_handshake take_handshake
    with_object resume_hello step run parse_operation is_service_char is_name_char is_space trim
    index_of validate_envelope validate_request normalize_request request_source lookup
    request_fields get set delete
lifecycle_test = (refl, refl, refl)
