-- ===== src/Gateway/Examples.antt =====
-- The theorems about lib/gateway-server.js, applied to the server of the tests.
use node_red_contrib_pod_gat.Prelude.{
  ◌+◌, ◌*◌, ◌≡◌, refl, true, false, none, some, [], ◌∷◌, string_eq, text_eq, nat_eq, codes, is_some,
  ltb,
}
use node_red_contrib_pod_gat.Map.{get}
use node_red_contrib_pod_gat.Json.{null}
use node_red_contrib_pod_gat.Gateway.Types.{Connection, Item, Parsed}
use node_red_contrib_pod_gat.Gateway.Timing.{mark_processing, block, measured_total}
use node_red_contrib_pod_gat.Gateway.Timing.Durations.{blocked_twice}
use node_red_contrib_pod_gat.Gateway.Sorting.{sort_items}
use node_red_contrib_pod_gat.Gateway.Sorting.Order.{IsSorted, sort_items-IsSorted}
use node_red_contrib_pod_gat.Gateway.Finish.{
  returned, build_response, claim_idempotency_sync, finish,
}
use node_red_contrib_pod_gat.Gateway.Finish.Results.{Delivered, finish-Delivered, finish-claim}
use node_red_contrib_pod_gat.Gateway.Receive.{receive}
use node_red_contrib_pod_gat.Gateway.Receive.Admission.{receive-inert}
use node_red_contrib_pod_gat.Gateway.Health.{check_claim_idle_margin}
use node_red_contrib_pod_gat.Gateway.Steps.{turns, step}
use node_red_contrib_pod_gat.Gateway.Core.{core}
use node_red_contrib_pod_gat.Gateway.Core.Requests.{Refines, step-Refines}
use node_red_contrib_pod_gat.Gateway.Core.Counting.{live, one_if}
use node_red_contrib_pod_gat.Gateway.Core.Tally.{has_serial, has_key, times}
use node_red_contrib_pod_gat.Gateway.Core.Capacity.{IsBusy, stalled}
use node_red_contrib_pod_gat.Gateway.Core.Attempts.{IsBounded}
use node_red_contrib_pod_gat.Gateway.Reachable.{
  reached, nothing_lost, one_per_key, within_concurrency, never_stalled, attempts-IsBounded,
}
use node_red_contrib_pod_gat.Gateway.Tests.{config, adapters, call, lifecycle, after_arrivals}

step-Refines_example : Refines after_arrivals (step after_arrivals 12 turns)
step-Refines_example = step-Refines after_arrivals 12 turns

nothing_lost_example :
    live (has_serial 0) (core (reached config adapters lifecycle))
      + times 0 (core (reached config adapters lifecycle)).completed
    ≡ one_if (ltb 0 (reached config adapters lifecycle).next_serial)
nothing_lost_example = nothing_lost config adapters lifecycle 0

one_per_key_example :
    live (has_key "p1:k") (core (reached config adapters lifecycle))
    ≡ one_if (is_some (get (reached config adapters lifecycle).inflight_idempotency "p1:k"))
one_per_key_example = one_per_key config adapters lifecycle "p1:k"

within_concurrency_example : IsBusy (core (reached config adapters lifecycle))
within_concurrency_example = within_concurrency config adapters lifecycle

never_stalled_example : stalled (core (reached config adapters lifecycle)) ≡ false
never_stalled_example = never_stalled config adapters lifecycle

attempts-IsBounded_example : IsBounded (core (reached config adapters lifecycle))
attempts-IsBounded_example = attempts-IsBounded config adapters lifecycle

-- A request that has waited, with a deadline and an idempotency key.
abbrev pub item : Item
item = record {
  serial = 7;
  connection_id = "c1";
  pod_id = "p1";
  instance_id = "p1";
  request_id = "r1";
  message = record (call "r1") { deadline_at = some 5000; priority = some "bulk" };
  request = record { params = none; query = none; headers = none; body = none };
  operation = record { service = codes "crm"; operation = codes "find"; value = codes "crm/find" };
  rate_limit = none;
  request_schema = none;
  received_at = 10;
  enqueued_at = 10;
  last_queued_at = 10;
  rate_limit_blocked_at = none;
  queue_wait_ms = 5;
  rate_limit_wait_ms = 0;
  upstream_ms = 0;
  last_upstream_ms = 0;
  attempts = 0;
  timeout_ms = 0;
  dedup_key = some "p1:k";
}

blocked_twice_example :
    measured_total (mark_processing (100 + 40) (block 100 item)) ≡ measured_total item + 2 * 40
blocked_twice_example = blocked_twice 100 40 item

sort_items-IsSorted_example : IsSorted (sort_items (record item { enqueued_at = 20 } ∷ item ∷ []))
sort_items-IsSorted_example = sort_items-IsSorted (record item { enqueued_at = 20 } ∷ item ∷ [])

finish-Delivered_example :
    Delivered after_arrivals
      (finish after_arrivals 60 item (returned null) (some 200))
      item
      (build_response 60 item (returned null) (some 200))
finish-Delivered_example = finish-Delivered after_arrivals 60 item (returned null) (some 200)

finish-claim_example :
    claim_idempotency_sync (finish after_arrivals 60 item (returned null) (some 200)) "p1:k"
    ≡ some (record {
      request_id = "r1";
      response = some (build_response 60 item (returned null) (some 200));
    })
finish-claim_example = finish-claim after_arrivals 60 item (returned null) (some 200) "p1:k" refl

abbrev stranger : Connection
stranger = record {
  connection_id = "c2";
  authenticated = false;
  pod_id = none;
  instance_id = none;
  ready = true;
  sends = true;
}

receive-inert_example :
    core (receive after_arrivals 20 2 stranger 50 (Parsed.message (call "r9")))
    ≡ core after_arrivals
receive-inert_example =
    receive-inert after_arrivals 20 2 stranger 50 (Parsed.message (call "r9")) refl

warned_test : (check_claim_idle_margin (some 30000) [] (codes "crm/find") 60000).1 ≡ true
unfolding check_claim_idle_margin
warned_test = refl
