-- ===== src/StreamQueue/Examples.antt =====
-- The theorems about lib/redis-stream-queue.js, applied to a queue of maps.
use node_red_contrib_pod_gat.Prelude.{
  ℕ, ◌≡◌, refl, true, false, none, some, List, [], ◌∷◌, Text, text_eq, nat_eq, codes, arith,
  Bool-cases, ◌==◌, inl, inr, is_some,
}
use node_red_contrib_pod_gat.Map.{get, set, delete}
use node_red_contrib_pod_gat.Json.{null}
use node_red_contrib_pod_gat.StreamQueue.Store.{
  Task, Lane, Queue, Faults, is_bulk, retry_token, with_lane, lane, enqueue, append,
}
use node_red_contrib_pod_gat.StreamQueue.Store.Scripts.{
  schedule_script, promote_script, put_retry, schedule_retry, promote_due_retries, promote_all,
  due_retries, promote_retry_member,
}
use node_red_contrib_pod_gat.StreamQueue.Store.Retries.{IsPaired}
use node_red_contrib_pod_gat.StreamQueue.Store.Delays.{Promoted, schedule-promote}
use node_red_contrib_pod_gat.StreamQueue.Delivery.{
  Message, dispatch_ends, acknowledge, delete_entry, release_slot,
}
use node_red_contrib_pod_gat.StreamQueue.Balance.{Holds}
use node_red_contrib_pod_gat.StreamQueue.Balance.Steps.{
  Event, enqueues, defers, promotes, finishes, is_deferred, defer, step, run, IsOrderlyRun,
}
use node_red_contrib_pod_gat.StreamQueue.Balance.Run.{run-Holds, defer-owes}
use node_red_contrib_pod_gat.StreamQueue.Draining.{retry_rounds, retry_rounds-end}
use node_red_contrib_pod_gat.StreamQueue.Maps.{maps, maps-Laws, no_lane, empty_queue}

abbrev encode : Task → Text
encode t = codes "{}"

abbrev task : Task
task = record {
  pod_id = some "pod-1";
  request_id = some "r1";
  priority = none;
  retry_sequence = 0;
  last_queued_at = 0;
  queue_id = none;
  queue_stream = none;
  rest = null;
}

abbrev entry : Message
entry = record { id = 0; bulk = false; payload = codes "{}" }

no_lane-IsPaired : IsPaired maps no_lane
unfolding get
no_lane-IsPaired k e = absurd (cc e)

empty-Holds : Holds maps empty_queue 0 0
empty-Holds = record {
  balanced = refl;
  normal_paired = no_lane-IsPaired;
  bulk_paired = no_lane-IsPaired;
  bounded = omega arith;
}

accepted : (schedule_script maps no_lane 0 (codes "k") (codes "{}") 5 false 10).1 ≡ some false
unfolding schedule_script get
accepted = refl

schedule-promote_example : Promoted maps (codes "k") (codes "{}") 7 (
    promote_script maps
      (schedule_script maps no_lane 0 (codes "k") (codes "{}") 5 false 10).0.0
      (codes "k")
      7)
schedule-promote_example =
    schedule-promote maps maps-Laws no_lane 0 (codes "k") (codes "{}") 5 7 10 false false accepted
      (omega arith)

abbrev no_faults : Faults
no_faults = record { incr = none; xadd = none; decr = none }

abbrev events : List Event
events =
    enqueues task no_faults ∷ defers entry task "x" (some 5) 1 ∷ promotes 6 ∷ finishes entry ∷ []

orderly : IsOrderlyRun maps encode empty_queue events
unfolding IsOrderlyRun step enqueue append with_lane is_bulk retry_token get set delete defer
    schedule_retry schedule_script put_retry dispatch_ends is_deferred acknowledge delete_entry
    release_slot promote_due_retries promote_all due_retries promote_retry_member promote_script
orderly = (refl, ((refl, refl), (tt, (refl, tt))))

run-Holds_example : Holds maps (run maps encode empty_queue events) 0 0
run-Holds_example = run-Holds maps maps-Laws encode empty_queue events orderly empty-Holds

-- One delayed retry, and a second entry with the same request ID.
abbrev token : Text
token = codes "normal:pod-1:r1"

no_entry : get {K = ℕ} {V = Text} [] 0 ≡ none
unfolding get
no_entry = refl

no_score : get {K = Text} {V = ℕ} [] token ≡ none
unfolding get
no_score = refl

abbrev shared_lane : Lane maps
shared_lane = record {
  stream = ((0, codes "{}") ∷ [], (no_entry, tt));
  retry = ((token, 5) ∷ [], (no_score, tt));
  payloads = (token, codes "{}") ∷ [];
}

abbrev shared_queue : Queue maps
shared_queue = record empty_queue { depth = 2; normal = shared_lane }

shared_lane-IsPaired : IsPaired maps shared_lane
unfolding get
shared_lane-IsPaired k e = elim (Bool-cases (token == k)) [
  | inl s ↦ rw s refl
  | inr s ↦ absurd (cc (rw s at e))
]

shared-Holds : Holds maps shared_queue 0 0
shared-Holds = record {
  balanced = refl;
  normal_paired = shared_lane-IsPaired;
  bulk_paired = no_lane-IsPaired;
  bounded = omega arith;
}

waits_shared : is_some (maps.unacked shared_lane.stream 0) ≡ true
unfolding get
waits_shared = refl

scored_shared :
    maps.zscore (lane maps shared_queue (is_bulk task)).retry (retry_token task (is_bulk task) "x")
    ≡ some 5
unfolding get retry_token is_bulk
scored_shared = refl

defer-owes_example : Holds maps (defer maps encode shared_queue entry task "x" (some 5) 1) 0 1
defer-owes_example =
    defer-owes maps maps-Laws encode shared_queue entry task "x" (some 5) 1 5 refl waits_shared
      scored_shared shared-Holds

-- One retry is due, and the second round promotes nothing.
retry_rounds-end_example : is_some (retry_rounds maps 2 shared_queue 9) ≡ true
retry_rounds-end_example = retry_rounds-end maps maps-Laws shared_queue 9
