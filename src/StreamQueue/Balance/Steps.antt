-- ===== src/StreamQueue/Balance/Steps.antt =====
-- The steps of a queue, in any order.
use node_red_contrib_pod_gat.Prelude.{
  ℕ, ◌≡◌, refl, Bool, true, false, Option, none, List, [], ◌∷◌, Text, String, is_some,
}
use node_red_contrib_pod_gat.StreamQueue.Commands.{Commands}
use node_red_contrib_pod_gat.StreamQueue.Store.{
  Task, Lane, Queue, Reply, Faults, failed, replied, lane, with_lane, is_bulk, retry_token, enqueue,
}
use node_red_contrib_pod_gat.StreamQueue.Store.Scripts.{schedule_retry, promote_due_retries}
use node_red_contrib_pod_gat.StreamQueue.Delivery.{Message, returned, threw, Net, dispatch_ends}

abbrev pub all_sent : Net
all_sent = record { acks = true; deletes = true; counts = true }

-- `_handleQueuedItem` that is rate limited: the entry's slot goes to a delayed retry, and where that
-- cannot be scheduled the item is finished with an error.
unfoldable pub is_deferred : Reply ℕ → Bool
is_deferred (failed e) = false
is_deferred (replied at) = true

pub data Event : Type 0 where
  enqueues : Task → Faults → Event
  schedules : Task → String → Option ℕ → ℕ → Event
  defers : Message → Task → String → Option ℕ → ℕ → Event
  promotes : ℕ → Event
  finishes : Message → Event
  fails : Message → Net → Event

module _ (r : Commands) where
  unfoldable pub defer : (Task → Text) → Queue r → Message → Task → String → Option ℕ → ℕ → Queue r
  defer encode q m t random delay now =
      let (kept, reply) = schedule_retry r encode q t random delay now true in
      dispatch_ends r kept m (returned (is_deferred reply)) all_sent

  unfoldable pub step : (Task → Text) → Queue r → Event → Queue r
  step encode q (enqueues t faults) = (enqueue r encode q t faults).0
  step encode q (schedules t random delay now) =
      (schedule_retry r encode q t random delay now false).0
  step encode q (defers m t random delay now) = defer encode q m t random delay now
  step encode q (promotes now) = (promote_due_retries r q now).0
  step encode q (finishes m) = dispatch_ends r q m (returned false) all_sent
  step encode q (fails m net) = dispatch_ends r q m threw net

  unfoldable pub run : (Task → Text) → Queue r → List Event → Queue r
  run encode q [] = q
  run encode q (e ∷ es) = run encode (step encode q e) es

  -- The entry was not acknowledged yet.
  abbrev pub IsWaiting : Queue r → Message → Type 0
  IsWaiting q m = is_some (r.unacked (lane r q m.bulk).stream m.id) ≡ true

  -- The slot of an item that is not added is given back, no entry is finished twice, and no retry with the token of the item is scheduled when it is deferred.
  abbrev pub IsOrderly : Queue r → Event → Type 0
  IsOrderly q (enqueues t faults) = faults.decr ≡ none
  IsOrderly q (finishes m) = IsWaiting q m
  IsOrderly q (defers m t random delay now) =
      IsWaiting q m
      × (r.zscore (lane r q (is_bulk t)).retry (retry_token t (is_bulk t) random) ≡ none)
  IsOrderly q e = Unit {0}

  unfoldable pub IsOrderlyRun : (Task → Text) → Queue r → List Event → Type 0
  IsOrderlyRun encode q [] = Unit {0}
  IsOrderlyRun encode q (e ∷ es) = IsOrderly q e × IsOrderlyRun encode (step encode q e) es

  pub lane-with_lane :
      (q : Queue r) (bulk : Bool) (l : Lane r) → lane r (with_lane r q bulk l) bulk ≡ l
  unfolding with_lane
  lane-with_lane q true l = refl
  lane-with_lane q false l = refl
