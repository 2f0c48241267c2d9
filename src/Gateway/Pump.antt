-- ===== src/Gateway/Pump.antt =====
-- `_pump`, `_execute`, `_requeue` and `_schedulePump`, cut where they wait. Each function runs up to
-- the next `await`, or to the end.
use node_red_contrib_pod_gat.Prelude.{
  ℕ, zero, suc, ◌+◌, ◌-◌, Bool, true, false, not, ◌&&◌, Option, none, some, List, [], ◌∷◌, ◌++◌,
  string_eq, nat_eq, text_eq, ◌==◌, codes, nonempty, is_some, first_some, max, ltb, leb, eqb,
  if◌then◌else◌,
}
use node_red_contrib_pod_gat.Map.{get}
use node_red_contrib_pod_gat.RateLimit.{Decision}
use node_red_contrib_pod_gat.Gateway.Types.{
  Gateway, Item, Failure, Adapter, Pump, parked, turning, deciding, Timer,
}
use node_red_contrib_pod_gat.Gateway.Send.{emit_metric, item_metric, failure_of}
use node_red_contrib_pod_gat.Gateway.Timing.{
  expired, mark_processing, block, record_upstream, execution_timeout, retry_wait,
}
use node_red_contrib_pod_gat.Gateway.Sorting.{sort_items}
use node_red_contrib_pod_gat.Gateway.Finish.{Ending, returned, raised, finish}

abbrev pub is_parked : Pump → Bool
is_parked parked = true
is_parked _ = false

-- `_pump` up to the loop: it does nothing while it runs, while its timer is set, or with no item.
unfoldable pub start_pump : Gateway → Gateway
start_pump g =
    if is_parked g.pump && not (is_some g.pump_timer) && nonempty g.memory_queue
    then record g { pump = turning }
    else g

unfoldable pub schedule_pump : Gateway → ℕ → ℕ → Gateway
schedule_pump g now delay =
    if is_some g.pump_timer then g else record g { pump_timer = some (now + max 1 delay) }

unfoldable pub fired : Gateway → ℕ → Option ℕ → Gateway
fired g now none = g
fired g now (some due) = if leb due now then start_pump (record g { pump_timer = none }) else g

-- The callback of that timer.
unfoldable pub pump_timer_fires : Gateway → ℕ → Gateway
pump_timer_fires g now = fired g now g.pump_timer

unfoldable pub requeue : Gateway → ℕ → Item → Gateway
requeue g now item = start_pump (record g {
  memory_queue = sort_items (g.memory_queue ++ record item { last_queued_at = now } ∷ []);
})

-- The error that `_execute` makes of what the adapter threw.
unfoldable pub normalized : Failure → Option ℕ → Failure
normalized e status = record {
  code = if e.code == "" then "UPSTREAM_ERROR" else e.code;
  message = if nonempty e.message then e.message else codes "Upstream request failed";
  retryable = e.retryable;
  retry_after_ms = e.retry_after_ms;
  details = none;
  status = first_some e.status status;
  response_body = e.response_body;
}

-- A failed call is tried again.
unfoldable pub retries : Gateway → ℕ → Item → Failure → Bool
retries g now item e = e.retryable && leb item.attempts g.max_attempts && not (expired item now)

abbrev pub delay_retry : Gateway → ℕ → Item → Failure → Gateway
delay_retry g now item e = record g {
  delayed =
      record { due = now + retry_wait e.retry_after_ms item.attempts; value = item } ∷ g.delayed;
}

unfoldable pub fail_execution : Gateway → ℕ → Item → Failure → Option ℕ → Gateway
fail_execution g now item e status =
    if retries g now item e then delay_retry g now item e else finish g now item (raised e) status

-- The end of `_execute`, without its `finally`. `status` is the upstream response's status code.
unfoldable pub conclude : Gateway → ℕ → Item → Ending → Option ℕ → ℕ → Gateway
conclude g now item (returned v) status elapsed =
    let done = record_upstream elapsed item in
    finish (emit_metric g (item_metric "upstream.completed" done "")) now done (returned v) status
conclude g now item (raised e) status elapsed =
    let done = record_upstream elapsed item in
    fail_execution (emit_metric g (item_metric "upstream.completed" done e.code)) now done
      (normalized e status) status

unfoldable pub is_callable : Option Adapter → Bool
is_callable none = false
is_callable (some a) = a.callable

abbrev pub settling_one : Gateway → Gateway
settling_one g = record g { settling = suc g.settling }

abbrev pub invalid_adapter : Item → Failure
invalid_adapter item =
    failure_of "ADAPTER_INVALID"
      (codes "Adapter for " ++ (item.operation.value ++ codes " is invalid")) false

-- `_execute` up to the call of the adapter, behind `this.active++`.
unfoldable pub execute : Gateway → ℕ → Item → Gateway
execute g now item =
    let begun = record item {
      attempts = suc item.attempts;
      timeout_ms = execution_timeout g.config item now;
    } in
    let told = emit_metric g (item_metric "upstream.started" begun "") in
    if is_callable (get g.adapters item.operation.value)
    then record told { executing = begun ∷ told.executing }
    else settling_one (conclude told now begun (raised (invalid_adapter begun)) none 0)

unfoldable pub deadline_failure : Failure
deadline_failure =
    failure_of "DEADLINE_EXCEEDED" (codes "Task deadline exceeded before execution") true

-- An item that the loop has taken from the queue.
unfoldable pub take_item : Gateway → ℕ → Item → Gateway
take_item g now item =
    let told = emit_metric g (item_metric "request.processing" item "") in
    if expired item now
    then finish told now item (raised deadline_failure) none
    else record told { pump = deciding item }

unfoldable pub turn : Gateway → ℕ → List Item → Gateway
turn g now [] = record g { pump = parked }
turn g now (item ∷ rest) =
    if ltb g.active g.concurrency
    then take_item (record g { memory_queue = rest }) now (mark_processing now item)
    else record g { pump = parked }

unfoldable pub round : Gateway → ℕ → Pump → Gateway
round g now parked = g
round g now turning = turn g now g.memory_queue
round g now (deciding item) = g

-- One round of the loop of `_pump`, from its test to the rate limiter's decision.
unfoldable pub pump_turn : Gateway → ℕ → Gateway
pump_turn g now = round g now g.pump

-- What `rateLimiter.allow` does: it answers, or it throws. With no limiter it admits at once.
pub data Answer : Type 0 where
  answered : Decision → Answer
  unavailable : Answer

unfoldable pub limiter_failure : Failure
limiter_failure =
    failure_of "RATE_LIMITER_UNAVAILABLE" (codes "Global rate limiter is unavailable") true

unfoldable pub put_back : Gateway → ℕ → Item → ℕ → Gateway
put_back g now item retry_after_ms =
    schedule_pump (record g { memory_queue = block now item ∷ g.memory_queue; pump = parked }) now
      (if eqb retry_after_ms 0 then 100 else retry_after_ms)

unfoldable pub admit : Gateway → ℕ → Item → Gateway
admit g now item = execute (record g { active = suc g.active; pump = turning }) now item

unfoldable pub decided_for : Gateway → ℕ → Item → Answer → Gateway
decided_for g now item unavailable =
    finish (record g { pump = turning }) now item (raised limiter_failure) none
decided_for g now item (answered d) =
    let told = emit_metric g (item_metric "rate_limit.decision" item "") in
    if d.allowed then admit told now item else put_back told now item d.retry_after_ms

unfoldable pub resume : Gateway → ℕ → Answer → Pump → Gateway
resume g now a parked = g
resume g now a turning = g
resume g now a (deciding item) = decided_for g now item a

-- The rest of the round, behind the decision.
unfoldable pub decided : Gateway → ℕ → Answer → Gateway
decided g now a = resume g now a g.pump

unfoldable pub keep_item : Item → Option (Item × List Item) → Option (Item × List Item)
keep_item x none = none
keep_item x (some (y, ys)) = some (y, x ∷ ys)

-- Take the item with this serial number out of a list.
unfoldable pub take_out : ℕ → List Item → Option (Item × List Item)
take_out n [] = none
take_out n (x ∷ xs) = if eqb x.serial n then some (x, xs) else keep_item x (take_out n xs)

-- The adapter of an executing item returns or throws, after some time.
unfoldable pub executed : Gateway → ℕ → ℕ → Ending → Option ℕ → ℕ → Gateway
executed g now serial ending status elapsed = elim (take_out serial g.executing) [
  | none ↦ g
  | some (item, rest) ↦
      settling_one (conclude (record g { executing = rest }) now item ending status elapsed)
]

unfoldable pub settled : Gateway → ℕ → Gateway
settled g zero = g
settled g (suc n) = start_pump (record g { settling = n; active = g.active - 1 })

-- The `finally` of an execution.
unfoldable pub settle : Gateway → Gateway
settle g = settled g g.settling

unfoldable pub keep_timer :
    Timer Item → Option (Item × List (Timer Item)) → Option (Item × List (Timer Item))
keep_timer x none = none
keep_timer x (some (y, ys)) = some (y, x ∷ ys)

-- The due retry of this item, and the other timers.
unfoldable pub take_due : ℕ → ℕ → List (Timer Item) → Option (Item × List (Timer Item))
take_due now n [] = none
take_due now n (t ∷ ts) =
    if eqb t.value.serial n && leb t.due now
    then some (t.value, ts)
    else keep_timer t (take_due now n ts)

-- The retry timer of an item fires.
unfoldable pub retry_due : Gateway → ℕ → ℕ → Gateway
retry_due g now serial = elim (take_due now serial g.delayed) [
  | none ↦ g
  | some (item, rest) ↦ requeue (record g { delayed = rest }) now item
]
