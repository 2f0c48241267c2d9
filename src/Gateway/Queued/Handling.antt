-- ===== src/Gateway/Queued/Handling.antt =====
-- `_handleQueuedItem`, `_execute` and `_requeue` of a server with a shared queue, cut where the handler
-- waits for something of its own: the cached result, the rate limiter, the adapter. Other handlers run
-- in between. A command of the queue and what follows its answer are one step.
use node_red_contrib_pod_gat.Prelude.{
  ℕ, suc, ◌-◌, Bool, true, false, Option, none, some, text_eq, max, eqb, if◌then◌else◌,
}
use node_red_contrib_pod_gat.Map.{get}
use node_red_contrib_pod_gat.Gateway.Types.{Item, Response, Failure, truthy}
use node_red_contrib_pod_gat.Gateway.Send.{item_metric, failure_of}
use node_red_contrib_pod_gat.Gateway.Timing.{
  expired, mark_processing, record_upstream, execution_timeout, retry_wait,
}
use node_red_contrib_pod_gat.Gateway.Finish.{Ending, returned, raised, response_for_request}
use node_red_contrib_pod_gat.Gateway.Pump.{
  normalized, retries, is_callable, invalid_adapter, deadline_failure, Answer, answered,
  unavailable, limiter_failure,
}
use node_red_contrib_pod_gat.StreamQueue.Store.{Reply, failed, replied}
use node_red_contrib_pod_gat.StreamQueue.Records.{Entry}
use node_red_contrib_pod_gat.StreamQueue.Delivery
use node_red_contrib_pod_gat.Gateway.Queued.{Backend, Server, tell, deliver_response, finish}

-- Where a handler stands: it waits, or it has ended, with whether the item was deferred.
pub data Stage : Type 0 where
  looking deciding executing : Item → Stage
  ended : Delivery.Ending → Stage

-- What a handler waits for: the rate limiter's answer, or the end of the adapter's call, with its
-- status, and how long it took, at first and when `catch` measures again.
pub data Input : Type 0 where
  looked : Input
  limited : Answer → Input
  called : Ending → Option ℕ → ℕ → ℕ → Input

unfoldable pub queue_failure : Failure → Failure
queue_failure e = failure_of "QUEUE_UNAVAILABLE" e.message true

-- The response of a record that was found.
abbrev pub cached_response : Option (Entry Response) → Option Response
cached_response none = none
cached_response (some e) = e.response

module _ (b : Backend) where
  -- What is returned behind `_finish` or `_deliverResponse`.
  unfoldable pub ended_by : Server b × Reply Bool → Server b × Stage
  ended_by (s, failed e) = (s, ended Delivery.threw)
  ended_by (s, replied delivered) = (s, ended (Delivery.returned false))

  unfoldable pub fail_with : Server b → ℕ → Item → Failure → Server b × Stage
  fail_with s now item e = ended_by (finish b s now item (raised e) none)

  -- `_requeue` with `preserveDepth`, and its `catch`.
  unfoldable pub requeue : Server b → ℕ → Item → ℕ → Server b × Stage
  requeue s now item wait =
      let stamped = record item { last_queued_at = now } in
      let (scheduled, reply) = b.schedule_retry s.store stamped wait now in
      let after : Server b = record s { store = scheduled } in
      elim reply [
        | failed e ↦ fail_with after now stamped (queue_failure e)
        | replied at ↦ (after, ended (Delivery.returned true))
      ]

  unfoldable pub fail_execution : Server b → ℕ → Item → Failure → Option ℕ → Server b × Stage
  fail_execution s now item e status =
      if retries s.gateway now item e
      then requeue s now item (retry_wait e.retry_after_ms item.attempts)
      else ended_by (finish b s now item (raised e) status)

  -- The `catch` of `_execute`.
  unfoldable pub caught : Server b → ℕ → Item → Failure → Option ℕ → ℕ → Server b × Stage
  caught s now item e status elapsed =
      let done = record_upstream elapsed item in
      fail_execution (tell b s (item_metric "upstream.completed" done e.code)) now done
        (normalized e status) status

  -- The `catch` is also that of a result that can be neither sent nor stored.
  unfoldable pub delivered_or_caught :
      ℕ → Item → Option ℕ → ℕ → Server b × Reply Bool → Server b × Stage
  delivered_or_caught now item status again (s, replied delivered) =
      (s, ended (Delivery.returned false))
  delivered_or_caught now item status again (s, failed e) = caught s now item e status again

  unfoldable pub conclude : Server b → ℕ → Item → Ending → Option ℕ → ℕ → ℕ → Server b × Stage
  conclude s now item (raised e) status elapsed again = caught s now item e status elapsed
  conclude s now item (returned v) status elapsed again =
      let done = record_upstream elapsed item in
      let told = tell b s (item_metric "upstream.completed" done "") in
      delivered_or_caught now done status again (finish b told now done (returned v) status)

  -- `_execute` up to the call of the adapter.
  unfoldable pub execute : Server b → ℕ → Item → Server b × Stage
  execute s now item =
      let begun = record item {
        attempts = suc item.attempts;
        timeout_ms = execution_timeout s.gateway.config item now;
      } in
      let told = tell b s (item_metric "upstream.started" begun "") in
      if is_callable (get s.gateway.adapters item.operation.value)
      then (told, executing begun)
      else caught told now begun (invalid_adapter begun) none 0

  -- A refused item goes to the delayed retries.
  unfoldable pub put_off : Server b → ℕ → Item → ℕ → Server b × Stage
  put_off s now item retry_after_ms =
      requeue s now (record item { rate_limit_blocked_at = some now })
        (max 1 (if eqb retry_after_ms 0 then 100 else retry_after_ms))

  unfoldable pub decided : Server b → ℕ → Item → Answer → Server b × Stage
  decided s now item unavailable = fail_with s now item limiter_failure
  decided s now item (answered d) =
      let told = tell b s (item_metric "rate_limit.decision" item "") in
      if d.allowed then execute told now item else put_off told now item d.retry_after_ms

  unfoldable pub check_deadline : Server b → ℕ → Item → Server b × Stage
  check_deadline s now item =
      if expired item now then fail_with s now item deadline_failure else (s, deciding item)

  unfoldable pub found : Server b → ℕ → Item → Reply (Option (Entry Response)) → Server b × Stage
  found s now item (failed e) = (s, ended Delivery.threw)
  found s now item (replied entry) = elim (cached_response entry) [
    | some r ↦ ended_by (deliver_response b s item (response_for_request r item.request_id))
    | none ↦ check_deadline s now item
  ]

  -- `getIdempotencyResult` answers.
  unfoldable pub look_up : Server b → ℕ → Item → Server b × Stage
  look_up s now item = elim (truthy item.message.idempotency_key) [
    | none ↦ check_deadline s now item
    | some key ↦ found s now item (b.get_idempotency_result s.store item.pod_id key)
  ]

  unfoldable pub advance : Server b → ℕ → Stage → Input → Server b × Stage
  advance s now (looking item) looked = look_up s now item
  advance s now (deciding item) (limited a) = decided s now item a
  advance s now (executing item) (called ending status elapsed again) =
      conclude s now item ending status elapsed again
  advance s now stage input = (s, stage)

  -- The `finally` of a handler that has ended.
  unfoldable pub leave : Server b × Stage → Server b × Stage
  leave (s, ended e) =
      (record s { gateway = record s.gateway { active = s.gateway.active - 1 } }, ended e)
  leave (s, stage) = (s, stage)

  -- `_handleQueuedItem` up to where it first waits.
  unfoldable pub begin_item : Server b → ℕ → Item → Server b × Stage
  begin_item s now item =
      let marked = mark_processing now item in
      (
        tell b (record s { gateway = record s.gateway { active = suc s.gateway.active } })
            (item_metric "request.processing" marked ""),
        looking marked,
      )
