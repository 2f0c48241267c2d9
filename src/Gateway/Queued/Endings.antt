-- ===== src/Gateway/Queued/Endings.antt =====
-- The steps of the handler of a queued item, one by one, and what each has done.
use node_red_contrib_pod_gat.Prelude.{
  ℕ, suc, ◌≡◌, refl, ap, subst, inl, inr, Bool, Option, none, some, String, string_eq, text_eq,
  ◌==◌, eq_iff, Option-cases, Bool-cases, arith,
}
use node_red_contrib_pod_gat.Map.{get}
use node_red_contrib_pod_gat.Gateway.Types.{Item, Response, Failure, truthy}
use node_red_contrib_pod_gat.Gateway.Send.{emit_metric, item_metric}
use node_red_contrib_pod_gat.Gateway.Timing.{
  expired, record_upstream, retry_wait, execution_timeout,
}
use node_red_contrib_pod_gat.Gateway.Finish.{Ending, returned, raised, response_for_request}
use node_red_contrib_pod_gat.Gateway.Pump.{
  retries, is_callable, deadline_failure, Answer, answered, unavailable, normalized,
  invalid_adapter, limiter_failure,
}
use node_red_contrib_pod_gat.StreamQueue.Store.{Reply, failed, replied}
use node_red_contrib_pod_gat.StreamQueue.Records.{Entry}
use node_red_contrib_pod_gat.Gateway.Queued.{Backend, BackendLaws, Server, tell, finish}
use node_red_contrib_pod_gat.Gateway.Queued.Handling.{
  Stage, looking, deciding, executing, ended, Input, looked, limited, called, cached_response,
  fail_with, requeue, fail_execution, caught, delivered_or_caught, conclude, execute, put_off,
  decided, check_deadline, found, look_up, advance, queue_failure,
}
use node_red_contrib_pod_gat.Gateway.Queued.Outcomes.{
  Done, source_of, IsDone, IsDone-like, Reply-cases, IsDone-told, ended_by-Done, finish-Delivered,
  deliver_response-Delivered, Delivered,
}

module _ (b : Backend) (laws : BackendLaws b) where
  fail_with-Done :
      (s : Server b) (now : ℕ) (item : Item) (e : Failure)
      → IsDone b s item (fail_with b s now item e)
  unfolding fail_with
  fail_with-Done s now item e =
      ended_by-Done b laws s (source_of item) item.request_id (finish b s now item (raised e) none)
        (finish-Delivered b laws s now item (raised e) none)

  requeue-Done :
      (s : Server b) (now : ℕ) (item : Item) (wait : ℕ)
      → IsDone b s item (requeue b s now item wait)
  unfolding requeue Done
  requeue-Done s now item wait =
      let stamped = record item { last_queued_at = now } in
      elim (Reply-cases (b.schedule_retry s.store stamped wait now).1) [
        | inl (e, h) ↦
            rw (h, requeue)
              (IsDone-like b laws s
                (record s { store = (b.schedule_retry s.store stamped wait now).0 }) item
                (fail_with b (record s { store = (b.schedule_retry s.store stamped wait now).0 })
                  now stamped (queue_failure e))
                (
                  (refl, refl),
                  ap (λ n. (s.gateway.sent, s.gateway.active, n))
                      (laws.schedule-entries s.store stamped wait now),
                )
                (fail_with-Done (record s { store = (b.schedule_retry s.store stamped wait now).0 })
                  now stamped (queue_failure e)))
        | inr (at, h) ↦
            rw (h, requeue)
              (
                (stamped, (refl, refl), laws.schedule-is_scheduled s.store stamped wait now at h),
                ap (λ n. (s.gateway.sent, s.gateway.active, n))
                    (laws.schedule-entries s.store stamped wait now),
              )
      ]

  fail_execution-Done :
      (s : Server b) (now : ℕ) (item : Item) (e : Failure) (status : Option ℕ)
      → IsDone b s item (fail_execution b s now item e status)
  unfolding fail_execution
  fail_execution-Done s now item e status = elim (Bool-cases (retries s.gateway now item e)) [
    | inl h ↦
        rw (h, fail_execution) (requeue-Done s now item (retry_wait e.retry_after_ms item.attempts))
    | inr h ↦
        rw (h, fail_execution)
          (ended_by-Done b laws s (source_of item) item.request_id
            (finish b s now item (raised e) status)
            (finish-Delivered b laws s now item (raised e) status))
  ]

  caught-Done :
      (s : Server b) (now : ℕ) (item : Item) (e : Failure) (status : Option ℕ) (elapsed : ℕ)
      → IsDone b s item (caught b s now item e status elapsed)
  unfolding caught tell emit_metric record_upstream
  caught-Done s now item e status elapsed =
      let done = record_upstream elapsed item in
      IsDone-told b laws s (item_metric "upstream.completed" done e.code) item _ (
        fail_execution-Done (tell b s (item_metric "upstream.completed" done e.code)) now done
          (normalized e status) status)

  delivered_or_caught-Done :
      (s : Server b) (now : ℕ) (item : Item) (status : Option ℕ) (again : ℕ)
      (x : Server b × Reply Bool)
      → Delivered b s x.0 (source_of item) item.request_id x.1
      → IsDone b s item (delivered_or_caught b now item status again x)
  unfolding delivered_or_caught Done
  delivered_or_caught-Done s now item status again (t, replied delivered) d = d
  delivered_or_caught-Done s now item status again (t, failed e) d =
      IsDone-like b laws s t item (caught b t now item e status again) d
        (caught-Done t now item e status again)

  conclude-Done :
      (s : Server b) (now : ℕ) (item : Item) (ending : Ending) (status : Option ℕ)
      (elapsed again : ℕ)
      → IsDone b s item (conclude b s now item ending status elapsed again)
  unfolding conclude record_upstream
  conclude-Done s now item (raised e) status elapsed again = caught-Done s now item e status elapsed
  conclude-Done s now item (returned v) status elapsed again =
      let done = record_upstream elapsed item in
      let told = tell b s (item_metric "upstream.completed" done "") in
      IsDone-told b laws s (item_metric "upstream.completed" done "") item _ (
        delivered_or_caught-Done told now done status again
          (finish b told now done (returned v) status)
          (finish-Delivered b laws told now done (returned v) status))

  execute-Done : (s : Server b) (now : ℕ) (item : Item) → IsDone b s item (execute b s now item)
  unfolding execute Done tell emit_metric
  execute-Done s now item =
      let begun = record item {
        attempts = suc item.attempts;
        timeout_ms = execution_timeout s.gateway.config item now;
      } in
      let told = tell b s (item_metric "upstream.started" begun "") in
      elim (Bool-cases (is_callable (get s.gateway.adapters item.operation.value))) [
        | inl h ↦ rw (h, execute) ((refl, refl), refl)
        | inr h ↦
            rw (h, execute)
              (IsDone-told b laws s (item_metric "upstream.started" begun "") item
                (caught b told now begun (invalid_adapter begun) none 0)
                (caught-Done told now begun (invalid_adapter begun) none 0))
      ]

  decided-Done :
      (s : Server b) (now : ℕ) (item : Item) (a : Answer) → IsDone b s item (decided b s now item a)
  unfolding decided put_off
  decided-Done s now item unavailable = fail_with-Done s now item limiter_failure
  decided-Done s now item (answered d) =
      let m = item_metric "rate_limit.decision" item "" in
      let told = tell b s m in
      elim (Bool-cases d.allowed) [
        | inl h ↦ rw (h, decided) (IsDone-told b laws s m item _ (execute-Done told now item))
        | inr h ↦
            rw (h, decided)
              (IsDone-told b laws s m item _
                (requeue-Done told now (record item { rate_limit_blocked_at = some now }) _))
      ]

  check_deadline-Done :
      (s : Server b) (now : ℕ) (item : Item) → IsDone b s item (check_deadline b s now item)
  unfolding check_deadline Done
  check_deadline-Done s now item = elim (Bool-cases (expired item now)) [
    | inl h ↦ rw (h, check_deadline) (fail_with-Done s now item deadline_failure)
    | inr h ↦ rw (h, check_deadline) ((refl, refl), refl)
  ]

  response_for_request-request_id :
      (r : Response) (id : String) → (response_for_request r id).request_id ≡ id
  unfolding response_for_request
  response_for_request-request_id r id = elim (Bool-cases (r.request_id == id)) [
    | inl h ↦ rw h (ground (arith, eq_iff r.request_id id, h))
    | inr h ↦ rw h refl
  ]

  found-Done :
      (s : Server b) (now : ℕ) (item : Item) (x : Reply (Option (Entry Response)))
      → IsDone b s item (found b s now item x)
  unfolding found Done
  found-Done s now item (failed e) = refl
  found-Done s now item (replied entry) = elim (Option-cases (cached_response entry)) [
    | inl h ↦ rw (h, found) (check_deadline-Done s now item)
    | inr (r, h) ↦
        rw (h, found)
          (ended_by-Done b laws s (source_of item) item.request_id _ (
            deliver_response-Delivered b laws s item (response_for_request r item.request_id)
              (response_for_request-request_id r item.request_id)))
  ]

  look_up-Done : (s : Server b) (now : ℕ) (item : Item) → IsDone b s item (look_up b s now item)
  unfolding look_up
  look_up-Done s now item = elim (Option-cases (truthy item.message.idempotency_key)) [
    | inl h ↦ rw (h, look_up) (check_deadline-Done s now item)
    | inr (key, h) ↦ rw (h, look_up) (found-Done s now item _)
  ]

-- The item that a handler which has not ended is about.
abbrev pub item_of : Stage → Option Item
item_of (looking item) = some item
item_of (deciding item) = some item
item_of (executing item) = some item
item_of (ended e) = none

same : {x y : Item} → some x ≡ some y → x ≡ y
same e = cc e

module _ (b : Backend) (laws : BackendLaws b) where
  unmoved-Done :
      (s : Server b) (stage : Stage) (item : Item)
      → item_of stage ≡ some item
      → IsDone b s item (s, stage)
  unfolding Done
  unmoved-Done s (looking x) item own =
      ((ap source_of (same own), ap (λ i. i.request_id) (same own)), refl)
  unmoved-Done s (deciding x) item own =
      ((ap source_of (same own), ap (λ i. i.request_id) (same own)), refl)
  unmoved-Done s (executing x) item own =
      ((ap source_of (same own), ap (λ i. i.request_id) (same own)), refl)
  unmoved-Done s (ended e) item own = absurd (cc own)

  pub advance-Done :
      (s : Server b) (now : ℕ) (item : Item) (stage : Stage) (input : Input)
      → item_of stage ≡ some item
      → IsDone b s item (advance b s now stage input)
  unfolding advance
  advance-Done s now item (looking x) looked own =
      subst (λ i. IsDone b s i (look_up b s now x)) (same own) (look_up-Done b laws s now x)
  advance-Done s now item (looking x) (limited a) own = unmoved-Done s (looking x) item own
  advance-Done s now item (looking x) (called ending status elapsed again) own =
      unmoved-Done s (looking x) item own
  advance-Done s now item (deciding x) (limited a) own =
      subst (λ i. IsDone b s i (decided b s now x a)) (same own) (decided-Done b laws s now x a)
  advance-Done s now item (deciding x) looked own = unmoved-Done s (deciding x) item own
  advance-Done s now item (deciding x) (called ending status elapsed again) own =
      unmoved-Done s (deciding x) item own
  advance-Done s now item (executing x) (called ending status elapsed again) own =
      subst (λ i. IsDone b s i (conclude b s now x ending status elapsed again)) (same own)
        (conclude-Done b laws s now x ending status elapsed again)
  advance-Done s now item (executing x) looked own = unmoved-Done s (executing x) item own
  advance-Done s now item (executing x) (limited a) own = unmoved-Done s (executing x) item own
  advance-Done s now item (ended e) input own = absurd (cc own)
