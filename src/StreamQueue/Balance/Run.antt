-- ===== src/StreamQueue/Balance/Run.antt =====
-- The balance of the queue over all its steps.
use node_red_contrib_pod_gat.Prelude.{
  ℕ, ◌+◌, ◌≡◌, refl, sym, ap, subst, Bool, true, false, not, Option, none, some, List, [], ◌∷◌,
  Text, String, Bool-cases, inl, inr, is_some, or_else,
}
use node_red_contrib_pod_gat.StreamQueue.Commands.{Commands, Laws}
use node_red_contrib_pod_gat.StreamQueue.Store.{
  Task, Lane, Queue, failed, unavailable, lane, with_lane, is_bulk, retry_token,
}
use node_red_contrib_pod_gat.StreamQueue.Store.Scripts.{
  schedule_script, put_retry, schedule_retry, next_try,
}
use node_red_contrib_pod_gat.StreamQueue.Store.Retries.{one_if, schedule_script-kept}
use node_red_contrib_pod_gat.StreamQueue.Delivery.{Message, returned, release_slot, dispatch_ends}
use node_red_contrib_pod_gat.StreamQueue.Balance.{Holds, enqueue-Holds}
use node_red_contrib_pod_gat.StreamQueue.Balance.Retrying.{
  promote_due_retries-Holds, schedule_retry-Holds, schedule_retry-kept,
}
use node_red_contrib_pod_gat.StreamQueue.Balance.Steps.{
  all_sent, is_deferred, Event, enqueues, schedules, defers, promotes, finishes, fails, defer, step,
  run, IsWaiting, IsOrderly, IsOrderlyRun,
}
use node_red_contrib_pod_gat.StreamQueue.Balance.Endings.{
  cleared-Holds, finishes-Holds, handed_over-Holds,
}

module _ (r : Commands) (laws : Laws r) where
  -- Scheduling touches no stream.
  stream-with_lane :
      (q : Queue r) (bulk b : Bool) (l : Lane r)
      → l.stream ≡ (lane r q bulk).stream
      → (lane r (with_lane r q bulk l) b).stream ≡ (lane r q b).stream
  unfolding with_lane
  stream-with_lane q true true l e = e
  stream-with_lane q true false l e = refl
  stream-with_lane q false true l e = refl
  stream-with_lane q false false l e = e

  pub schedule_retry-ready :
      (encode : Task → Text) (q : Queue r) (t : Task) (random : String) (delay : Option ℕ) (now : ℕ)
      → q.command_ready ≡ true
      → is_deferred (schedule_retry r encode q t random delay now true).1 ≡ true
        × ((b : Bool)
            → (lane r (schedule_retry r encode q t random delay now true).0 b).stream
              ≡ (lane r q b).stream)
  unfolding schedule_retry is_deferred put_retry
  schedule_retry-ready encode q t random delay now ready =
      let l = lane r q (is_bulk t) in
      let k = retry_token t (is_bulk t) random in
      let payload = encode (next_try r t now) in
      let at = now + or_else delay 0 in
      let after = schedule_script r l q.depth k payload at true q.max_queue_size in
      let kept = schedule_script-kept r laws l q.depth k payload at q.max_queue_size in
      let open_now : not q.command_ready ≡ false = ap not ready in
      let answer : after.1 ≡ some (is_some (r.zscore l.retry k)) = ap (λ x. x.1) kept in
      let same : after.0.0.stream ≡ l.stream = ap (λ x. x.0.0.stream) kept in
      rw (open_now, answer) (refl, λ b. stream-with_lane q (is_bulk t) b after.0.0 same)

  pub schedule_retry-unready :
      (encode : Task → Text) (q : Queue r) (t : Task) (random : String) (delay : Option ℕ) (now : ℕ)
      → q.command_ready ≡ false
      → schedule_retry r encode q t random delay now true ≡ (q, failed unavailable)
  unfolding schedule_retry
  schedule_retry-unready encode q t random delay now e =
      let shut : not q.command_ready ≡ true = ap not e in rw shut refl

  defer-Holds :
      (encode : Task → Text) (q : Queue r) (m : Message) (t : Task) (random : String)
      (delay : Option ℕ) (now : ℕ)
      → IsWaiting r q m
      → r.zscore (lane r q (is_bulk t)).retry (retry_token t (is_bulk t) random) ≡ none
      → Holds r q 0 0
      → Holds r (defer r encode q m t random delay now) 0 0
  unfolding defer is_deferred
  defer-Holds encode q m t random delay now w new h = elim (Bool-cases q.command_ready) [
    | inr e ↦
        let refused = schedule_retry-unready encode q t random delay now e in
        subst (λ x. Holds r (dispatch_ends r x.0 m (returned (is_deferred x.1)) all_sent) 0 0)
          (sym refused) (finishes-Holds r laws q m w h)
    | inl e ↦
        let kept = (schedule_retry r encode q t random delay now true).0 in
        let (deferred, streams) = schedule_retry-ready encode q t random delay now e in
        let one_more : Holds r kept 1 0 =
          subst (λ o. Holds r kept (one_if (not (is_some o))) 0) new
            (schedule_retry-kept r laws encode q t random delay now h e) in
        rw deferred (
          handed_over-Holds r laws kept m
            (subst (λ s. is_some (r.unacked s m.id) ≡ true) (sym (streams m.bulk)) w) one_more)
  ]

  -- A connected queue that holds together and defers an item while a retry with its token is scheduled,
  -- as two messages with one request ID of a POD make it, keeps a slot for which there is no work: the
  -- depth stays one too high.
  pub defer-owes :
      (encode : Task → Text) (q : Queue r) (m : Message) (t : Task) (random : String)
      (delay : Option ℕ) (now at : ℕ)
      → q.command_ready ≡ true
      → IsWaiting r q m
      → r.zscore (lane r q (is_bulk t)).retry (retry_token t (is_bulk t) random) ≡ some at
      → Holds r q 0 0
      → Holds r (defer r encode q m t random delay now) 0 1
  unfolding defer dispatch_ends release_slot
  defer-owes encode q m t random delay now at ready w old h =
      let kept = (schedule_retry r encode q t random delay now true).0 in
      let (deferred, streams) = schedule_retry-ready encode q t random delay now ready in
      let no_more : Holds r kept 0 0 =
        subst (λ o. Holds r kept (one_if (not (is_some o))) 0) old
          (schedule_retry-kept r laws encode q t random delay now h ready) in
      rw deferred (
        cleared-Holds r laws kept m 0
          (subst (λ s. is_some (r.unacked s m.id) ≡ true) (sym (streams m.bulk)) w) no_more)

  step-Holds :
      (encode : Task → Text) (q : Queue r) (e : Event)
      → IsOrderly r q e
      → Holds r q 0 0
      → Holds r (step r encode q e) 0 0
  unfolding step dispatch_ends
  step-Holds encode q (enqueues t faults) o h = enqueue-Holds r laws encode q t faults o h
  step-Holds encode q (schedules t random delay now) o h =
      schedule_retry-Holds r laws encode q t random delay now h
  step-Holds encode q (defers m t random delay now) o h =
      defer-Holds encode q m t random delay now o.0 o.1 h
  step-Holds encode q (promotes now) o h = promote_due_retries-Holds r laws q now h
  step-Holds encode q (finishes m) o h = finishes-Holds r laws q m o h
  step-Holds encode q (fails m net) o h = h

  -- A queue holds together when its depth is the number of waiting entries and delayed retries and is not
  -- above the maximum, and every delayed retry has its payload. A queue that does still does after any
  -- enqueues, delayed retries, promotions, and ends of handlers in any order, where an entry is finished
  -- or deferred only while it is not acknowledged, an item is deferred only while no retry with its
  -- token is scheduled, and neither a command at such an end fails nor the `DECR` that gives back the slot
  -- of an item that could not be added.
  pub run-Holds :
      (encode : Task → Text) (q : Queue r) (es : List Event)
      → IsOrderlyRun r encode q es
      → Holds r q 0 0
      → Holds r (run r encode q es) 0 0
  unfolding run IsOrderlyRun
  run-Holds encode q [] o h = h
  run-Holds encode q (e ∷ es) o h =
      run-Holds encode (step r encode q e) es o.1 (step-Holds encode q e o.0 h)
