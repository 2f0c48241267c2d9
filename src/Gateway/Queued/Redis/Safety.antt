-- ===== src/Gateway/Queued/Redis/Safety.antt =====
-- What the server relies on, of the queue in Redis, and an entry whose handler ends.
use node_red_contrib_pod_gat.Prelude.{
  ℕ, ◌≡◌, refl, sym, ap, subst, ◌∙◌, ◌⊎◌, inl, inr, Bool, true, false, not, Option, some, List,
  String, Text, text_eq, string_eq, ◌==◌, ◌&&◌, is_some, if◌then◌else◌, Bool-cases, or_else, ◌+◌,
}
use node_red_contrib_pod_gat.Map.{Map}
use node_red_contrib_pod_gat.Gateway.Types.{Item, Response, Failure, Config, Adapter}
use node_red_contrib_pod_gat.StreamQueue.Commands.{Commands, Laws}
use node_red_contrib_pod_gat.StreamQueue.Store.{
  Task, Queue, Reply, failed, replied, is_bulk, retry_token, lane,
}
use node_red_contrib_pod_gat.StreamQueue.Store.Scripts.{
  schedule_retry, schedule_script, put_retry, next_try,
}
use node_red_contrib_pod_gat.StreamQueue.Store.Retries.{schedule_script-kept}
use node_red_contrib_pod_gat.StreamQueue.Balance.Steps.{lane-with_lane, IsWaiting}
use node_red_contrib_pod_gat.StreamQueue.Balance.Run.{schedule_retry-ready, schedule_retry-unready}
use node_red_contrib_pod_gat.StreamQueue.Delivery
use node_red_contrib_pod_gat.StreamQueue.Delivery.{Net, dispatch_ends}
use node_red_contrib_pod_gat.StreamQueue.Records
use node_red_contrib_pod_gat.StreamQueue.Records.{Strings}
use node_red_contrib_pod_gat.StreamQueue.Pending.{Hashes, HashLaws}
use node_red_contrib_pod_gat.StreamQueue.Pending.Taken.{hget-store}
use node_red_contrib_pod_gat.Gateway.Queued.{BackendLaws, Server}
use node_red_contrib_pod_gat.Gateway.Queued.Handling.{ended, Input, advance}
use node_red_contrib_pod_gat.Gateway.Queued.Outcomes.{
  Done, IsDone, IsOf, Source, source_of, IsAnswered,
}
use node_red_contrib_pod_gat.Gateway.Queued.Runs.{Handler, System, Event, pick, start, run}
use node_red_contrib_pod_gat.Gateway.Queued.Runs.Sound.{run-Done}
use node_red_contrib_pod_gat.Gateway.Queued.Redis.{
  Wire, Shared, redis, task_of, read_result, member_of,
}

if-same {ℓ κ} :
    {A : Type ℓ} {B : Type κ} (f : A → B) (b : Bool) (x y : A)
    → f x ≡ f y
    → f (if b then x else y) ≡ f y
if-same f true x y e = e
if-same f false x y e = refl

-- A command that has answered was sent while the connection was up.
answered-if {ℓ κ} :
    {A : Type ℓ} (P : A → Type κ) (b : Bool) (x y : A) (e : Failure) (done : Bool)
    → (if◌then◌else◌ {A = A × Reply Bool} b (x, replied true) (y, failed e)).1 ≡ replied done
    → P x
    → P (if◌then◌else◌ {A = A × Reply Bool} b (x, replied true) (y, failed e)).0
answered-if P true x y e done answer p = p
answered-if P false x y e done answer p = absurd (cc answer)

module _ (r : Commands) (laws : Laws r) where
  schedule_retry-scheduled :
      (encode : Task → Text) (q : Queue r) (t : Task) (random : String) (delay : Option ℕ) (now : ℕ)
      → q.command_ready ≡ true
      → is_some (
          r.zscore
            (lane r (schedule_retry r encode q t random delay now true).0 (is_bulk t)).retry
            (retry_token t (is_bulk t) random))
        ≡ true
  unfolding schedule_retry put_retry
  schedule_retry-scheduled encode q t random delay now ready =
      let l = lane r q (is_bulk t) in
      let k = retry_token t (is_bulk t) random in
      let payload = encode (next_try r t now) in
      let at = now + or_else delay 0 in
      let after = schedule_script r l q.depth k payload at true q.max_queue_size in
      let kept = schedule_script-kept r laws l q.depth k payload at q.max_queue_size in
      let open_now : not q.command_ready ≡ false = ap not ready in
      let answer : after.1 ≡ some (is_some (r.zscore l.retry k)) = ap (λ x. x.1) kept in
      let same : after.0.0.retry ≡ r.zadd l.retry at k = ap (λ x. x.0.0.retry) kept in
      let own : (k == k) ≡ true = (text_eq.beq_iff k k).1 refl in
      let there : is_some (r.zscore after.0.0.retry k) ≡ true =
        rw (same, laws.zscore-zadd l.retry at k k, own) refl in
      rw (open_now, answer, lane-with_lane r q (is_bulk t) after.0.0) there

module _ (r : Commands) (s : Strings) (h : Hashes) (w : Wire s h) where
  -- A retry of the request is scheduled.
  abbrev pub IsScheduled : Shared r s h → Source → String → Type 0
  IsScheduled x from id =
      (item : Item) × IsOf from id item
      × (is_some (
            r.zscore (lane r x.queue (is_bulk (task_of r s h w item))).retry
              (member_of r s h w item))
          ≡ true)

module _ (r : Commands) (laws : Laws r) (s : Strings) (h : Hashes) (hash_laws : HashLaws h)
    (w : Wire s h)
    -- A result is read back from its JSON.
    (read-write : (x : Response) → w.results.read (w.results.write x) ≡ some x) where
  streams_of :
      (q p : Queue r)
      → ((b : Bool) → (lane r q b).stream ≡ (lane r p b).stream)
      → ◌≡◌ {A = r.Stream × r.Stream}
          (q.normal.stream, q.bulk.stream)
          (p.normal.stream, p.bulk.stream)
  streams_of q p e =
      ap (λ n. (n, q.bulk.stream)) (e false) ∙ ap (λ n. (p.normal.stream, n)) (e true)

  schedule_retry-streams :
      (q : Queue r) (t : Task) (random : String) (delay : Option ℕ) (now : ℕ)
      → (b : Bool)
      → (lane r (schedule_retry r w.encode q t random delay now true).0 b).stream
        ≡ (lane r q b).stream
  schedule_retry-streams q t random delay now b = elim (Bool-cases q.command_ready) [
    | inl e ↦ (schedule_retry-ready r laws w.encode q t random delay now e).1 b
    | inr e ↦
        ap (λ x. (lane r x.0 b).stream)
          (schedule_retry-unready r laws w.encode q t random delay now e)
  ]

  -- The queue in Redis is one that the server can share.
  pub redis-BackendLaws : BackendLaws (redis r s h w)
  unfolding Records.store_idempotency_result
  redis-BackendLaws = record {
    schedule-is_scheduled = λ x item wait now at e. elim (Bool-cases x.queue.command_ready) [
      | inl up ↦
          schedule_retry-scheduled r laws w.encode x.queue (task_of r s h w item) w.random_id
            (some wait) now up
      | inr down ↦ absurd (
          cc (
            ap (λ y. y.1)
                (schedule_retry-unready r laws w.encode x.queue (task_of r s h w item) w.random_id
                  (some wait) now down),
            e,
          ))
    ];
    store-pending = λ x pod res done e.
        answered-if
          (λ y.
            read_result r s h w (h.hget y.hashes (w.results.key_of pod) res.request_id) ≡ some res)
          x.queue.command_ready _ x w.offline done e
          (let own : (w.results.key_of pod == w.results.key_of pod
                  && res.request_id == res.request_id)
                ≡ true =
              rw
                (
                  (text_eq.beq_iff (w.results.key_of pod) (w.results.key_of pod)).1 refl,
                  (string_eq.beq_iff res.request_id res.request_id).1 refl,
                )
                refl in
            rw
              (
                hget-store h hash_laws w.results x.hashes pod res.request_id res
                    (w.results.key_of pod) res.request_id,
                own,
              )
              (read-write res));
    schedule-entries = λ x item wait now.
        streams_of
          (schedule_retry r w.encode x.queue (task_of r s h w item) w.random_id (some wait) now
            true).0
          x.queue
          (schedule_retry-streams x.queue (task_of r s h w item) w.random_id (some wait) now);
    store-entries = λ x pod res.
        if-same {A = Shared r s h × Reply Bool}
          (λ y. (y.0.queue.normal.stream, y.0.queue.bulk.stream)) x.queue.command_ready _ _ refl;
    record-entries = λ x pod key res.
        if-same {A = Shared r s h} (λ y. (y.queue.normal.stream, y.queue.bulk.stream))
          x.queue.command_ready _ _ refl;
  }

  entry-kept :
      (q p : Queue r) (m : Delivery.Message)
      → ◌≡◌ {A = r.Stream × r.Stream}
          (q.normal.stream, q.bulk.stream)
          (p.normal.stream, p.bulk.stream)
      → IsWaiting r p m
      → IsWaiting r q m
  entry-kept q p m e waits = elim (Bool-cases m.bulk) [
    | inl k ↦ rw (k, ap (λ x. x.1) e) (rw k at waits)
    | inr k ↦ rw (k, ap (λ x. x.0) e) (rw k at waits)
  ]

  ends-IsSafe :
      (y x : Server (redis r s h w)) (from : Source) (id : String) (m : Delivery.Message)
      (e : Delivery.Ending) (net : Net)
      → Done (redis r s h w) y x from id (ended e)
      → IsWaiting r y.store.queue m
      → IsWaiting r (dispatch_ends r x.store.queue m e net) m
        ⊎ (IsAnswered (redis r s h w) y x from id ⊎ IsScheduled r s h w x.store from id)
  unfolding Done dispatch_ends
  ends-IsSafe y x from id m (Delivery.returned false) net d waits = inr (inl d)
  ends-IsSafe y x from id m (Delivery.returned true) net d waits = inr (inr d.0)
  ends-IsSafe y x from id m Delivery.threw net d waits =
      inl (entry-kept x.store.queue y.store.queue m (ap (λ n. n.2) d) waits)

  -- An entry is handled at least once. In every run of a server that shares the queue in Redis, whatever
  -- others make of the queue in between, when the handler of an entry ends that is not acknowledged,
  -- then behind `_dispatch` the entry is still not acknowledged, or the request that it was given with
  -- is answered, or a retry of that request is scheduled. The answer was sent to an open and
  -- authenticated socket, of the connection that the request came from or the one that connected last
  -- for its POD, or it is among the pending results of that POD. This is so whichever of the commands of
  -- `_dispatch` fail.
  pub run-IsSafe :
      (c : Config) (adapters : Map Text Adapter) (store : Shared r s h)
      (es : List (ℕ × Event (redis r s h w))) (now n : ℕ) (input : Input) (handler : Handler)
      (rest : List Handler) (y : System (redis r s h w)) (x : Server (redis r s h w))
      (e : Delivery.Ending) (net : Net)
      → y ≡ run (redis r s h w) (start (redis r s h w) c adapters store) es
      → pick n y.handlers ≡ some (handler, rest)
      → advance (redis r s h w) y.server now handler.stage input ≡ (x, ended e)
      → IsWaiting r y.server.store.queue handler.entry
      → IsWaiting r (dispatch_ends r x.store.queue handler.entry e net) handler.entry
        ⊎ (IsAnswered
              (redis r s h w)
              y.server
              x
              (source_of handler.original)
              handler.original.request_id
            ⊎ IsScheduled r s h w x.store (source_of handler.original) handler.original.request_id)
  run-IsSafe c adapters store es now n input handler rest y x e net runs picked ends waits =
      let b = redis r s h w in
      let found = subst (λ z. pick n z.handlers ≡ some (handler, rest)) runs picked in
      let done = run-Done b redis-BackendLaws c adapters store es now n input handler rest found in
      let done_here =
        subst (λ z. IsDone b z.server handler.original (advance b z.server now handler.stage input))
          (sym runs) done in
      ends-IsSafe y.server x (source_of handler.original) handler.original.request_id handler.entry
        e net
        (subst
          (λ z. Done b y.server z.0 (source_of handler.original) handler.original.request_id z.1)
          ends done_here)
        waits
