-- ===== src/StreamQueue/Store/Scripts.antt =====
-- The delayed retries: `SCHEDULE_RETRY_SCRIPT`, `PROMOTE_RETRY_SCRIPT` and their callers.
use node_red_contrib_pod_gat.Prelude.{
  ℕ, suc, ◌+◌, Bool, true, false, not, ◌&&◌, Option, none, some, List, [], ◌∷◌, String, Text,
  string_eq, ltb, leb, is_some, if◌then◌else◌, or_else,
}
use node_red_contrib_pod_gat.StreamQueue.Commands.{Commands}
use node_red_contrib_pod_gat.StreamQueue.Store.{
  Task, Lane, Queue, Reply, failed, replied, is_bulk, retry_token, unavailable, queue_full, lane,
  with_lane,
}

-- The number that an absent score fails to be.
abbrev pub is_due : Option ℕ → ℕ → Bool
is_due none now = false
is_due (some at) now = leb at now

module _ (r : Commands) where
  -- `HSET` and `ZADD` of a retry.
  unfoldable pub put_retry : Lane r → Text → Text → ℕ → Lane r
  put_retry l member payload at = record l {
    retry = r.zadd l.retry at member;
    payloads = r.hset l.payloads member payload;
  }

  -- `SCHEDULE_RETRY_SCRIPT`: the lane and the depth after it, and its answer; `none` is a full queue.
  unfoldable pub schedule_script :
      Lane r → r.Counter → Text → Text → ℕ → Bool → ℕ → (Lane r × r.Counter) × Option Bool
  schedule_script l depth member payload at preserve_depth max_queue_size =
      let already_scheduled = is_some (r.zscore l.retry member) in
      let raised = r.incr depth in
      if not already_scheduled && not preserve_depth
      then if ltb max_queue_size (r.count raised)
        then ((l, r.decr raised), none)
        else ((put_retry l member payload at, raised), some already_scheduled)
      else ((put_retry l member payload at, depth), some already_scheduled)

  -- `PROMOTE_RETRY_SCRIPT`: the lane after it, and the ID of the new entry if there is one.
  unfoldable pub promote_script : Lane r → Text → ℕ → Lane r × Option ℕ
  promote_script l member now =
      if is_due (r.zscore l.retry member) now
      then elim (r.hget l.payloads member) [
        | none ↦ (record l { retry = r.zrem l.retry member }, none)
        | some payload ↦
            let (id, grown) = r.xadd l.stream payload in
            (
              record l {
                stream = grown;
                retry = r.zrem l.retry member;
                payloads = r.hdel l.payloads member;
              },
              some id,
            )
      ]
      else (l, none)

  -- `scheduleRetry` of an item, whose own `retrySequence` is raised too; `delay` is `none` where it is
  -- not a finite number, and 0 where it is below. A retry's payload has no queue ID and no stream.
  abbrev pub next_try : Task → ℕ → Task
  next_try t now = record t {
    retry_sequence = suc t.retry_sequence;
    last_queued_at = now;
    queue_id = none;
    queue_stream = none;
  }

  unfoldable pub schedule_retry :
      (Task → Text) → Queue r → Task → String → Option ℕ → ℕ → Bool → Queue r × Reply ℕ
  schedule_retry encode q t random delay now preserve_depth =
      let token = retry_token t (is_bulk t) random in
      let retry_at = now + or_else delay 0 in
      let ((l, depth), answer) =
        schedule_script (lane r q (is_bulk t)) q.depth token (encode (next_try t now)) retry_at
          preserve_depth q.max_queue_size in
      let scheduled : Queue r = record (with_lane r q (is_bulk t) l) { depth = depth } in
      if not q.command_ready then (q, failed unavailable) else elim answer [
        | none ↦ (scheduled, failed queue_full)
        | some already ↦ (
          record scheduled {
            counters = record q.counters { delayed_scheduled = suc q.counters.delayed_scheduled };
          },
          replied retry_at,
        )
      ]

  -- `_promoteRetryMember` of a client that has `eval`: whether the retry was promoted.
  unfoldable pub promote_retry_member : Queue r → Bool → Text → ℕ → Queue r × Bool
  promote_retry_member q bulk member now =
      let (l, id) = promote_script (lane r q bulk) member now in
      let moved : Queue r = with_lane r q bulk l in
      if is_some id
      then (
        record moved {
          counters = record q.counters {
            delayed_promoted = suc q.counters.delayed_promoted;
            stream_xadd = suc q.counters.stream_xadd;
          };
        },
        true,
      )
      else (moved, false)

  unfoldable pub promote_all : Queue r → Bool → List Text → ℕ → Queue r × ℕ
  promote_all q bulk [] now = (q, 0)
  promote_all q bulk (member ∷ rest) now =
      let (moved, promoted) = promote_retry_member q bulk member now in
      let (done, count) = promote_all moved bulk rest now in
      (done, if promoted then suc count else count)

  -- `_promoteDueRetries`: the due retries of both priorities, `retryBatchSize` of each at most.
  unfoldable pub due_retries : Queue r → Bool → ℕ → List Text
  due_retries q bulk now = r.zrange_by_score (lane r q bulk).retry now q.retry_batch_size

  unfoldable pub promote_due_retries : Queue r → ℕ → Queue r × ℕ
  promote_due_retries q now =
      let (first, promoted) = promote_all q false (due_retries q false now) now in
      let (second, more) = promote_all first true (due_retries first true now) now in
      if q.command_ready then (second, promoted + more) else (q, 0)
