-- ===== src/Gateway/Timing/Durations.antt =====
-- The times that a request is charged with: `_markProcessing`, `totalMs` and the timeout of
-- `_execute`.
use node_red_contrib_pod_gat.Prelude.{ℕ, ◌+◌, ◌-◌, ◌*◌, ◌≤◌, ◌<◌, ◌≡◌, some, arith, max}
use node_red_contrib_pod_gat.Gateway.Types.{Item, Config}
use node_red_contrib_pod_gat.Gateway.Timing.{
  or_number, mark_processing, block, measured_total, total_ms, execution_timeout,
}

-- A request that the rate limiter blocks for some time is charged twice for it, as queue wait and as
-- rate-limit wait: its measured total grows by twice the time.
pub blocked_twice :
    (now wait : ℕ) (item : Item)
    → measured_total (mark_processing (now + wait) (block now item))
      ≡ measured_total item + 2 * wait
unfolding mark_processing block
blocked_twice now wait item = omega arith

-- The reported duration is the larger one of the time since the request was received and its
-- measured total.
pub total_ms_least :
    (item : Item) (now bound : ℕ)
    → now - item.received_at ≤ bound
    → measured_total item ≤ bound
    → (total_ms item now ≤ bound)
      × (now ≤ item.received_at + total_ms item now)
      × (measured_total item ≤ total_ms item now)
unfolding total_ms
total_ms_least item now bound h k = ground arith

-- The abort timer of an execution has a delay of at least 1 ms and of at most the configured one,
-- and it fires 250 ms before a deadline that is more than 250 ms away.
pub timeout_before_deadline :
    (c : Config) (item : Item) (now deadline : ℕ)
    → item.message.deadline_at ≡ some deadline
    → now + 250 < deadline
    → (1 ≤ execution_timeout c item now)
      × (execution_timeout c item now
          ≤ max 1 (or_number item.message.upstream_timeout_ms c.upstream_timeout_ms))
      × (now + execution_timeout c item now + 250 ≤ deadline)
unfolding execution_timeout
timeout_before_deadline c item now deadline e h = rw (e, execution_timeout) (ground arith)
