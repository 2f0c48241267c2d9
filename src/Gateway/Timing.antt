-- ===== src/Gateway/Timing.antt =====
-- `_markProcessing`, `_recordUpstream`, `_expired`, and the times that `_execute` and `_finish`
-- compute. Upstream times are whole milliseconds here, where the code has fractions.
pub mod Durations
use node_red_contrib_pod_gat.Prelude.{
  ℕ, zero, suc, ◌+◌, ◌-◌, ◌*◌, Bool, true, false, Option, none, some, max, min, leb, or_else,
  if◌then◌else◌, eqb,
}
use node_red_contrib_pod_gat.Gateway.Types.{Item, Config}

-- `value || default` of a number.
abbrev pub or_number : Option ℕ → ℕ → ℕ
or_number none d = d
or_number (some n) d = if eqb n 0 then d else n

-- `_expired`
unfoldable pub expired : Item → ℕ → Bool
expired item now = elim item.message.deadline_at [ none ↦ false | some t ↦ leb t now ]

abbrev blocked_wait : Option ℕ → ℕ → ℕ
blocked_wait none now = 0
blocked_wait (some t) now = now - t

-- `_markProcessing`, of the item.
unfoldable pub mark_processing : ℕ → Item → Item
mark_processing now item = record item {
  queue_wait_ms = item.queue_wait_ms + (now - item.last_queued_at);
  rate_limit_wait_ms = item.rate_limit_wait_ms + blocked_wait item.rate_limit_blocked_at now;
  rate_limit_blocked_at = none;
  last_queued_at = now;
}

-- The item that a refused rate-limit decision puts back.
unfoldable pub block : ℕ → Item → Item
block now item = record item { rate_limit_blocked_at = some now; last_queued_at = now }

-- `_recordUpstream`, of the item.
unfoldable pub record_upstream : ℕ → Item → Item
record_upstream elapsed item = record item {
  upstream_ms = item.upstream_ms + elapsed;
  last_upstream_ms = elapsed;
}

-- The delay of the abort timer that `_execute` sets.
unfoldable pub execution_timeout : Config → Item → ℕ → ℕ
execution_timeout c item now =
    let configured = or_number item.message.upstream_timeout_ms c.upstream_timeout_ms in
    elim item.message.deadline_at [
      | none ↦ max 1 configured
      | some t ↦ max 1 (min configured (max 1 (t - now - 250)))
    ]

-- `measuredTotalMs`
abbrev pub measured_total : Item → ℕ
measured_total item = item.queue_wait_ms + item.rate_limit_wait_ms + item.upstream_ms

-- `totalMs`, the reported duration.
unfoldable pub total_ms : Item → ℕ → ℕ
total_ms item now = max (now - item.received_at) (measured_total item)

-- The delay before a failed call is tried again.
unfoldable pub retry_wait : Option ℕ → ℕ → ℕ
retry_wait retry_after_ms attempts = or_number retry_after_ms (min (1000 * attempts) 10000)
