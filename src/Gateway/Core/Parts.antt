-- ===== src/Gateway/Core/Parts.antt =====
-- How the parts of the pump and of `_enqueue` move the scheduler.
use node_red_contrib_pod_gat.Prelude.{
  ℕ, suc, ◌+◌, ◌≤◌, ◌≡◌, refl, ap, ◌∙◌, inl, inr, Bool, true, Option, none, some, List, [], ◌∷◌,
  ◌++◌, String, Text, arith, Bool-cases, Option-cases, string_eq,
}
use node_red_contrib_pod_gat.Protocol.{Operation}
use node_red_contrib_pod_gat.Request.{Schema}
use node_red_contrib_pod_gat.Gateway.Types.{Gateway, Item, Failure, Message}
use node_red_contrib_pod_gat.Gateway.Send.{emit_metric}
use node_red_contrib_pod_gat.Gateway.Timing.{mark_processing, block, record_upstream, retry_wait}
use node_red_contrib_pod_gat.Gateway.Sorting.{sort_items}
use node_red_contrib_pod_gat.Gateway.Finish.{Ending, returned, raised, Duplicate}
use node_red_contrib_pod_gat.Gateway.Pump
use node_red_contrib_pod_gat.Gateway.Pump.{
  start_pump, schedule_pump, retries, delay_retry, fail_execution, normalized, invalid_adapter,
}
use node_red_contrib_pod_gat.Gateway.Enqueue.{
  Caller, reject, reject_invalid, answer_duplicate, reserve, push_item,
}
use node_red_contrib_pod_gat.Gateway.Core.{Core, core, done, wake, claim, Same}
use node_red_contrib_pod_gat.Gateway.Core.Frames.{core-post, core-finish}

pub core-start_pump : (g : Gateway) → core (start_pump g) ≡ wake (core g)
unfolding start_pump
core-start_pump g = ground arith

pub mark_processing-Same : (now : ℕ) (item : Item) → Same item (mark_processing now item)
unfolding mark_processing
mark_processing-Same now item = record { serial = refl; attempts = refl; key = refl }

pub block-Same : (now : ℕ) (item : Item) → Same item (block now item)
unfolding block
block-Same now item = record { serial = refl; attempts = refl; key = refl }

pub record_upstream-Same : (elapsed : ℕ) (item : Item) → Same item (record_upstream elapsed item)
unfolding record_upstream
record_upstream-Same elapsed item = record { serial = refl; attempts = refl; key = refl }

-- How an execution ends: the item is completed, or it waits for a retry that the limit allows.
pub data Concludes (c d : Core) (item : Item) : Type 0 where
  completes : d ≡ done item c → Concludes c d item
  waits :
      (due : ℕ)
      → item.attempts ≤ c.limit
      → d ≡ record c { delayed = record { due = due; value = item } ∷ c.delayed }
      → Concludes c d item

retries-le :
    (g : Gateway) (now : ℕ) (item : Item) (e : Failure)
    → retries g now item e ≡ true
    → item.attempts ≤ g.max_attempts
unfolding retries
retries-le g now item e h = ground arith

fail_execution-Concludes :
    (g : Gateway) (now : ℕ) (item : Item) (e : Failure) (status : Option ℕ)
    → Concludes (core g) (core (fail_execution g now item e status)) item
unfolding fail_execution
fail_execution-Concludes g now item e status = elim (Bool-cases (retries g now item e)) [
  | inl h ↦
      rw (h, fail_execution)
        (waits (now + retry_wait e.retry_after_ms item.attempts) (retries-le g now item e h) refl)
  | inr h ↦ rw (h, fail_execution) (completes (core-finish g now item (raised e) status))
]

pub conclude-Concludes :
    (g : Gateway) (now : ℕ) (item : Item) (ending : Ending) (status : Option ℕ) (elapsed : ℕ)
    → Concludes
        (core g)
        (core (Pump.conclude g now item ending status elapsed))
        (record_upstream elapsed item)
unfolding Pump.conclude emit_metric
conclude-Concludes g now item (returned v) status elapsed =
    completes (core-finish _ now (record_upstream elapsed item) (returned v) status)
conclude-Concludes g now item (raised e) status elapsed =
    fail_execution-Concludes _ now (record_upstream elapsed item) (normalized e status) status

-- An operation with no function to call is no failure that is tried again.
pub conclude_invalid :
    (g : Gateway) (now : ℕ) (item : Item)
    → core (Pump.conclude g now item (raised (invalid_adapter item)) none 0)
      ≡ done (record_upstream 0 item) (core g)
unfolding Pump.conclude emit_metric fail_execution retries normalized
conclude_invalid g now item =
    core-finish _ now (record_upstream 0 item) (raised (normalized (invalid_adapter item) none))
      none

pub core-reject :
    (g : Gateway) (who : Caller) (id : String) (o : Operation) (code : String) (t : Text) (r : Bool)
    → core (reject g who id o code t r) ≡ core g
unfolding reject emit_metric
core-reject g who id o code t r = core-post _ _ _

pub core-reject_invalid :
    (g : Gateway) (who : Caller) (id : String) (o : Operation) (s : Option Schema) (m : Message)
    (es : List Text)
    → core (reject_invalid g who id o s m es) ≡ core g
unfolding reject_invalid emit_metric
core-reject_invalid g who id o s m es = core-post _ _ _

pub core-answer_duplicate :
    (g : Gateway) (who : Caller) (id : String) (o : Operation) (d : Duplicate)
    → core (answer_duplicate g who id o d) ≡ core g
unfolding answer_duplicate emit_metric
core-answer_duplicate g who id o d = elim (Option-cases d.response) [
  | inl e ↦ rw (e, answer_duplicate) (core-post _ _ _)
  | inr (r, e) ↦ rw (e, answer_duplicate) (core-post _ _ _)
]

core-reserve :
    (g : Gateway) (key : Option String) (item : Item)
    → core (reserve g key item) ≡ record (core g) { claims = claim g.inflight_idempotency item key }
unfolding reserve
core-reserve g none item = refl
core-reserve g (some key) item = refl

-- A pushed item is accepted: it is claimed, queued, and the pump is started.
pub core-push_item :
    (g : Gateway) (who : Caller) (item : Item)
    → core (push_item g who item)
      ≡ wake (record (core g) {
        queue = sort_items (g.memory_queue ++ item ∷ []);
        claims = claim g.inflight_idempotency item item.dedup_key;
        next = suc g.next_serial;
      })
unfolding push_item emit_metric
core-push_item g who item =
    core-start_pump _
    ∙ ap wake (
        core-post _ _ _
        ∙ ap
            (λ (c : Core). record c {
              queue = sort_items (g.memory_queue ++ item ∷ []);
              next = suc g.next_serial;
            })
            (core-reserve _ item.dedup_key item))
