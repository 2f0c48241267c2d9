-- ===== src/Gateway/Core/Refines.antt =====
-- Each event of the gateway is a move of the scheduler.
use node_red_contrib_pod_gat.Prelude.{
  ℕ, zero, suc, ◌+◌, ◌<◌, ◌≡◌, refl, ap, inl, inr, Option, none, some, List, [], ◌∷◌, arith, ltb,
  ltb→lt, leb, if◌then◌else◌, Bool-cases, Option-cases, string_eq, text_eq, max, or_else, eqb,
}
use node_red_contrib_pod_gat.Map.{get}
use node_red_contrib_pod_gat.Gateway.Types.{Gateway, Item, Pump, parked, turning, deciding}
use node_red_contrib_pod_gat.Gateway.Send.{emit_metric, item_metric}
use node_red_contrib_pod_gat.Gateway.Timing.{
  mark_processing, block, record_upstream, expired, execution_timeout,
}
use node_red_contrib_pod_gat.Gateway.Finish.{Ending}
use node_red_contrib_pod_gat.Gateway.Pump
use node_red_contrib_pod_gat.Gateway.Pump.{
  pump_turn, round, resume, turn, take_item, decided, decided_for, put_back, Answer, answered,
  unavailable, executed, take_out, take_due, retry_due, pump_timer_fires, schedule_pump,
  is_callable, execute, settled, fired, settling_one,
}
use node_red_contrib_pod_gat.Gateway.Core.{
  Core, core, done, wake, claim, Same, Unclaimed, Move, stay, accept, park, take, lapse, refuse,
  admit, admit_invalid, conclude, postpone, requeue, alarm,
}
use node_red_contrib_pod_gat.Gateway.Core
use node_red_contrib_pod_gat.Gateway.Core.Frames.{core-finish}
use node_red_contrib_pod_gat.Gateway.Core.Parts.{
  core-start_pump, mark_processing-Same, block-Same, record_upstream-Same, Concludes, completes,
  waits, conclude-Concludes, conclude_invalid,
}

take_item-Move :
    (g : Gateway) (now : ℕ) (item : Item) (rest : List Item)
    → g.pump ≡ turning
    → g.memory_queue ≡ item ∷ rest
    → g.active < g.concurrency
    → Move
        (core g)
        (core (take_item (record g { memory_queue = rest }) now (mark_processing now item)))
unfolding take_item emit_metric
take_item-Move g now item rest p q h = elim (Bool-cases (expired (mark_processing now item) now)) [
  | inl e ↦
      rw (e, take_item)
        (lapse item (mark_processing now item) rest p q (mark_processing-Same now item)
          (core-finish _ now (mark_processing now item) _ none))
  | inr e ↦
      rw (e, take_item)
        (take item (mark_processing now item) rest p q h (mark_processing-Same now item) refl)
]

turn-Move :
    (g : Gateway) (now : ℕ) (q : List Item)
    → g.pump ≡ turning
    → g.memory_queue ≡ q
    → Move (core g) (core (turn g now q))
unfolding turn
turn-Move g now [] p e = park p (inl e) refl
turn-Move g now (item ∷ rest) p e = elim (Bool-cases (ltb g.active g.concurrency)) [
  | inl h ↦ rw (h, turn) (take_item-Move g now item rest p e (ltb→lt _ _ h))
  | inr h ↦ rw (h, turn) (park p (inr (ground arith)) refl)
]

round-Move : (g : Gateway) (now : ℕ) (p : Pump) → g.pump ≡ p → Move (core g) (core (round g now p))
unfolding round
round-Move g now parked e = stay refl
round-Move g now turning e = turn-Move g now g.memory_queue e refl
round-Move g now (deciding item) e = stay refl

schedule_pump-timer :
    (g : Gateway) (now delay : ℕ)
    → (due : ℕ) × (core (schedule_pump g now delay) ≡ record (core g) { timer = some due })
unfolding schedule_pump
schedule_pump-timer g now delay = (or_else g.pump_timer (now + max 1 delay), ground arith)

begin : Gateway → ℕ → Item → Item
begin g now item = record item {
  attempts = suc item.attempts;
  timeout_ms = execution_timeout g.config item now;
}

execute-Move :
    (g : Gateway) (now : ℕ) (item : Item)
    → g.pump ≡ deciding item
    → Move (core g) (core (execute (record g { active = suc g.active; pump = turning }) now item))
unfolding execute emit_metric begin record_upstream
execute-Move g now item p = elim (Bool-cases (is_callable (get g.adapters item.operation.value))) [
  | inl h ↦ rw (h, execute) (admit item (begin g now item) p refl refl refl refl)
  | inr h ↦
      rw (h, execute)
        (admit_invalid item (record_upstream 0 (begin g now item)) p refl refl (
          ap (λ (c : Core). record c { settling = suc c.settling })
            (conclude_invalid _ now (begin g now item))))
]

put_back-Move :
    (g : Gateway) (now : ℕ) (item : Item) (delay : ℕ)
    → g.pump ≡ deciding item
    → Move (core g) (core (put_back g now item delay))
unfolding put_back
put_back-Move g now item delay p =
    let scheduled =
      schedule_pump-timer
        (record g { memory_queue = block now item ∷ g.memory_queue; pump = parked }) now
        (if eqb delay 0 then 100 else delay) in
    Core.put_back item (block now item) scheduled.0 p (block-Same now item) scheduled.1

decided_for-Move :
    (g : Gateway) (now : ℕ) (item : Item) (a : Answer)
    → g.pump ≡ deciding item
    → Move (core g) (core (decided_for g now item a))
unfolding decided_for emit_metric Pump.admit
decided_for-Move g now item unavailable p =
    refuse item p (core-finish (record g { pump = turning }) now item _ none)
decided_for-Move g now item (answered d) p = elim (Bool-cases d.allowed) [
  | inl h ↦
      rw (h, decided_for)
        (execute-Move (emit_metric g (item_metric "rate_limit.decision" item "")) now item p)
  | inr h ↦ rw (h, decided_for) (put_back-Move _ now item d.retry_after_ms p)
]

resume-Move :
    (g : Gateway) (now : ℕ) (a : Answer) (p : Pump)
    → g.pump ≡ p
    → Move (core g) (core (resume g now a p))
unfolding resume
resume-Move g now a parked e = stay refl
resume-Move g now a turning e = stay refl
resume-Move g now a (deciding item) e = decided_for-Move g now item a e

pub decided-Move : (g : Gateway) (now : ℕ) (a : Answer) → Move (core g) (core (decided g now a))
unfolding decided
decided-Move g now a = resume-Move g now a g.pump refl

concluded-Move :
    (g : Gateway) (n : ℕ) (item ended : Item) (rest : List Item) (d : Gateway)
    → take_out n g.executing ≡ some (item, rest)
    → Same item ended
    → Concludes (core (record g { executing = rest })) (core d) ended
    → Move (core g) (core (settling_one d))
concluded-Move g n item ended rest d e s (completes h) =
    conclude n item ended rest e s (ap (λ (c : Core). record c { settling = suc c.settling }) h)
concluded-Move g n item ended rest d e s (waits due le h) =
    postpone n due item ended rest e s le
      (ap (λ (c : Core). record c { settling = suc c.settling }) h)

pub executed-Move :
    (g : Gateway) (now n : ℕ) (ending : Ending) (status : Option ℕ) (elapsed : ℕ)
    → Move (core g) (core (executed g now n ending status elapsed))
unfolding executed
executed-Move g now n ending status elapsed = elim (Option-cases (take_out n g.executing)) [
  | inl e ↦ rw (e, executed) (stay refl)
  | inr ((item, rest), e) ↦
      rw (e, executed)
        (concluded-Move g n item (record_upstream elapsed item) rest
          (Pump.conclude (record g { executing = rest }) now item ending status elapsed) e
          (record_upstream-Same elapsed item)
          (conclude-Concludes (record g { executing = rest }) now item ending status elapsed))
]

settled-Move : (g : Gateway) (n : ℕ) → g.settling ≡ n → Move (core g) (core (settled g n))
unfolding settled
settled-Move g zero e = stay refl
settled-Move g (suc n) e = Core.settle n e (core-start_pump _)

pub pump_turn-Move : (g : Gateway) (now : ℕ) → Move (core g) (core (pump_turn g now))
unfolding pump_turn
pump_turn-Move g now = round-Move g now g.pump refl

pub settle-Move : (g : Gateway) → Move (core g) (core (Pump.settle g))
unfolding Pump.settle
settle-Move g = settled-Move g g.settling refl

pub retry_due-Move : (g : Gateway) (now n : ℕ) → Move (core g) (core (retry_due g now n))
unfolding retry_due Pump.requeue
retry_due-Move g now n = elim (Option-cases (take_due now n g.delayed)) [
  | inl e ↦ rw (e, retry_due) (stay refl)
  | inr ((item, rest), e) ↦
      rw (e, retry_due)
        (requeue now n item (record item { last_queued_at = now }) rest e
          (record { serial = refl; attempts = refl; key = refl }) (core-start_pump _))
]

fired-Move : (g : Gateway) (now : ℕ) (t : Option ℕ) → Move (core g) (core (fired g now t))
unfolding fired
fired-Move g now none = stay refl
fired-Move g now (some due) = elim (Bool-cases (leb due now)) [
  | inl h ↦ rw (h, fired) (alarm (core-start_pump _))
  | inr h ↦ rw (h, fired) (stay refl)
]

pub pump_timer_fires-Move : (g : Gateway) (now : ℕ) → Move (core g) (core (pump_timer_fires g now))
unfolding pump_timer_fires
pump_timer_fires-Move g now = fired-Move g now g.pump_timer
