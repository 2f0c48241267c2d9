-- ===== src/Gateway/Core/Attempts.antt =====
-- How often the call of a request is tried.
use node_red_contrib_pod_gat.Prelude.{
  ℕ, suc, ◌-◌, ◌≤◌, subst, Bool, true, false, not, ◌&&◌, Option, none, some, List, [], ◌∷◌, ◌++◌,
  All, All-append, arith, eqb, leb, is_some, nonempty, Bool-cases, inl, inr, if◌then◌else◌,
}
use node_red_contrib_pod_gat.Gateway.Types.{Item, Pump, turning, deciding, Timer}
use node_red_contrib_pod_gat.Gateway.Sorting.{in_order, insert_item, sort_items}
use node_red_contrib_pod_gat.Gateway.Pump.{take_out, take_due, keep_item, keep_timer}
use node_red_contrib_pod_gat.Gateway.Core.{
  Core, wake, is_parked, claim, Move, stay, accept, park, take, lapse, refuse, put_back, admit,
  admit_invalid, conclude, postpone, settle, requeue, alarm,
}

abbrev Tried : ℕ → Item → Type 0
Tried n item = item.attempts ≤ n

module _ (P : Item → Type 0) where
  All-insert_item : (x : Item) (xs : List Item) → P x → All P xs → All P (insert_item x xs)
  unfolding insert_item
  All-insert_item x [] p h = (p, tt)
  All-insert_item x (y ∷ ys) p h = elim (Bool-cases (in_order x y)) [
    | inl e ↦ rw (e, insert_item) (p, h)
    | inr e ↦ rw (e, insert_item) (h.0, All-insert_item x ys p h.1)
  ]

  All-sort_items : (xs : List Item) → All P xs → All P (sort_items xs)
  unfolding sort_items
  All-sort_items [] h = tt
  All-sort_items (x ∷ xs) h = All-insert_item x (sort_items xs) h.0 (All-sort_items xs h.1)

  All-queued : (xs : List Item) (x : Item) → All P xs → P x → All P (sort_items (xs ++ x ∷ []))
  All-queued xs x h p = All-sort_items (xs ++ x ∷ []) (All-append P xs (x ∷ []) h (p, tt))

  abbrev Taken : Option (Item × List Item) → Type 0
  Taken none = Unit {0}
  Taken (some (x, rest)) = P x × All P rest

  keep_item-Taken :
      (y : Item) (o : Option (Item × List Item)) → P y → Taken o → Taken (keep_item y o)
  unfolding keep_item
  keep_item-Taken y none p h = tt
  keep_item-Taken y (some (x, rest)) p h = (h.0, (p, h.1))

  take_out-Taken : (n : ℕ) (xs : List Item) → All P xs → Taken (take_out n xs)
  unfolding take_out
  take_out-Taken n [] h = tt
  take_out-Taken n (y ∷ ys) h = elim (Bool-cases (eqb y.serial n)) [
    | inl e ↦ rw (e, take_out) h
    | inr e ↦ rw (e, take_out) (keep_item-Taken y (take_out n ys) h.0 (take_out-Taken n ys h.1))
  ]

  abbrev Due : List (Timer Item) → Type 0
  Due ts = All (λ t. P t.value) ts

  abbrev TakenTimer : Option (Item × List (Timer Item)) → Type 0
  TakenTimer none = Unit {0}
  TakenTimer (some (x, rest)) = P x × Due rest

  keep_timer-Taken :
      (t : Timer Item) (o : Option (Item × List (Timer Item)))
      → P t.value
      → TakenTimer o
      → TakenTimer (keep_timer t o)
  unfolding keep_timer
  keep_timer-Taken t none p h = tt
  keep_timer-Taken t (some (x, rest)) p h = (h.0, (p, h.1))

  take_due-Taken : (now n : ℕ) (ts : List (Timer Item)) → Due ts → TakenTimer (take_due now n ts)
  unfolding take_due
  take_due-Taken now n [] h = tt
  take_due-Taken now n (t ∷ ts) h = elim (Bool-cases (eqb t.value.serial n && leb t.due now)) [
    | inl e ↦ rw (e, take_due) h
    | inr e ↦
        rw (e, take_due) (keep_timer-Taken t (take_due now n ts) h.0 (take_due-Taken now n ts h.1))
  ]

abbrev InHandTried : ℕ → Pump → Type 0
InHandTried n (deciding item) = item.attempts ≤ n
InHandTried n _ = Unit {0}

-- A request that waits was tried at most as often as the configured number of retries, and one that
-- executes at most once more.
pub record IsBounded (c : Core) : Type 0 where
  pub queued : All (λ x. x.attempts ≤ c.limit) c.queue
  pub held : InHandTried c.limit c.pump
  pub executed : All (λ x. x.attempts ≤ suc c.limit) c.executing
  pub waiting : All (λ t. t.value.attempts ≤ c.limit) c.delayed

IsBounded-if : (b : Bool) (c d : Core) → IsBounded c → IsBounded d → IsBounded (if b then c else d)
IsBounded-if true c d h k = h
IsBounded-if false c d h k = k

wake-IsBounded : (c : Core) → IsBounded c → IsBounded (wake c)
wake-IsBounded c b =
    IsBounded-if (is_parked c.pump && not (is_some c.timer) && nonempty c.queue)
      (record c { pump = turning }) c
      (record { queued = b.queued; held = tt; executed = b.executed; waiting = b.waiting }) b

pub Move-IsBounded : (c d : Core) → Move c d → IsBounded c → IsBounded d
Move-IsBounded c d (stay e) b = rw e b
Move-IsBounded c d (accept item s a u e) b =
    let c1 : Core = record c {
      queue = sort_items (c.queue ++ item ∷ []);
      claims = claim c.claims item item.dedup_key;
      next = suc c.next;
    } in
    rw e (
      wake-IsBounded c1 (record {
        queued = All-queued (Tried c.limit) c.queue item b.queued (omega (arith, a));
        held = b.held;
        executed = b.executed;
        waiting = b.waiting;
      }))
Move-IsBounded c d (park p h e) b =
    rw e (record { queued = b.queued; held = tt; executed = b.executed; waiting = b.waiting })
Move-IsBounded c d (take item m rest p h lt s e) b =
    let q = subst (All (Tried c.limit)) h b.queued in
    rw e (record {
      queued = q.1;
      held = omega (arith, s.attempts, q.0);
      executed = b.executed;
      waiting = b.waiting;
    })
Move-IsBounded c d (lapse item m rest p h s e) b =
    let q = subst (All (Tried c.limit)) h b.queued in
    rw e (record { queued = q.1; held = b.held; executed = b.executed; waiting = b.waiting })
Move-IsBounded c d (refuse item p e) b =
    rw e (record { queued = b.queued; held = tt; executed = b.executed; waiting = b.waiting })
Move-IsBounded c d (put_back item m due p s e) b =
    let h : item.attempts ≤ c.limit = subst (InHandTried c.limit) p b.held in
    rw e (record {
      queued = (omega (arith, s.attempts, h), b.queued);
      held = tt;
      executed = b.executed;
      waiting = b.waiting;
    })
Move-IsBounded c d (admit item m p s a k e) b =
    let h : item.attempts ≤ c.limit = subst (InHandTried c.limit) p b.held in
    rw e (record {
      queued = b.queued;
      held = tt;
      executed = (omega (arith, a, h), b.executed);
      waiting = b.waiting;
    })
Move-IsBounded c d (admit_invalid item m p s k e) b =
    rw e (record { queued = b.queued; held = tt; executed = b.executed; waiting = b.waiting })
Move-IsBounded c d (conclude n item x rest t s e) b =
    let q =
      subst (Taken (Tried (suc c.limit))) t
        (take_out-Taken (Tried (suc c.limit)) n c.executing b.executed) in
    rw e (record { queued = b.queued; held = b.held; executed = q.1; waiting = b.waiting })
Move-IsBounded c d (postpone n due item x rest t s le e) b =
    let q =
      subst (Taken (Tried (suc c.limit))) t
        (take_out-Taken (Tried (suc c.limit)) n c.executing b.executed) in
    rw e (record { queued = b.queued; held = b.held; executed = q.1; waiting = (le, b.waiting) })
Move-IsBounded c d (settle n s e) b =
    let c1 : Core = record c { settling = n; active = c.active - 1 } in
    rw e (
      wake-IsBounded c1
        (record { queued = b.queued; held = b.held; executed = b.executed; waiting = b.waiting }))
Move-IsBounded c d (requeue now n item x rest t s e) b =
    let q =
      subst (TakenTimer (Tried c.limit)) t
        (take_due-Taken (Tried c.limit) now n c.delayed b.waiting) in
    let c1 : Core = record c { queue = sort_items (c.queue ++ x ∷ []); delayed = rest } in
    rw e (
      wake-IsBounded c1 (record {
        queued = All-queued (Tried c.limit) c.queue x b.queued (omega (arith, s.attempts, q.0));
        held = b.held;
        executed = b.executed;
        waiting = q.1;
      }))
Move-IsBounded c d (alarm e) b =
    let c1 : Core = record c { timer = none } in
    rw e (
      wake-IsBounded c1
        (record { queued = b.queued; held = b.held; executed = b.executed; waiting = b.waiting }))
