-- ===== src/Gateway/Core.antt =====
-- The abstract scheduler that the gateway without a Redis queue implements: where each accepted
-- request is, with no sockets, messages, metrics or times. `Move` lists what may happen to it.
pub mod Frames
pub mod Parts
pub mod Refines
pub mod Requests
pub mod Counting
pub mod Tally
pub mod Capacity
pub mod Attempts
use node_red_contrib_pod_gat.Prelude.{
  ℕ, zero, suc, ◌+◌, ◌-◌, ◌≤◌, ◌<◌, ◌≡◌, ◌⊎◌, Bool, true, false, not, ◌&&◌, Option, none, some,
  List, [], ◌∷◌, ◌++◌, String, string_eq, ◌==◌, is_some, nonempty, eqb, if◌then◌else◌,
}
use node_red_contrib_pod_gat.Map.{Map, get, set, delete}
use node_red_contrib_pod_gat.Gateway.Types.{
  Gateway, Item, Metric, Pump, parked, turning, deciding, Timer,
}
use node_red_contrib_pod_gat.Gateway.Sorting.{sort_items}
use node_red_contrib_pod_gat.Gateway.Pump.{take_out, take_due}

-- The serial numbers of the items that were reported as completed.
abbrev pub completed_serials : List Metric → List ℕ
completed_serials [] = []
completed_serials (m ∷ ms) = elim m.item [
  | none ↦ completed_serials ms
  | some n ↦
      if m.event == "request.completed" then n ∷ completed_serials ms else completed_serials ms
]

pub record Core : Type 0 where
  pub capacity : ℕ
  pub limit : ℕ
  pub queue : List Item
  pub active : ℕ
  pub pump : Pump
  pub timer : Option ℕ
  pub executing : List Item
  pub settling : ℕ
  pub delayed : List (Timer Item)
  pub claims : Map String Item
  pub next : ℕ
  pub completed : List ℕ

abbrev pub core : Gateway → Core
core g = record {
  capacity = g.concurrency;
  limit = g.max_attempts;
  queue = g.memory_queue;
  active = g.active;
  pump = g.pump;
  timer = g.pump_timer;
  executing = g.executing;
  settling = g.settling;
  delayed = g.delayed;
  claims = g.inflight_idempotency;
  next = g.next_serial;
  completed = completed_serials g.metrics;
}

abbrev pub is_parked : Pump → Bool
is_parked parked = true
is_parked _ = false

-- A parked pump with work and no timer is started.
abbrev pub wake : Core → Core
wake c =
    if is_parked c.pump && not (is_some c.timer) && nonempty c.queue
    then record c { pump = turning }
    else c

abbrev pub release : Map String Item → Option String → Map String Item
release claims none = claims
release claims (some key) = delete claims key

abbrev pub claim : Map String Item → Item → Option String → Map String Item
claim claims item none = claims
claim claims item (some key) = set claims key item

-- An item is completed, and its idempotency key is free.
abbrev pub done : Item → Core → Core
done item c = record c {
  claims = release c.claims item.dedup_key;
  completed = item.serial ∷ c.completed;
}

-- The same request after its times were updated.
pub record Same (i j : Item) : Type 0 where
  pub serial : j.serial ≡ i.serial
  pub attempts : j.attempts ≡ i.attempts
  pub key : j.dedup_key ≡ i.dedup_key

-- Nobody holds the item's key.
abbrev pub Unclaimed : Map String Item → Option String → Type 0
Unclaimed claims none = Unit {0}
Unclaimed claims (some key) = get claims key ≡ none

pub data Move (c d : Core) : Type 0 where
  stay : d ≡ c → Move c d
  accept :
      (item : Item)
      → item.serial ≡ c.next
      → item.attempts ≡ 0
      → Unclaimed c.claims item.dedup_key
      → d
        ≡ wake (record c {
          queue = sort_items (c.queue ++ item ∷ []);
          claims = claim c.claims item item.dedup_key;
          next = suc c.next;
        })
      → Move c d
  park :
      c.pump ≡ turning
      → (c.queue ≡ []) ⊎ (c.capacity ≤ c.active)
      → d ≡ record c { pump = parked }
      → Move c d
  take :
      (item marked : Item) (rest : List Item)
      → c.pump ≡ turning
      → c.queue ≡ item ∷ rest
      → c.active < c.capacity
      → Same item marked
      → d ≡ record c { queue = rest; pump = deciding marked }
      → Move c d
  lapse :
      (item marked : Item) (rest : List Item)
      → c.pump ≡ turning
      → c.queue ≡ item ∷ rest
      → Same item marked
      → d ≡ done marked (record c { queue = rest })
      → Move c d
  refuse :
      (item : Item)
      → c.pump ≡ deciding item
      → d ≡ done item (record c { pump = turning })
      → Move c d
  put_back :
      (item blocked : Item) (due : ℕ)
      → c.pump ≡ deciding item
      → Same item blocked
      → d ≡ record c { queue = blocked ∷ c.queue; pump = parked; timer = some due }
      → Move c d
  admit :
      (item begun : Item)
      → c.pump ≡ deciding item
      → begun.serial ≡ item.serial
      → begun.attempts ≡ suc item.attempts
      → begun.dedup_key ≡ item.dedup_key
      → d ≡ record c { active = suc c.active; pump = turning; executing = begun ∷ c.executing }
      → Move c d
  admit_invalid :
      (item begun : Item)
      → c.pump ≡ deciding item
      → begun.serial ≡ item.serial
      → begun.dedup_key ≡ item.dedup_key
      → d
        ≡ done begun (record c { active = suc c.active; pump = turning; settling = suc c.settling })
      → Move c d
  conclude :
      (n : ℕ) (item ended : Item) (rest : List Item)
      → take_out n c.executing ≡ some (item, rest)
      → Same item ended
      → d ≡ done ended (record c { executing = rest; settling = suc c.settling })
      → Move c d
  postpone :
      (n due : ℕ) (item ended : Item) (rest : List Item)
      → take_out n c.executing ≡ some (item, rest)
      → Same item ended
      → ended.attempts ≤ c.limit
      → d ≡ record c {
        executing = rest;
        settling = suc c.settling;
        delayed = record { due = due; value = ended } ∷ c.delayed;
      }
      → Move c d
  settle :
      (n : ℕ)
      → c.settling ≡ suc n
      → d ≡ wake (record c { settling = n; active = c.active - 1 })
      → Move c d
  requeue :
      (now n : ℕ) (item queued : Item) (rest : List (Timer Item))
      → take_due now n c.delayed ≡ some (item, rest)
      → Same item queued
      → d ≡ wake (record c { queue = sort_items (c.queue ++ queued ∷ []); delayed = rest })
      → Move c d
  alarm : d ≡ wake (record c { timer = none }) → Move c d
