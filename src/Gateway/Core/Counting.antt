-- ===== src/Gateway/Core/Counting.antt =====
-- How many unfinished requests the scheduler holds, and how a move changes that.
use node_red_contrib_pod_gat.Prelude.{
  ℕ, suc, ◌+◌, ◌-◌, ◌≡◌, refl, subst, ap, ◌∙◌, inl, inr, Bool, true, false, ◌&&◌, Option, none,
  some, List, [], ◌∷◌, ◌++◌, String, arith, eqb, leb, Bool-cases,
}
use node_red_contrib_pod_gat.Map.{Map}
use node_red_contrib_pod_gat.Gateway.Types.{Item, Pump, deciding, Timer}
use node_red_contrib_pod_gat.Gateway.Sorting.{sort_items, insert_item, in_order}
use node_red_contrib_pod_gat.Gateway.Pump.{take_out, take_due, keep_item, keep_timer}
use node_red_contrib_pod_gat.Gateway.Core.{
  Core, wake, claim, release, Unclaimed, Move, stay, accept, park, take, lapse, refuse, put_back,
  admit, admit_invalid, conclude, postpone, settle, requeue, alarm,
}

abbrev pub one_if : Bool → ℕ
one_if true = 1
one_if false = 0

-- A test of a request by what no handler changes: its serial number and its idempotency key.
abbrev pub Test : Type 0
Test = ℕ → Option String → Bool

abbrev pub weigh : Test → Item → ℕ
weigh q item = one_if (q item.serial item.dedup_key)

abbrev pub count : Test → List Item → ℕ
count q [] = 0
count q (x ∷ xs) = weigh q x + count q xs

abbrev pub count_timers : Test → List (Timer Item) → ℕ
count_timers q [] = 0
count_timers q (t ∷ ts) = weigh q t.value + count_timers q ts

abbrev pub pumped : Test → Pump → ℕ
pumped q (deciding item) = weigh q item
pumped q _ = 0

-- The unfinished requests that pass a test: queued, in the pump's hand, executing or delayed.
abbrev pub live : Test → Core → ℕ
live q c = count q c.queue + pumped q c.pump + count q c.executing + count_timers q c.delayed

count-append : (q : Test) (xs ys : List Item) → count q (xs ++ ys) ≡ count q xs + count q ys
count-append q [] ys = omega arith
count-append q (x ∷ xs) ys = omega (arith, count-append q xs ys)

count-insert_item :
    (q : Test) (x : Item) (xs : List Item) → count q (insert_item x xs) ≡ weigh q x + count q xs
unfolding insert_item
count-insert_item q x [] = refl
count-insert_item q x (y ∷ ys) = elim (Bool-cases (in_order x y)) [
  | inl e ↦ rw (e, insert_item)
  | inr e ↦ rw (e, insert_item) (omega (arith, count-insert_item q x ys))
]

count-sort_items : (q : Test) (xs : List Item) → count q (sort_items xs) ≡ count q xs
unfolding sort_items
count-sort_items q [] = refl
count-sort_items q (x ∷ xs) =
    count-insert_item q x (sort_items xs) ∙ ap (λ n. weigh q x + n) (count-sort_items q xs)

count-sorted_end :
    (q : Test) (xs : List Item) (x : Item)
    → count q (sort_items (xs ++ x ∷ [])) ≡ count q xs + weigh q x
count-sorted_end q xs x =
    count-sort_items q (xs ++ x ∷ []) ∙ omega (arith, count-append q xs (x ∷ []))

-- What was taken out, and the rest, make up the list.
abbrev Accounted : Test → ℕ → Option (Item × List Item) → Type 0
Accounted q n none = Unit {0}
Accounted q n (some (x, rest)) = n ≡ weigh q x + count q rest

keep_item-Accounted :
    (q : Test) (n : ℕ) (y : Item) (o : Option (Item × List Item))
    → Accounted q n o
    → Accounted q (weigh q y + n) (keep_item y o)
unfolding keep_item
keep_item-Accounted q n y none h = tt
keep_item-Accounted q n y (some (x, rest)) h = omega arith

take_out-Accounted : (q : Test) (n : ℕ) (xs : List Item) → Accounted q (count q xs) (take_out n xs)
unfolding take_out
take_out-Accounted q n [] = tt
take_out-Accounted q n (y ∷ ys) = elim (Bool-cases (eqb y.serial n)) [
  | inl e ↦ rw (e, take_out) refl
  | inr e ↦
      rw (e, take_out)
        (keep_item-Accounted q (count q ys) y (take_out n ys) (take_out-Accounted q n ys))
]

pub take_out-count :
    (q : Test) (n : ℕ) (xs : List Item) (x : Item) (rest : List Item)
    → take_out n xs ≡ some (x, rest)
    → count q xs ≡ weigh q x + count q rest
take_out-count q n xs x rest h = subst (Accounted q (count q xs)) h (take_out-Accounted q n xs)

abbrev AccountedTimers : Test → ℕ → Option (Item × List (Timer Item)) → Type 0
AccountedTimers q n none = Unit {0}
AccountedTimers q n (some (x, rest)) = n ≡ weigh q x + count_timers q rest

keep_timer-Accounted :
    (q : Test) (n : ℕ) (t : Timer Item) (o : Option (Item × List (Timer Item)))
    → AccountedTimers q n o
    → AccountedTimers q (weigh q t.value + n) (keep_timer t o)
unfolding keep_timer
keep_timer-Accounted q n t none h = tt
keep_timer-Accounted q n t (some (x, rest)) h = omega arith

take_due-Accounted :
    (q : Test) (now n : ℕ) (ts : List (Timer Item))
    → AccountedTimers q (count_timers q ts) (take_due now n ts)
unfolding take_due
take_due-Accounted q now n [] = tt
take_due-Accounted q now n (t ∷ ts) = elim (Bool-cases (eqb t.value.serial n && leb t.due now)) [
  | inl e ↦ rw (e, take_due) refl
  | inr e ↦
      rw (e, take_due)
        (keep_timer-Accounted q (count_timers q ts) t (take_due now n ts)
          (take_due-Accounted q now n ts))
]

pub take_due-count :
    (q : Test) (now n : ℕ) (ts : List (Timer Item)) (x : Item) (rest : List (Timer Item))
    → take_due now n ts ≡ some (x, rest)
    → count_timers q ts ≡ weigh q x + count_timers q rest
take_due-count q now n ts x rest h =
    subst (AccountedTimers q (count_timers q ts)) h (take_due-Accounted q now n ts)

weigh-eq :
    (q : Test) (i j : Item)
    → j.serial ≡ i.serial
    → j.dedup_key ≡ i.dedup_key
    → weigh q j ≡ weigh q i
weigh-eq q i j s k = cc

-- Starting the pump moves no request.
live-wake : (q : Test) (c : Core) → live q (wake c) ≡ live q c
live-wake q c = ground arith

-- The parts that starting the pump leaves alone.
abbrev pub Ledger : Type 0
Ledger = Map String Item × ℕ × List ℕ

abbrev pub ledger : Core → Ledger
ledger c = (c.claims, c.next, c.completed)

ledger-wake : (c : Core) → ledger (wake c) ≡ ledger c
ledger-wake c = ground arith

-- A move keeps the unfinished requests, adds an accepted one, or takes a completed one away.
pub data Flow (c d : Core) : Type 0 where
  level : ((q : Test) → live q d ≡ live q c) → ledger d ≡ ledger c → Flow c d
  enters :
      (item : Item)
      → item.serial ≡ c.next
      → Unclaimed c.claims item.dedup_key
      → ((q : Test) → live q d ≡ live q c + weigh q item)
      → ledger d ≡ (claim c.claims item item.dedup_key, suc c.next, c.completed)
      → Flow c d
  leaves :
      (item : Item)
      → ((q : Test) → live q c ≡ live q d + weigh q item)
      → ledger d ≡ (release c.claims item.dedup_key, c.next, item.serial ∷ c.completed)
      → Flow c d

pub Move-Flow : (c d : Core) → Move c d → Flow c d
Move-Flow c d (stay e) = rw e (level (λ q. refl) refl)
Move-Flow c d (accept item s a u e) =
    let c' : Core = record c {
      queue = sort_items (c.queue ++ item ∷ []);
      claims = claim c.claims item item.dedup_key;
      next = suc c.next;
    } in
    rw e (
      enters item s u (λ q. live-wake q c' ∙ omega (arith, count-sorted_end q c.queue item))
        (ledger-wake c'))
Move-Flow c d (park p h e) = rw e (level (λ q. omega (arith, ap (pumped q) p)) refl)
Move-Flow c d (take item m rest p h lt s e) = rw e (
    level (λ q. omega (arith, ap (pumped q) p, ap (count q) h, weigh-eq q item m s.serial s.key))
      refl)
Move-Flow c d (lapse item m rest p h s e) = rw e (
    leaves m (λ q. omega (arith, ap (pumped q) p, ap (count q) h, weigh-eq q item m s.serial s.key))
      refl)
Move-Flow c d (refuse item p e) = rw e (leaves item (λ q. omega (arith, ap (pumped q) p)) refl)
Move-Flow c d (put_back item b due p s e) =
    rw e (level (λ q. omega (arith, ap (pumped q) p, weigh-eq q item b s.serial s.key)) refl)
Move-Flow c d (admit item b p s a k e) =
    rw e (level (λ q. omega (arith, ap (pumped q) p, weigh-eq q item b s k)) refl)
Move-Flow c d (admit_invalid item b p s k e) =
    rw e (leaves b (λ q. omega (arith, ap (pumped q) p, weigh-eq q item b s k)) refl)
Move-Flow c d (conclude n item x rest t s e) = rw e (
    leaves x
      (λ q.
        omega (arith, take_out-count q n c.executing item rest t, weigh-eq q item x s.serial s.key))
      refl)
Move-Flow c d (postpone n due item x rest t s le e) = rw e (
    level
      (λ q.
        omega (arith, take_out-count q n c.executing item rest t, weigh-eq q item x s.serial s.key))
      refl)
Move-Flow c d (settle n s e) =
    let c' : Core = record c { settling = n; active = c.active - 1 } in
    rw e (level (λ q. live-wake q c') (ledger-wake c'))
Move-Flow c d (requeue now n item x rest t s e) =
    let c' : Core = record c { queue = sort_items (c.queue ++ x ∷ []); delayed = rest } in
    rw e (
      level
        (λ q.
          live-wake q c'
          ∙ omega (
            arith,
            count-sorted_end q c.queue x,
            take_due-count q now n c.delayed item rest t,
            weigh-eq q item x s.serial s.key,
          ))
        (ledger-wake c'))
Move-Flow c d (alarm e) =
    let c' : Core = record c { timer = none } in rw e (level (λ q. live-wake q c') (ledger-wake c'))
