-- ===== src/Gateway/Core/Capacity.antt =====
-- `active` counts the running executions and stays within the concurrency, and the pump never
-- sleeps on work that it could start.
use node_red_contrib_pod_gat.Prelude.{
  ℕ, suc, ◌+◌, ◌-◌, ◌≤◌, ◌≡◌, refl, ap, Bool, true, false, not, ◌&&◌, none, some, List, [], ◌∷◌,
  ◌++◌, arith, is_some, nonempty, ltb, length,
}
use node_red_contrib_pod_gat.Gateway.Types.{Item, Pump, deciding}
use node_red_contrib_pod_gat.Gateway.Sorting.{sort_items}
use node_red_contrib_pod_gat.Gateway.Pump.{take_out}
use node_red_contrib_pod_gat.Gateway.Core.{
  Core, wake, is_parked, claim, Move, stay, accept, park, take, lapse, refuse, put_back, admit,
  admit_invalid, conclude, postpone, settle, requeue, alarm,
}
use node_red_contrib_pod_gat.Gateway.Core.Counting.{count, take_out-count, Test}

abbrev pub in_hand : Pump → ℕ
in_hand (deciding item) = 1
in_hand _ = 0

pub record IsBusy (c : Core) : Type 0 where
  pub counted : c.active ≡ length c.executing + c.settling
  pub within : c.active + in_hand c.pump ≤ c.capacity

abbrev any_item : Test
any_item n key = true

count-length : (xs : List Item) → count any_item xs ≡ length xs
count-length [] = refl
count-length (x ∷ xs) = omega (arith, count-length xs)

length-take_out :
    (n : ℕ) (xs : List Item) (x : Item) (rest : List Item)
    → take_out n xs ≡ some (x, rest)
    → length xs ≡ suc (length rest)
length-take_out n xs x rest h =
    omega (arith, take_out-count any_item n xs x rest h, count-length xs, count-length rest)

wake-IsBusy : (c : Core) → IsBusy c → IsBusy (wake c)
wake-IsBusy c b = ground arith

pub Move-IsBusy : (c d : Core) → Move c d → IsBusy c → IsBusy d
Move-IsBusy c d (stay e) b = rw e b
Move-IsBusy c d (accept item s a u e) b =
    let c1 : Core = record c {
      queue = sort_items (c.queue ++ item ∷ []);
      claims = claim c.claims item item.dedup_key;
      next = suc c.next;
    } in
    rw e (wake-IsBusy c1 (record { counted = b.counted; within = b.within }))
Move-IsBusy c d (park p h e) b =
    rw e (record { counted = b.counted; within = omega (arith, b.within) })
Move-IsBusy c d (take item m rest p h lt s e) b =
    rw e (record { counted = b.counted; within = omega (arith, lt) })
Move-IsBusy c d (lapse item m rest p h s e) b =
    rw e (record { counted = b.counted; within = b.within })
Move-IsBusy c d (refuse item p e) b =
    rw e (record { counted = b.counted; within = omega (arith, b.within) })
Move-IsBusy c d (put_back item m due p s e) b =
    rw e (record { counted = b.counted; within = omega (arith, b.within) })
Move-IsBusy c d (admit item m p s a k e) b =
    rw e (record {
      counted = omega (arith, b.counted);
      within = omega (arith, b.within, ap in_hand p);
    })
Move-IsBusy c d (admit_invalid item m p s k e) b =
    rw e (record {
      counted = omega (arith, b.counted);
      within = omega (arith, b.within, ap in_hand p);
    })
Move-IsBusy c d (conclude n item x rest t s e) b = rw e (record {
  counted = omega (arith, b.counted, length-take_out n c.executing item rest t);
  within = b.within;
})
Move-IsBusy c d (postpone n due item x rest t s le e) b = rw e (record {
  counted = omega (arith, b.counted, length-take_out n c.executing item rest t);
  within = b.within;
})
Move-IsBusy c d (settle n s e) b =
    let c1 : Core = record c { settling = n; active = c.active - 1 } in
    rw e (
      wake-IsBusy c1
        (record { counted = omega (arith, b.counted, s); within = omega (arith, b.within) }))
Move-IsBusy c d (requeue now n item x rest t s e) b =
    let c1 : Core = record c { queue = sort_items (c.queue ++ x ∷ []); delayed = rest } in
    rw e (wake-IsBusy c1 (record { counted = b.counted; within = b.within }))
Move-IsBusy c d (alarm e) b =
    let c1 : Core = record c { timer = none } in
    rw e (wake-IsBusy c1 (record { counted = b.counted; within = b.within }))

-- Work is queued, a slot is free, and neither the pump nor its timer is going to take it.
abbrev pub stalled : Core → Bool
stalled c =
    nonempty c.queue && (is_parked c.pump && (not (is_some c.timer) && ltb c.active c.capacity))

stalled-wake : (c : Core) → stalled (wake c) ≡ false
stalled-wake c = ground arith

pub Move-stalled : (c d : Core) → Move c d → stalled c ≡ false → stalled d ≡ false
Move-stalled c d (stay e) h = rw e h
Move-stalled c d (accept item s a u e) h =
    let c1 : Core = record c {
      queue = sort_items (c.queue ++ item ∷ []);
      claims = claim c.claims item item.dedup_key;
      next = suc c.next;
    } in
    rw e (stalled-wake c1)
Move-stalled c d (park p h e) k = ground arith
Move-stalled c d (take item m rest p h lt s e) k = ground arith
Move-stalled c d (lapse item m rest p h s e) k = ground arith
Move-stalled c d (refuse item p e) h = ground arith
Move-stalled c d (put_back item m due p s e) h = ground arith
Move-stalled c d (admit item m p s a k e) h = ground arith
Move-stalled c d (admit_invalid item m p s k e) h = ground arith
Move-stalled c d (conclude n item x rest t s e) h = rw e h
Move-stalled c d (postpone n due item x rest t s le e) h = rw e h
Move-stalled c d (settle n s e) h =
    let c1 : Core = record c { settling = n; active = c.active - 1 } in rw e (stalled-wake c1)
Move-stalled c d (requeue now n item x rest t s e) h =
    let c1 : Core = record c { queue = sort_items (c.queue ++ x ∷ []); delayed = rest } in
    rw e (stalled-wake c1)
Move-stalled c d (alarm e) h = let c1 : Core = record c { timer = none } in rw e (stalled-wake c1)
