-- ===== src/Gateway/Sorting/Order.antt =====
-- The order of the queue after `_sortQueue`.
use node_red_contrib_pod_gat.Prelude.{
  ℕ, ◌≤◌, ◌≡◌, refl, Option, none, some, List, [], ◌∷◌, All, arith, leb, String, string_eq,
  Bool-cases, inl, inr,
}
use node_red_contrib_pod_gat.Protocol.{priority}
use node_red_contrib_pod_gat.Gateway.Types.{Item}
use node_red_contrib_pod_gat.Gateway.Sorting.{weight, in_order, insert_item, sort_items}

-- Every priority has the weight of `normal`: `PRIORITY.bulk` is 0, which `||` replaces.
pub weight-one : (p : Option String) → weight p ≡ 1
unfolding weight priority
weight-one none = refl
weight-one (some name) = ground arith

in_order_lem : (x y : Item) → in_order x y ≡ leb x.enqueued_at y.enqueued_at
unfolding in_order
in_order_lem x y = rw (weight-one x.message.priority, weight-one y.message.priority)

-- Every item was enqueued no later than those behind it.
abbrev pub IsSorted : List Item → Type 0
IsSorted [] = Unit {0}
IsSorted (x ∷ xs) = All (λ y. x.enqueued_at ≤ y.enqueued_at) xs × IsSorted xs

All-insert :
    (t : ℕ) (x : Item) (xs : List Item)
    → t ≤ x.enqueued_at
    → All (λ y. t ≤ y.enqueued_at) xs
    → All (λ y. t ≤ y.enqueued_at) (insert_item x xs)
unfolding insert_item
All-insert t x [] le h = (le, tt)
All-insert t x (y ∷ ys) le h = elim (Bool-cases (in_order x y)) [
  | inl e ↦ rw (e, insert_item) (le, h)
  | inr e ↦ rw (e, insert_item) (h.0, All-insert t x ys le h.1)
]

All-later :
    (s t : ℕ) (xs : List Item)
    → s ≤ t
    → All (λ y. t ≤ y.enqueued_at) xs
    → All (λ y. s ≤ y.enqueued_at) xs
All-later s t [] le h = tt
All-later s t (x ∷ xs) le h = (omega (arith, h.0), All-later s t xs le h.1)

insert_item-IsSorted : (x : Item) (xs : List Item) → IsSorted xs → IsSorted (insert_item x xs)
unfolding insert_item
insert_item-IsSorted x [] h = (tt, tt)
insert_item-IsSorted x (y ∷ ys) h = elim (Bool-cases (in_order x y)) [
  | inl e ↦
      let le : x.enqueued_at ≤ y.enqueued_at = ground (arith, in_order_lem x y) in
      rw (e, insert_item) ((le, All-later x.enqueued_at y.enqueued_at ys le h.0), h)
  | inr e ↦
      let le : y.enqueued_at ≤ x.enqueued_at = ground (arith, in_order_lem x y) in
      rw (e, insert_item) (All-insert y.enqueued_at x ys le h.0, insert_item-IsSorted x ys h.1)
]

-- After `_sortQueue` the queue is in the order of `enqueuedAt`, whatever the priorities are.
pub sort_items-IsSorted : (xs : List Item) → IsSorted (sort_items xs)
unfolding sort_items
sort_items-IsSorted [] = tt
sort_items-IsSorted (x ∷ xs) = insert_item-IsSorted x (sort_items xs) (sort_items-IsSorted xs)
