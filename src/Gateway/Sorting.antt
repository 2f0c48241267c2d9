-- ===== src/Gateway/Sorting.antt =====
-- `_sortQueue`. `Array.prototype.sort` is stable, and so is the insertion sort here.
pub mod Order
use node_red_contrib_pod_gat.Prelude.{
  ℕ, ◌+◌, Bool, true, false, Option, none, some, List, [], ◌∷◌, leb, ltb, eqb, or_else, String,
  if◌then◌else◌,
}
use node_red_contrib_pod_gat.Protocol.{priority}
use node_red_contrib_pod_gat.Gateway.Types.{Item}
use node_red_contrib_pod_gat.Gateway.Timing.{or_number}

-- `PRIORITY[item.request.priority] || PRIORITY.normal`
unfoldable pub weight : Option String → ℕ
unfolding priority
weight none = 1
weight (some name) = or_number (priority name) 1

-- The comparator's result is at most 0: the left item may stay in front.
unfoldable pub in_order : Item → Item → Bool
unfolding weight
in_order left right =
    let l = weight left.message.priority in
    let r = weight right.message.priority in
    if eqb r l then leb left.enqueued_at right.enqueued_at else ltb r l

unfoldable pub insert_item : Item → List Item → List Item
unfolding in_order
insert_item item [] = item ∷ []
insert_item item (x ∷ xs) = if in_order item x then item ∷ x ∷ xs else x ∷ insert_item item xs

-- A list is sorted from its end, so that an item stays in front of the equal ones behind it.
unfoldable pub sort_items : List Item → List Item
unfolding insert_item
sort_items [] = []
sort_items (x ∷ xs) = insert_item x (sort_items xs)
