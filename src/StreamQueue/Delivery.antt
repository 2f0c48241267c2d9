-- ===== src/StreamQueue/Delivery.antt =====
-- `_dispatch`: what is handed to the handler, and what becomes of the entry when the handler has ended.
-- The handlers of a batch run at the same time, so an end is a step of its own. `claimed` is in which
-- order `_consumeLoop` takes its work.
use node_red_contrib_pod_gat.Prelude.{
  ℕ, suc, ltb, Bool, true, false, not, ◌&&◌, ◌||◌, Option, none, some, List, [], ◌∷◌, ◌++◌, Text,
  if◌then◌else◌,
}
use node_red_contrib_pod_gat.StreamQueue.Commands.{Commands}
use node_red_contrib_pod_gat.StreamQueue.Store.{Task, Queue, lane, with_lane}

-- An entry that was read or reclaimed.
pub record Message : Type 0 where
  pub id : ℕ
  pub bulk : Bool
  pub payload : Text

-- How the handler ended: it returned, or it threw.
pub data Ending : Type 0 where
  returned : Bool → Ending
  threw : Ending

-- Which of `XACK`, `XDEL` and `DECR` do not throw.
pub record Net : Type 0 where
  pub acks : Bool
  pub deletes : Bool
  pub counts : Bool

-- The item that the handler is given; `none` where the payload is not JSON, and the entry is kept.
unfoldable pub delivered : (Text → Option Task) → Message → Option Task
delivered decode m = elim (decode m.payload) [
  | none ↦ none
  | some t ↦ some (record t { queue_id = some m.id; queue_stream = some m.bulk })
]

-- The batch that a turn of `_consumeLoop` dispatches: a stream is read only if all before it had nothing.
unfoldable pub next_batch : List Message → List Message → List Message → List Message
next_batch (m ∷ ms) normal bulk = m ∷ ms
next_batch [] (m ∷ ms) bulk = m ∷ ms
next_batch [] [] bulk = bulk

-- `_claimPending` of the two streams, `_flatten` of one.
unfoldable pub flatten : Bool → List (ℕ × Text) → List Message
flatten bulk [] = []
flatten bulk ((id, payload) ∷ rest) =
    record { id = id; bulk = bulk; payload = payload } ∷ flatten bulk rest

unfoldable pub claim_pending : List (ℕ × Text) → List (ℕ × Text) → List Message
claim_pending normal bulk = flatten false normal ++ flatten true bulk

module _ (r : Commands) where
  unfoldable pub acknowledge : Queue r → Message → Queue r
  acknowledge q m =
      let l = lane r q m.bulk in
      record (with_lane r q m.bulk (record l { stream = r.xack l.stream m.id })) {
        counters = record q.counters { acknowledged = suc q.counters.acknowledged };
      }

  unfoldable pub delete_entry : Queue r → Message → Bool → Queue r
  delete_entry q m deletes =
      let l = lane r q m.bulk in
      let (removed, kept) = r.xdel l.stream m.id in
      let shrunk : Queue r = with_lane r q m.bulk (record l { stream = kept }) in
      let counted : Queue r = record shrunk {
        counters = record q.counters { deleted = suc q.counters.deleted };
      } in
      if q.delete_on_ack && deletes then (if ltb 0 removed then counted else shrunk) else q

  unfoldable pub release_slot : Queue r → Bool → Queue r
  release_slot q held = if held then q else record q { depth = r.decr q.depth }

  -- The part of `_dispatch` behind the handler.
  unfoldable pub dispatch_ends : Queue r → Message → Ending → Net → Queue r
  dispatch_ends q m threw net = q
  dispatch_ends q m (returned deferred) net =
      if net.acks
      then release_slot (delete_entry (acknowledge q m) m net.deletes) (deferred || not net.counts)
      else q
