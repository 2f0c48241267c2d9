-- ===== src/StreamQueue/Balance/Endings.antt =====
-- An entry whose handler has ended, and the slot that it had.
use node_red_contrib_pod_gat.Prelude.{
  ℕ, suc, ◌+◌, ◌≡◌, refl, sym, ◌∙◌, subst, Bool, true, false, ◌&&◌, none, arith, Bool-cases, inl,
  inr, ltb,
}
use node_red_contrib_pod_gat.StreamQueue.Commands.{Commands, Laws}
use node_red_contrib_pod_gat.StreamQueue.Store.{Queue, Counters, lane, with_lane}
use node_red_contrib_pod_gat.StreamQueue.Store.Retries.{work}
use node_red_contrib_pod_gat.StreamQueue.Delivery.{
  Message, returned, acknowledge, delete_entry, release_slot, dispatch_ends,
}
use node_red_contrib_pod_gat.StreamQueue.Balance.{Holds, changed, Holds-changed, lane-IsPaired}
use node_red_contrib_pod_gat.StreamQueue.Balance.Steps.{all_sent, IsWaiting, lane-with_lane}

module _ (r : Commands) (laws : Laws r) where
  acknowledge-Holds :
      (q : Queue r) (m : Message) (spare : ℕ)
      → IsWaiting r q m
      → Holds r q spare 0
      → Holds r (acknowledge r q m) spare 1
  unfolding acknowledge with_lane
  acknowledge-Holds q m spare w h =
      let l = lane r q m.bulk in
      let one_less : r.waiting l.stream ≡ suc (r.waiting (r.xack l.stream m.id)) =
        laws.waiting-xack l.stream m.id ∙ rw w refl in
      Holds-changed r q m.bulk (record l { stream = r.xack l.stream m.id }) q.depth
        (record q.counters { acknowledged = suc q.counters.acknowledged }) spare 0 spare 1 h
        (omega (arith, one_less)) (lane-IsPaired r q m.bulk spare 0 h) h.bounded

  delete_entry-Holds :
      (q : Queue r) (m : Message) (deletes : Bool) (spare owed : ℕ)
      → r.unacked (lane r q m.bulk).stream m.id ≡ none
      → Holds r q spare owed
      → Holds r (delete_entry r q m deletes) spare owed
  unfolding delete_entry with_lane
  delete_entry-Holds q m deletes spare owed gone h =
      let l = lane r q m.bulk in
      let same : (counters : Counters)
          → Holds r
              (changed r q m.bulk (record l { stream = (r.xdel l.stream m.id).1 }) q.depth counters)
              spare owed =
        λ counters.
          Holds-changed r q m.bulk (record l { stream = (r.xdel l.stream m.id).1 }) q.depth counters
            spare owed spare owed h (omega (arith, laws.waiting-xdel l.stream m.id gone))
            (lane-IsPaired r q m.bulk spare owed h) h.bounded in
      elim (Bool-cases (q.delete_on_ack && deletes)) [
        | inr e ↦ rw e h
        | inl e ↦ elim (Bool-cases (ltb 0 (r.xdel l.stream m.id).0)) [
          | inl f ↦ rw (e, f) (same (record q.counters { deleted = suc q.counters.deleted }))
          | inr f ↦ rw (e, f) (same q.counters)
        ]
      ]

  acknowledged :
      (q : Queue r) (m : Message) → r.unacked (lane r (acknowledge r q m) m.bulk).stream m.id ≡ none
  unfolding acknowledge
  acknowledged q m =
      let l = lane r q m.bulk in
      let e = lane-with_lane r q m.bulk (record l { stream = r.xack l.stream m.id }) in
      subst (λ x. r.unacked x.stream m.id ≡ none) (sym e) (laws.unacked-xack l.stream m.id)

  pub cleared-Holds :
      (q : Queue r) (m : Message) (spare : ℕ)
      → IsWaiting r q m
      → Holds r q spare 0
      → Holds r (delete_entry r (acknowledge r q m) m true) spare 1
  cleared-Holds q m spare w h =
      delete_entry-Holds (acknowledge r q m) m true spare 1 (acknowledged q m)
        (acknowledge-Holds q m spare w h)

  pub release_slot-Holds : (q : Queue r) → Holds r q 0 1 → Holds r (release_slot r q false) 0 0
  unfolding release_slot
  release_slot-Holds q h =
      let positive : r.count q.depth ≡ suc (work r q.normal + work r q.bulk) =
        omega (arith, h.balanced) in
      let lower = laws.count-decr q.depth (work r q.normal + work r q.bulk) positive in
      record {
        balanced = omega (arith, lower);
        normal_paired = h.normal_paired;
        bulk_paired = h.bulk_paired;
        bounded = omega (arith, lower, positive, h.bounded);
      }

  -- A slot that has no work stands for the work that has no slot.
  transferred-Holds : (q : Queue r) → Holds r q 1 1 → Holds r q 0 0
  transferred-Holds q h = record {
    balanced = omega (arith, h.balanced);
    normal_paired = h.normal_paired;
    bulk_paired = h.bulk_paired;
    bounded = h.bounded;
  }

  pub finishes-Holds :
      (q : Queue r) (m : Message)
      → IsWaiting r q m
      → Holds r q 0 0
      → Holds r (dispatch_ends r q m (returned false) all_sent) 0 0
  unfolding dispatch_ends
  finishes-Holds q m w h = release_slot-Holds _ (cleared-Holds q m 0 w h)

  pub handed_over-Holds :
      (q : Queue r) (m : Message)
      → IsWaiting r q m
      → Holds r q 1 0
      → Holds r (dispatch_ends r q m (returned true) all_sent) 0 0
  unfolding dispatch_ends release_slot
  handed_over-Holds q m w h = transferred-Holds _ (cleared-Holds q m 1 w h)
