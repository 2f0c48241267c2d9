-- ===== src/StreamQueue/Balance.antt =====
-- The queue's depth, its waiting entries and its delayed retries.
pub mod Retrying
pub mod Steps
pub mod Endings
pub mod Run
use node_red_contrib_pod_gat.Prelude.{
  ℕ, suc, ◌+◌, ◌≤◌, ◌≡◌, refl, Bool, true, false, not, ◌&&◌, ◌||◌, Option, none, some, List, [],
  ◌∷◌, Text, if◌then◌else◌, arith, Bool-cases, Option-cases, inl, inr, ltb, is_some,
}
use node_red_contrib_pod_gat.StreamQueue.Commands.{Commands, Laws}
use node_red_contrib_pod_gat.StreamQueue.Store.{
  Task, Lane, Queue, Counters, Faults, lane, with_lane, is_bulk, append, give_back, enqueue,
}
use node_red_contrib_pod_gat.StreamQueue.Store.Scripts.{
  promote_script, promote_retry_member, promote_all, promote_due_retries, due_retries,
}
use node_red_contrib_pod_gat.StreamQueue.Store.Retries.{
  work, IsPaired, promote_script-work, promote_script-IsPaired,
}

-- The queue holds together, but for `spare` pieces of work that have no slot and `owed` slots that have
-- no work.
pub record Holds (r : Commands) (q : Queue r) (spare owed : ℕ) : Type 0 where
  pub balanced : r.count q.depth + spare ≡ work r q.normal + work r q.bulk + owed
  pub normal_paired : IsPaired r q.normal
  pub bulk_paired : IsPaired r q.bulk
  pub bounded : r.count q.depth ≤ q.max_queue_size

module _ (r : Commands) where
  -- One lane, the depth and the counts are changed.
  abbrev pub changed : Queue r → Bool → Lane r → r.Counter → Counters → Queue r
  changed q bulk l depth counters = record (with_lane r q bulk l) {
    depth = depth;
    counters = counters;
  }

  pub Holds-changed :
      (q : Queue r) (bulk : Bool) (l : Lane r) (depth : r.Counter) (counters : Counters)
      (spare owed more less : ℕ)
      → Holds r q spare owed
      → r.count depth + work r (lane r q bulk) + owed + more
        ≡ r.count q.depth + work r l + spare + less
      → IsPaired r l
      → r.count depth ≤ q.max_queue_size
      → Holds r (changed q bulk l depth counters) more less
  unfolding with_lane
  Holds-changed q true l depth counters spare owed more less h e p b = record {
    balanced = omega (arith, h.balanced, e);
    normal_paired = h.normal_paired;
    bulk_paired = p;
    bounded = b;
  }
  Holds-changed q false l depth counters spare owed more less h e p b = record {
    balanced = omega (arith, h.balanced, e);
    normal_paired = p;
    bulk_paired = h.bulk_paired;
    bounded = b;
  }

  pub lane-IsPaired :
      (q : Queue r) (bulk : Bool) (spare owed : ℕ)
      → Holds r q spare owed
      → IsPaired r (lane r q bulk)
  lane-IsPaired q true spare owed h = h.bulk_paired
  lane-IsPaired q false spare owed h = h.normal_paired

module _ (r : Commands) (laws : Laws r) where
  -- A slot that is taken and given back.
  given_back : (c : r.Counter) → r.count (r.decr (r.incr c)) ≡ r.count c
  given_back c = laws.count-decr (r.incr c) (r.count c) (laws.count-incr c)

  returned-Holds :
      (q : Queue r) → Holds r q 0 0 → Holds r (record q { depth = r.decr (r.incr q.depth) }) 0 0
  returned-Holds q h = record {
    balanced = rw (given_back q.depth) h.balanced;
    normal_paired = h.normal_paired;
    bulk_paired = h.bulk_paired;
    bounded = rw (given_back q.depth) h.bounded;
  }

  pub enqueue-Holds :
      (encode : Task → Text) (q : Queue r) (t : Task) (faults : Faults)
      → faults.decr ≡ none
      → Holds r q 0 0
      → Holds r (enqueue r encode q t faults).0 0 0
  unfolding enqueue append with_lane give_back
  enqueue-Holds encode q t faults k h = elim (Bool-cases (not q.command_ready)) [
    | inl e ↦ rw e h
    | inr e ↦ elim (Option-cases faults.incr) [
      | inr (x, i) ↦ rw (e, i) h
      | inl i ↦ elim (Bool-cases (ltb q.max_queue_size (r.count (r.incr q.depth)))) [
        | inl f ↦ rw (e, i, f, k) (returned-Holds q h)
        | inr f ↦ elim (Option-cases faults.xadd) [
          | inr (b, g) ↦ rw (e, i, f, g, k) (returned-Holds q h)
          | inl g ↦ rw (e, i, f, g) (appended f)
        ]
      ]
    ]
  ]
    where
      taken : Queue r
      taken = record q { depth = r.incr q.depth }

      one_taken : ltb q.max_queue_size (r.count (r.incr q.depth)) ≡ false → Holds r taken 0 1
      one_taken f = record {
        balanced = rw (laws.count-incr q.depth) (omega (arith, h.balanced));
        normal_paired = h.normal_paired;
        bulk_paired = h.bulk_paired;
        bounded = ground (arith, f);
      }

      l : Lane r
      l = record (lane r q (is_bulk t)) {
        stream = (r.xadd (lane r q (is_bulk t)).stream (encode t)).1;
      }

      counted : Counters
      counted = record q.counters { stream_xadd = suc q.counters.stream_xadd }

      appended :
          ltb q.max_queue_size (r.count (r.incr q.depth)) ≡ false
          → Holds r (changed r taken (is_bulk t) l (r.incr q.depth) counted) 0 0
      appended f =
          Holds-changed r taken (is_bulk t) l (r.incr q.depth) counted 0 1 0 0 (one_taken f)
            (rw (laws.waiting-xadd (lane r q (is_bulk t)).stream (encode t)) (omega arith))
            (lane-IsPaired r taken (is_bulk t) 0 1 (one_taken f)) (one_taken f).bounded

  pub promote_retry_member-Holds :
      (q : Queue r) (bulk : Bool) (k : Text) (now : ℕ)
      → Holds r q 0 0
      → Holds r (promote_retry_member r q bulk k now).0 0 0
  unfolding promote_retry_member with_lane
  promote_retry_member-Holds q bulk k now h =
      let l = (promote_script r (lane r q bulk) k now).0 in
      let p = lane-IsPaired r q bulk 0 0 h in
      let moved : (counters : Counters) → Holds r (changed r q bulk l q.depth counters) 0 0 =
        λ counters.
          Holds-changed r q bulk l q.depth counters 0 0 0 0 h
            (omega (arith, promote_script-work r laws (lane r q bulk) k now p))
            (promote_script-IsPaired r laws (lane r q bulk) k now p) h.bounded in
      elim (Bool-cases (is_some (promote_script r (lane r q bulk) k now).1)) [
        | inl e ↦ rw e (
            moved (record q.counters {
              delayed_promoted = suc q.counters.delayed_promoted;
              stream_xadd = suc q.counters.stream_xadd;
            }))
        | inr e ↦ rw e (moved q.counters)
      ]
