-- ===== src/StreamQueue/Store/Adding.antt =====
-- What `enqueue` does to the entries of the streams, whichever of its commands throw.
use node_red_contrib_pod_gat.Prelude.{
  ℕ, suc, ◌≡◌, refl, ap, subst, ◌∙◌, inl, inr, Bool, true, false, not, Option, none, some, Text,
  Bool-cases, Option-cases, ltb,
}
use node_red_contrib_pod_gat.Gateway.Types.{Failure}
use node_red_contrib_pod_gat.StreamQueue.Commands.{Commands, Laws}
use node_red_contrib_pod_gat.StreamQueue.Store.{
  Task, Lane, Queue, Faults, Reply, failed, replied, lane, with_lane, is_bulk, append, give_back,
  enqueue,
}

module _ (r : Commands) where
  pub enqueue-ready :
      (encode : Task → Text) (q : Queue r) (t : Task) (faults : Faults)
      → (enqueue r encode q t faults).0.command_ready ≡ q.command_ready
  unfolding enqueue append with_lane
  enqueue-ready encode q t faults = elim (Bool-cases (not q.command_ready)) [
    | inl e ↦ rw e refl
    | inr e ↦ elim (Option-cases faults.incr) [
      | inr (x, i) ↦ rw (e, i) refl
      | inl i ↦ elim (Bool-cases (ltb q.max_queue_size (r.count (r.incr q.depth)))) [
        | inl f ↦ rw (e, i, f) (returned faults.decr)
        | inr f ↦ elim (Option-cases faults.xadd) [
          | inl g ↦ rw (e, i, f, g) refl
          | inr (failure, g) ↦ rw (e, i, f, g) (returned faults.decr)
        ]
      ]
    ]
  ]
    where
      returned :
          (o : Option Failure)
          → (give_back r (record q { depth = r.incr q.depth }) o).command_ready ≡ q.command_ready
      returned none = unfold give_back in refl
      returned (some e) = unfold give_back in refl

  -- One entry with the payload stands behind the others of its stream, and the other stream is the same.
  abbrev pub IsAdded : Queue r → Queue r → Bool → Text → Type 0
  IsAdded q p bulk payload =
      (n : ℕ) × (r.unacked (lane r p bulk).stream n ≡ some payload)
      × (r.waiting (lane r p bulk).stream ≡ suc (r.waiting (lane r q bulk).stream))
      × ((lane r p (not bulk)).stream ≡ (lane r q (not bulk)).stream)

  -- The entries are what they were.
  abbrev pub HasSameEntries : Queue r → Queue r → Type 0
  HasSameEntries q p = (p.normal.stream ≡ q.normal.stream) × (p.bulk.stream ≡ q.bulk.stream)

module _ (r : Commands) (laws : Laws r) where
  append-IsAdded :
      (q p : Queue r) (bulk : Bool) (payload : Text)
      → p.normal ≡ q.normal
      → p.bulk ≡ q.bulk
      → IsAdded r q (append r p bulk payload).0 bulk payload
  unfolding append with_lane
  append-IsAdded q p true payload e f = (
    (r.xadd p.bulk.stream payload).0,
    laws.unacked-xadd p.bulk.stream payload,
    laws.waiting-xadd p.bulk.stream payload ∙ ap (λ l. suc (r.waiting (Lane.stream l))) f,
    ap (λ l. Lane.stream l) e,
  )
  append-IsAdded q p false payload e f = (
    (r.xadd p.normal.stream payload).0,
    laws.unacked-xadd p.normal.stream payload,
    laws.waiting-xadd p.normal.stream payload ∙ ap (λ l. suc (r.waiting (Lane.stream l))) e,
    ap (λ l. Lane.stream l) f,
  )

  -- What `enqueue` returns, and what it has done then.
  abbrev Enqueued : Queue r → Bool → Text → Queue r × Reply ℕ → Type 0
  Enqueued q bulk payload (p, failed e) = HasSameEntries r q p
  Enqueued q bulk payload (p, replied n) = IsAdded r q p bulk payload

  enqueue-Enqueued :
      (encode : Task → Text) (q : Queue r) (t : Task) (faults : Faults)
      → Enqueued q (is_bulk t) (encode t) (enqueue r encode q t faults)
  unfolding enqueue
  enqueue-Enqueued encode q t faults = elim (Bool-cases (not q.command_ready)) [
    | inl e ↦ rw e (refl, refl)
    | inr e ↦ elim (Option-cases faults.incr) [
      | inr (x, i) ↦ rw (e, i) (refl, refl)
      | inl i ↦ elim (Bool-cases (ltb q.max_queue_size (r.count (r.incr q.depth)))) [
        | inl f ↦ rw (e, i, f) (returned faults.decr)
        | inr f ↦ elim (Option-cases faults.xadd) [
          | inl g ↦
              rw (e, i, f, g)
                (append-IsAdded q (record q { depth = r.incr q.depth }) (is_bulk t) (encode t) refl
                  refl)
          | inr (failure, g) ↦ rw (e, i, f, g) (returned faults.decr)
        ]
      ]
    ]
  ]
    where
      returned :
          (o : Option Failure)
          → HasSameEntries r q (give_back r (record q { depth = r.incr q.depth }) o)
      returned none = unfold give_back in (refl, refl)
      returned (some e) = unfold give_back in (refl, refl)

  -- An item that was not added leaves the entries as they were.
  pub enqueue-failed :
      (encode : Task → Text) (q : Queue r) (t : Task) (faults : Faults) (e : Failure)
      → (enqueue r encode q t faults).1 ≡ failed e
      → HasSameEntries r q (enqueue r encode q t faults).0
  enqueue-failed encode q t faults e h =
      let p = (enqueue r encode q t faults).0 in
      subst (λ x. Enqueued q (is_bulk t) (encode t) (p, x)) h (enqueue-Enqueued encode q t faults)

  pub enqueue-replied :
      (encode : Task → Text) (q : Queue r) (t : Task) (faults : Faults) (n : ℕ)
      → (enqueue r encode q t faults).1 ≡ replied n
      → IsAdded r q (enqueue r encode q t faults).0 (is_bulk t) (encode t)
  enqueue-replied encode q t faults n h =
      let p = (enqueue r encode q t faults).0 in
      subst (λ x. Enqueued q (is_bulk t) (encode t) (p, x)) h (enqueue-Enqueued encode q t faults)
