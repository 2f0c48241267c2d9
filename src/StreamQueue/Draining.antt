-- ===== src/StreamQueue/Draining.antt =====
-- The rounds of `_retryLoop` up to its sleep.
use node_red_contrib_pod_gat.Prelude.{
  ℕ, zero, suc, ◌+◌, ◌≤◌, ◌<◌, ◌≡◌, refl, ap, ◌∙◌, Bool, true, false, Option, none, some, List, [],
  ◌∷◌, Text, if◌then◌else◌, arith, Bool-cases, Option-cases, inl, inr, is_some, eqb,
}
use node_red_contrib_pod_gat.StreamQueue.Commands.{Commands, Laws}
use node_red_contrib_pod_gat.StreamQueue.Store.{Lane, Queue, lane, with_lane}
use node_red_contrib_pod_gat.StreamQueue.Store.Scripts.{
  is_due, promote_script, promote_retry_member, promote_all, due_retries, promote_due_retries,
}
use node_red_contrib_pod_gat.StreamQueue.Store.Retries.{one_if}

module _ (r : Commands) where
  -- The rounds of `_retryLoop` up to its next sleep, within the given number; `now` is their time.
  unfoldable pub retry_rounds : ℕ → Queue r → ℕ → Option (Queue r)
  retry_rounds zero q now = none
  retry_rounds (suc fuel) q now =
      let (next, promoted) = promote_due_retries r q now in
      let rest = retry_rounds fuel next now in if eqb promoted 0 then some next else rest

  -- The delayed retries of both priorities.
  abbrev pub delayed : Queue r → ℕ
  delayed q = r.card q.normal.retry + r.card q.bulk.retry

module _ (r : Commands) (laws : Laws r) where
  card-promote_script :
      (l : Lane r) (k : Text) (now : ℕ)
      → r.card (promote_script r l k now).0.retry + one_if (is_some (promote_script r l k now).1)
        ≤ r.card l.retry
  unfolding promote_script
  card-promote_script l k now = elim (Option-cases (r.zscore l.retry k)) [
    | inl e ↦ rw e (omega arith)
    | inr (at, e) ↦
        let scored : is_some (r.zscore l.retry k) ≡ true = ap is_some e in
        let one_less : r.card l.retry ≡ suc (r.card (r.zrem l.retry k)) =
          laws.card-zrem l.retry k ∙ rw scored refl in
        elim (Bool-cases (is_due (r.zscore l.retry k) now)) [
          | inr f ↦ rw f (omega arith)
          | inl f ↦ elim (Option-cases (r.hget l.payloads k)) [
            | inl g ↦ rw (f, g) (omega (arith, one_less))
            | inr (payload, g) ↦ rw (f, g) (omega (arith, one_less))
          ]
        ]
  ]

  delayed-with_lane :
      (q : Queue r) (bulk : Bool) (l : Lane r) (n : ℕ)
      → r.card l.retry + n ≤ r.card (lane r q bulk).retry
      → delayed r (with_lane r q bulk l) + n ≤ delayed r q
  unfolding with_lane
  delayed-with_lane q true l n h = omega (arith, h)
  delayed-with_lane q false l n h = omega (arith, h)

  delayed-member :
      (q : Queue r) (bulk : Bool) (k : Text) (now : ℕ)
      → delayed r (promote_retry_member r q bulk k now).0
          + one_if (promote_retry_member r q bulk k now).1
        ≤ delayed r q
  unfolding promote_retry_member with_lane
  delayed-member q bulk k now =
      let l = lane r q bulk in
      let le =
        delayed-with_lane q bulk (promote_script r l k now).0
          (one_if (is_some (promote_script r l k now).1)) (card-promote_script l k now) in
      elim (Bool-cases (is_some (promote_script r l k now).1)) [
        | inl e ↦ rw e (rw e at le)
        | inr e ↦ rw e (rw e at le)
      ]

  delayed-promote_all :
      (bulk : Bool) (now : ℕ) (ks : List Text) (q : Queue r)
      → delayed r (promote_all r q bulk ks now).0 + (promote_all r q bulk ks now).1 ≤ delayed r q
  unfolding promote_all
  delayed-promote_all bulk now [] q = omega arith
  delayed-promote_all bulk now (k ∷ ks) q =
      let m = promote_retry_member r q bulk k now in
      let one = delayed-member q bulk k now in
      let rest = delayed-promote_all bulk now ks m.0 in
      elim (Bool-cases m.1) [
        | inl e ↦ rw e (omega (arith, rw e at one, rest))
        | inr e ↦ rw e (omega (arith, rw e at one, rest))
      ]

  delayed-round :
      (q : Queue r) (now : ℕ)
      → delayed r (promote_due_retries r q now).0 + (promote_due_retries r q now).1 ≤ delayed r q
  unfolding promote_due_retries
  delayed-round q now =
      let first = promote_all r q false (due_retries r q false now) now in
      let one = delayed-promote_all false now (due_retries r q false now) q in
      let two = delayed-promote_all true now (due_retries r first.0 true now) first.0 in
      let second = promote_all r first.0 true (due_retries r first.0 true now) now in
      either q.command_ready (second.0, first.1 + second.1) (q, 0) (omega (arith, one, two))
        (omega arith)
    where
      either :
          (b : Bool) (x y : Queue r × ℕ)
          → delayed r x.0 + x.1 ≤ delayed r q
          → delayed r y.0 + y.1 ≤ delayed r q
          → delayed r (if b then x else y).0 + (if b then x else y).1 ≤ delayed r q
      either true x y h k = h
      either false x y h k = k

  retry_rounds-enough :
      (fuel : ℕ) (q : Queue r) (now : ℕ)
      → delayed r q < fuel
      → is_some (retry_rounds r fuel q now) ≡ true
  unfolding retry_rounds
  retry_rounds-enough zero q now h = absurd (omega (arith, h))
  retry_rounds-enough (suc fuel) q now h =
      let after = promote_due_retries r q now in
      let fewer = delayed-round q now in
      elim (Bool-cases (eqb after.1 0)) [
        | inl e ↦ rw e refl
        | inr e ↦
            let some_promoted : 0 < after.1 = ground (arith, e) in
            rw e (retry_rounds-enough fuel after.0 now (omega (arith, h, fewer, some_promoted)))
      ]

  -- However the sorted sets answer, `_retryLoop` sleeps after at most as many rounds at one time as there
  -- are delayed retries, and one more: every round but the last takes a delayed retry away.
  pub retry_rounds-end :
      (q : Queue r) (now : ℕ) → is_some (retry_rounds r (suc (delayed r q)) q now) ≡ true
  retry_rounds-end q now = retry_rounds-enough (suc (delayed r q)) q now (omega arith)
