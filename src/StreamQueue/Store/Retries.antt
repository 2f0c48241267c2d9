-- ===== src/StreamQueue/Store/Retries.antt =====
-- The two scripts of the delayed retries: their payloads, and the work that they count.
use node_red_contrib_pod_gat.Prelude.{
  ℕ, suc, ◌+◌, ◌≤◌, ◌≡◌, refl, ◌∙◌, Bool, true, false, not, ◌&&◌, some, Text, text_eq, ◌==◌, ltb,
  is_some, arith, Bool-cases, Option-cases, inl, inr,
}
use node_red_contrib_pod_gat.StreamQueue.Commands.{Commands, Laws}
use node_red_contrib_pod_gat.StreamQueue.Store.{Lane}
use node_red_contrib_pod_gat.StreamQueue.Store.Scripts.{
  is_due, put_retry, schedule_script, promote_script,
}

abbrev pub one_if : Bool → ℕ
one_if true = 1
one_if false = 0

module _ (r : Commands) where
  -- The entries of a lane that wait for a handler, and its delayed retries.
  abbrev pub work : Lane r → ℕ
  work l = r.waiting l.stream + r.card l.retry

  -- Every delayed retry has its payload.
  abbrev pub IsPaired : Lane r → Type 0
  IsPaired l =
      (k : Text) → is_some (r.zscore l.retry k) ≡ true → is_some (r.hget l.payloads k) ≡ true

module _ (r : Commands) (laws : Laws r) where
  pub work-put_retry :
      (l : Lane r) (k payload : Text) (at : ℕ)
      → work r (put_retry r l k payload at) ≡ work r l + one_if (not (is_some (r.zscore l.retry k)))
  unfolding put_retry
  work-put_retry l k payload at =
      rw (laws.card-zadd l.retry at k) (elim (Bool-cases (is_some (r.zscore l.retry k))) [
        | inl e ↦ rw e (omega arith)
        | inr e ↦ rw e (omega arith)
      ])

  pub put_retry-IsPaired :
      (l : Lane r) (k payload : Text) (at : ℕ)
      → IsPaired r l
      → IsPaired r (put_retry r l k payload at)
  unfolding put_retry
  put_retry-IsPaired l k payload at h j e = elim (Bool-cases (k == j)) [
    | inl s ↦ rw (laws.hget-hset l.payloads k j payload, s) refl
    | inr s ↦
        rw (laws.hget-hset l.payloads k j payload, s)
          (h j (rw (laws.zscore-zadd l.retry at k j, s) at e))
  ]

  -- A retry that takes a slot is counted with the work that it adds, and a full queue changes nothing
  -- that is counted.
  pub schedule_script-work :
      (l : Lane r) (depth : r.Counter) (k payload : Text) (at max : ℕ)
      → (let after = schedule_script r l depth k payload at false max in
          r.count after.0.1 + work r l ≡ r.count depth + work r after.0.0)
  unfolding schedule_script
  schedule_script-work l depth k payload at max = elim (Bool-cases (is_some (r.zscore l.retry k))) [
    | inl e ↦ rw (e, work-put_retry l k payload at, e) (omega arith)
    | inr e ↦ elim (Bool-cases (ltb max (r.count (r.incr depth)))) [
      | inl f ↦
          rw (e, f, laws.count-decr (r.incr depth) (r.count depth) (laws.count-incr depth)) refl
      | inr f ↦ rw (e, f, work-put_retry l k payload at, e, laws.count-incr depth) (omega arith)
    ]
  ]

  -- A retry that keeps the slot of its entry leaves the depth alone.
  pub schedule_script-kept :
      (l : Lane r) (depth : r.Counter) (k payload : Text) (at max : ℕ)
      → schedule_script r l depth k payload at true max
        ≡ ((put_retry r l k payload at, depth), some (is_some (r.zscore l.retry k)))
  unfolding schedule_script
  schedule_script-kept l depth k payload at max = elim (Bool-cases (is_some (r.zscore l.retry k))) [
    | inl e ↦ rw e refl
    | inr e ↦ rw e refl
  ]

  pub schedule_script-IsPaired :
      (l : Lane r) (depth : r.Counter) (k payload : Text) (at max : ℕ) (preserve : Bool)
      → IsPaired r l
      → IsPaired r (schedule_script r l depth k payload at preserve max).0.0
  unfolding schedule_script
  schedule_script-IsPaired l depth k payload at max preserve h =
      elim (Bool-cases (not (is_some (r.zscore l.retry k)) && not preserve)) [
        | inl e ↦ elim (Bool-cases (ltb max (r.count (r.incr depth)))) [
          | inl f ↦ rw (e, f) h
          | inr f ↦ rw (e, f) (put_retry-IsPaired l k payload at h)
        ]
        | inr e ↦ rw e (put_retry-IsPaired l k payload at h)
      ]

  pub schedule_script-room :
      (l : Lane r) (depth : r.Counter) (k payload : Text) (at max : ℕ) (preserve : Bool)
      → r.count depth ≤ max
      → r.count (schedule_script r l depth k payload at preserve max).0.1 ≤ max
  unfolding schedule_script
  schedule_script-room l depth k payload at max preserve h =
      elim (Bool-cases (not (is_some (r.zscore l.retry k)) && not preserve)) [
        | inl e ↦ elim (Bool-cases (ltb max (r.count (r.incr depth)))) [
          | inl f ↦
              rw (e, f, laws.count-decr (r.incr depth) (r.count depth) (laws.count-incr depth)) h
          | inr f ↦ rw (e, f) (ground (arith, f))
        ]
        | inr e ↦ rw e h
      ]

  due-scored :
      (z : r.SortedSet) (k : Text) (now : ℕ)
      → is_due (r.zscore z k) now ≡ true
      → is_some (r.zscore z k) ≡ true
  due-scored z k now e = elim (Option-cases (r.zscore z k)) [
    | inl f ↦ absurd (cc (rw f at e))
    | inr (at, f) ↦ rw f refl
  ]

  -- A due retry becomes a waiting entry; anything else stays as it is.
  pub promote_script-work :
      (l : Lane r) (k : Text) (now : ℕ)
      → IsPaired r l
      → work r (promote_script r l k now).0 ≡ work r l
  unfolding promote_script
  promote_script-work l k now paired = elim (Bool-cases (is_due (r.zscore l.retry k) now)) [
    | inr e ↦ rw e refl
    | inl e ↦
        let scored = due-scored l.retry k now e in
        elim (Option-cases (r.hget l.payloads k)) [
          | inl f ↦ absurd (cc (rw f at (paired k scored)))
          | inr (payload, f) ↦
              let one_less : r.card l.retry ≡ suc (r.card (r.zrem l.retry k)) =
                laws.card-zrem l.retry k ∙ rw scored refl in
              rw (e, f) (omega (arith, laws.waiting-xadd l.stream payload, one_less))
        ]
  ]

  pub promote_script-IsPaired :
      (l : Lane r) (k : Text) (now : ℕ) → IsPaired r l → IsPaired r (promote_script r l k now).0
  unfolding promote_script
  promote_script-IsPaired l k now paired = elim (Bool-cases (is_due (r.zscore l.retry k) now)) [
    | inr e ↦ rw e paired
    | inl e ↦ elim (Option-cases (r.hget l.payloads k)) [
      | inl f ↦ absurd (cc (rw f at (paired k (due-scored l.retry k now e))))
      | inr (payload, f) ↦ rw (e, f) (removed-IsPaired l k paired)
    ]
  ]
    where
      removed-IsPaired :
          (l : Lane r) (k : Text)
          → IsPaired r l
          → (j : Text) → is_some (r.zscore (r.zrem l.retry k) j) ≡ true
          → is_some (r.hget (r.hdel l.payloads k) j) ≡ true
      removed-IsPaired l k paired j e = elim (Bool-cases (k == j)) [
        | inl s ↦ absurd (cc (rw (laws.zscore-zrem l.retry k j, s) at e))
        | inr s ↦
            rw (laws.hget-hdel l.payloads k j, s)
              (paired j (rw (laws.zscore-zrem l.retry k j, s) at e))
      ]
