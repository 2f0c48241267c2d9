-- ===== src/StreamQueue/Store/Delays.antt =====
-- A delayed retry on its way back to the stream.
use node_red_contrib_pod_gat.Prelude.{
  ℕ, ◌≤◌, ◌≡◌, refl, ◌∙◌, Bool, true, not, ◌&&◌, Option, none, some, Text, text_eq, ltb, leb,
  is_some, arith, Bool-cases, inl, inr,
}
use node_red_contrib_pod_gat.StreamQueue.Commands.{Commands, Laws}
use node_red_contrib_pod_gat.StreamQueue.Store.{Lane}
use node_red_contrib_pod_gat.StreamQueue.Store.Scripts.{put_retry, schedule_script, promote_script}

-- The retry `k` has become the entry with this payload, and it does not become another one.
pub record Promoted (r : Commands) (k payload : Text) (now : ℕ) (moved : Lane r × Option ℕ)
    : Type 0 where
  pub id : ℕ
  pub entry : moved.1 ≡ some id
  pub kept : r.unacked moved.0.stream id ≡ some payload
  pub gone : r.zscore moved.0.retry k ≡ none
  pub once : promote_script r moved.0 k now ≡ (moved.0, none)

module _ (r : Commands) (laws : Laws r) where
  scheduled :
      (l : Lane r) (depth : r.Counter) (k payload : Text) (at max : ℕ) (preserve already : Bool)
      → (schedule_script r l depth k payload at preserve max).1 ≡ some already
      → (schedule_script r l depth k payload at preserve max).0.0 ≡ put_retry r l k payload at
  unfolding schedule_script
  scheduled l depth k payload at max preserve already h =
      elim (Bool-cases (not (is_some (r.zscore l.retry k)) && not preserve)) [
        | inl e ↦ elim (Bool-cases (ltb max (r.count (r.incr depth)))) [
          | inl f ↦ absurd (cc (rw (e, f) at h))
          | inr f ↦ rw (e, f) refl
        ]
        | inr e ↦ rw e refl
      ]

  not_due :
      (l : Lane r) (k : Text) (now : ℕ)
      → r.zscore l.retry k ≡ none
      → promote_script r l k now ≡ (l, none)
  unfolding promote_script
  not_due l k now e = rw e refl

  promoted :
      (l : Lane r) (k payload : Text) (at now : ℕ)
      → at ≤ now
      → Promoted r k payload now (promote_script r (put_retry r l k payload at) k now)
  unfolding promote_script put_retry
  promoted l k payload at now h =
      let self = (text_eq.beq_iff k k).1 refl in
      let score : r.zscore (r.zadd l.retry at k) k ≡ some at =
        laws.zscore-zadd l.retry at k k ∙ rw self refl in
      let stored : r.hget (r.hset l.payloads k payload) k ≡ some payload =
        laws.hget-hset l.payloads k k payload ∙ rw self refl in
      let none_left : r.zscore (r.zrem (r.zadd l.retry at k) k) k ≡ none =
        laws.zscore-zrem (r.zadd l.retry at k) k k ∙ rw self refl in
      let due : leb at now ≡ true = ground (arith, h) in
      rw (score, due, stored)
        (record {
          id = (r.xadd l.stream payload).0;
          entry = refl;
          kept = laws.unacked-xadd l.stream payload;
          gone = none_left;
          once = not_due _ k now none_left;
        })

  -- A retry that `SCHEDULE_RETRY_SCRIPT` has accepted, new or already scheduled, becomes by
  -- `PROMOTE_RETRY_SCRIPT` at its time or later a stream entry with the payload of that call; the
  -- delayed retry is gone then, and to promote it again does nothing.
  pub schedule-promote :
      (l : Lane r) (depth : r.Counter) (k payload : Text) (at now max : ℕ) (preserve already : Bool)
      → (schedule_script r l depth k payload at preserve max).1 ≡ some already
      → at ≤ now
      → Promoted r k payload now
          (promote_script r (schedule_script r l depth k payload at preserve max).0.0 k now)
  schedule-promote l depth k payload at now max preserve already h due =
      rw (scheduled l depth k payload at max preserve already h) (promoted l k payload at now due)
