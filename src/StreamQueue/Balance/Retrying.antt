-- ===== src/StreamQueue/Balance/Retrying.antt =====
-- The balance of the queue at scheduling and promoting.
use node_red_contrib_pod_gat.Prelude.{
  ℕ, suc, ◌+◌, ◌≤◌, ◌≡◌, sym, ap, subst, Bool, true, false, not, Option, some, List, [], ◌∷◌, Text,
  String, if◌then◌else◌, arith, Bool-cases, Option-cases, inl, inr, is_some, or_else,
}
use node_red_contrib_pod_gat.StreamQueue.Commands.{Commands, Laws}
use node_red_contrib_pod_gat.StreamQueue.Store.{
  Task, Queue, Counters, lane, with_lane, is_bulk, retry_token,
}
use node_red_contrib_pod_gat.StreamQueue.Store.Scripts.{
  schedule_script, schedule_retry, next_try, put_retry, promote_all, promote_due_retries,
  due_retries, promote_retry_member,
}
use node_red_contrib_pod_gat.StreamQueue.Store.Retries.{
  work, IsPaired, one_if, schedule_script-work, schedule_script-IsPaired, schedule_script-room,
  schedule_script-kept, put_retry-IsPaired, work-put_retry,
}
use node_red_contrib_pod_gat.StreamQueue.Balance.{
  Holds, changed, Holds-changed, lane-IsPaired, promote_retry_member-Holds,
}

module _ {ℓ} (r : Commands) {A : Type ℓ} where
  Holds-if :
      {m n : ℕ} (b : Bool) (x y : Queue r × A)
      → Holds r x.0 m n
      → Holds r y.0 m n
      → Holds r (if b then x else y).0 m n
  Holds-if true x y h k = h
  Holds-if false x y h k = k

module _ (r : Commands) (laws : Laws r) where
  promote_all-Holds :
      (bulk : Bool) (now : ℕ) (ks : List Text) (q : Queue r)
      → Holds r q 0 0
      → Holds r (promote_all r q bulk ks now).0 0 0
  unfolding promote_all
  promote_all-Holds bulk now [] q h = h
  promote_all-Holds bulk now (k ∷ ks) q h =
      promote_all-Holds bulk now ks (promote_retry_member r q bulk k now).0
        (promote_retry_member-Holds r laws q bulk k now h)

  pub promote_due_retries-Holds :
      (q : Queue r) (now : ℕ) → Holds r q 0 0 → Holds r (promote_due_retries r q now).0 0 0
  unfolding promote_due_retries
  promote_due_retries-Holds q now h =
      let first = (promote_all r q false (due_retries r q false now) now).0 in
      let k = promote_all-Holds false now (due_retries r q false now) q h in
      Holds-if r q.command_ready _ (q, 0)
        (promote_all-Holds true now (due_retries r first true now) first k) h

  pub schedule_retry-Holds :
      (encode : Task → Text) (q : Queue r) (t : Task) (random : String) (delay : Option ℕ) (now : ℕ)
      → Holds r q 0 0
      → Holds r (schedule_retry r encode q t random delay now false).0 0 0
  unfolding schedule_retry with_lane
  schedule_retry-Holds encode q t random delay now h =
      let l = lane r q (is_bulk t) in
      let p = lane-IsPaired r q (is_bulk t) 0 0 h in
      let k = retry_token t (is_bulk t) random in
      let payload = encode (next_try r t now) in
      let at = now + or_else delay 0 in
      let after = schedule_script r l q.depth k payload at false q.max_queue_size in
      let scheduled : (counters : Counters)
          → Holds r (changed r q (is_bulk t) after.0.0 after.0.1 counters) 0 0 =
        λ counters.
          Holds-changed r q (is_bulk t) after.0.0 after.0.1 counters 0 0 0 0 h
            (omega (arith, schedule_script-work r laws l q.depth k payload at q.max_queue_size))
            (schedule_script-IsPaired r laws l q.depth k payload at q.max_queue_size false p)
            (schedule_script-room r laws l q.depth k payload at q.max_queue_size false h.bounded) in
      elim (Bool-cases (not q.command_ready)) [
        | inl e ↦ rw e h
        | inr e ↦ elim (Option-cases after.1) [
          | inl f ↦ rw (e, f) (scheduled q.counters)
          | inr (already, f) ↦
              rw (e, f)
                (scheduled
                  (record q.counters { delayed_scheduled = suc q.counters.delayed_scheduled }))
        ]
      ]

  -- A new retry that is to take over the slot of its entry is one piece of work too many until that
  -- entry is acknowledged; a retry that was scheduled already is not.
  pub schedule_retry-kept :
      (encode : Task → Text) (q : Queue r) (t : Task) (random : String) (delay : Option ℕ) (now : ℕ)
      → Holds r q 0 0
      → q.command_ready ≡ true
      → Holds r
          (schedule_retry r encode q t random delay now true).0
          (one_if (
            not
              (is_some (r.zscore (lane r q (is_bulk t)).retry (retry_token t (is_bulk t) random)))))
          0
  unfolding schedule_retry with_lane
  schedule_retry-kept encode q t random delay now h ready =
      let l = lane r q (is_bulk t) in
      let k = retry_token t (is_bulk t) random in
      let payload = encode (next_try r t now) in
      let at = now + or_else delay 0 in
      let after = schedule_script r l q.depth k payload at true q.max_queue_size in
      let kept = schedule_script-kept r laws l q.depth k payload at q.max_queue_size in
      let lane_now : after.0.0 ≡ put_retry r l k payload at = ap (λ x. x.0.0) kept in
      let depth_now : after.0.1 ≡ q.depth = ap (λ x. x.0.1) kept in
      let open_now : not q.command_ready ≡ false = ap not ready in
      let answer : after.1 ≡ some (is_some (r.zscore l.retry k)) = ap (λ x. x.1) kept in
      rw (open_now, answer)
        (Holds-changed r q (is_bulk t) after.0.0 after.0.1
          (record q.counters { delayed_scheduled = suc q.counters.delayed_scheduled }) 0 0
          (one_if (not (is_some (r.zscore l.retry k)))) 0 h
          (omega (
            arith,
            ap (work r) lane_now,
            ap r.count depth_now,
            work-put_retry r laws l k payload at,
          ))
          (subst (IsPaired r) (sym lane_now)
            (put_retry-IsPaired r laws l k payload at (lane-IsPaired r q (is_bulk t) 0 0 h)))
          (subst (λ d. r.count d ≤ q.max_queue_size) (sym depth_now) h.bounded))
