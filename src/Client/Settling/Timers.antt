-- ===== src/Client/Settling/Timers.antt =====
-- The timers of a call and `_rejectPending` keep every promise covered.
use node_red_contrib_pod_gat.Prelude.{
  ℕ, ◌≡◌, refl, subst, ap, Option, none, some, List, [], ◌∷◌, String, string_eq, eqb, All,
  Bool-cases, Option-cases, inl, inr,
}
use node_red_contrib_pod_gat.Map.{Map, get, delete, values}
use node_red_contrib_pod_gat.Gateway.Types.{Failure}
use node_red_contrib_pod_gat.Client.Types.{Client, Call, Outcome, Alarm}
use node_red_contrib_pod_gat.Client.Calls.{
  settle, disarm, clear_timer, clear_accept_timer, find_alarm, reject_calls, reject_aliases,
  reject_pending, all_aliases, timed_out, accept_late, accept_timed_out, timer_fires,
  accept_timer_fires,
}
use node_red_contrib_pod_gat.Client.Settling.{
  Keeps, Keeps-refl, Keeps-trans, book, settle-Keeps, Below-refl, Below-delete, Below-nil,
  All-disarm,
}

timed_out-Keeps : (c : Client) (a : Alarm) → Keeps (book c) (book (timed_out c a))
unfolding timed_out clear_timer
timed_out-Keeps c a =
    settle-Keeps (book c)
      (record c { timers = disarm a.call c.timers; pending = delete c.pending a.request_id }) a.call
      _ refl refl refl (Below-delete c.pending a.request_id) (λ P h. h)

pub timer_fires-Keeps : (c : Client) (n : ℕ) → Keeps (book c) (book (timer_fires c n))
unfolding timer_fires
timer_fires-Keeps c n = elim (Option-cases (find_alarm n c.timers)) [
  | inl e ↦ rw (e, timer_fires) (Keeps-refl (book c))
  | inr (a, e) ↦ rw (e, timer_fires) (timed_out-Keeps c a)
]

-- The pending call that an accept timer finds is its own.
abbrev pub Owned : Map String Call → Alarm → Type 0
Owned m a = (p : Call) → get m a.request_id ≡ some p → p.serial ≡ a.call

accept_late-Keeps :
    (c : Client) (a : Alarm) (o : Option Call)
    → ((p : Call) → o ≡ some p → p.serial ≡ a.call)
    → Keeps (book c) (book (accept_late c a o))
unfolding accept_late clear_timer
accept_late-Keeps c a none own = Keeps-refl (book c)
accept_late-Keeps c a (some p) own = elim (Bool-cases p.accepted) [
  | inl e ↦ rw (e, accept_late) (Keeps-refl (book c))
  | inr e ↦
      rw (e, accept_late)
        (settle-Keeps (book c)
          (record c { timers = disarm p.serial c.timers; pending = delete c.pending a.request_id })
          a.call _ refl (ap (λ n. disarm n c.timers) (own p refl)) refl
          (Below-delete c.pending a.request_id) (λ P h. h))
]

accept_timed_out-Keeps :
    (c : Client) (a : Alarm) → Owned c.pending a → Keeps (book c) (book (accept_timed_out c a))
unfolding accept_timed_out clear_accept_timer
accept_timed_out-Keeps c a own =
    let c1 : Client = record c { accept_timers = disarm a.call c.accept_timers } in
    Keeps-trans (book c) (book c1) (book (accept_late c1 a (get c.pending a.request_id)))
      (record {
        covers = λ n h. h;
        next = refl;
        below = Below-refl c.pending;
        alarms = λ P h. All-disarm P a.call c.accept_timers h;
      })
      (accept_late-Keeps c1 a (get c.pending a.request_id) own)

find_alarm-All :
    (P : Alarm → Type 0) (n : ℕ) (xs : List Alarm) (a : Alarm)
    → All P xs
    → find_alarm n xs ≡ some a
    → P a
unfolding find_alarm
find_alarm-All P n [] a h e = absurd (cc e)
find_alarm-All P n (x ∷ xs) a h e = elim (Bool-cases (eqb x.call n)) [
  | inl k ↦ subst P (some-injective x a (rw k at e)) h.0
  | inr k ↦ find_alarm-All P n xs a h.1 (rw k at e)
]
  where
    some-injective : (x y : Alarm) → some x ≡ some y → x ≡ y
    some-injective x y e = cc e

pub accept_timer_fires-Keeps :
    (c : Client) (n : ℕ)
    → All (Owned c.pending) c.accept_timers
    → Keeps (book c) (book (accept_timer_fires c n))
unfolding accept_timer_fires
accept_timer_fires-Keeps c n own = elim (Option-cases (find_alarm n c.accept_timers)) [
  | inl e ↦ rw (e, accept_timer_fires) (Keeps-refl (book c))
  | inr (a, e) ↦
      rw (e, accept_timer_fires)
        (accept_timed_out-Keeps c a (find_alarm-All (Owned c.pending) n c.accept_timers a own e))
]

reject_calls-Keeps :
    (c : Client) (ps : List Call) (e : Failure) → Keeps (book c) (book (reject_calls c ps e))
unfolding reject_calls clear_timer clear_accept_timer
reject_calls-Keeps c [] e = Keeps-refl (book c)
reject_calls-Keeps c (p ∷ ps) e =
    let c1 : Client = record c {
      timers = disarm p.serial c.timers;
      accept_timers = disarm p.serial c.accept_timers;
    } in
    let c2 : Client = settle c1 p.serial (Outcome.rejected e) in
    Keeps-trans (book c) (book c2) (book (reject_calls c2 ps e))
      (settle-Keeps (book c) c1 p.serial (Outcome.rejected e) refl refl refl (Below-refl c.pending)
        (λ P h. All-disarm P p.serial c.accept_timers h))
      (reject_calls-Keeps c2 ps e)

reject_aliases-Keeps :
    (c : Client) (ps : List Call) (e : Failure) → Keeps (book c) (book (reject_aliases c ps e))
unfolding reject_aliases clear_timer
reject_aliases-Keeps c [] e = Keeps-refl (book c)
reject_aliases-Keeps c (p ∷ ps) e =
    let c1 : Client = record c { timers = disarm p.serial c.timers } in
    let c2 : Client = settle c1 p.serial (Outcome.rejected e) in
    Keeps-trans (book c) (book c2) (book (reject_aliases c2 ps e))
      (settle-Keeps (book c) c1 p.serial (Outcome.rejected e) refl refl refl (Below-refl c.pending)
        (λ P h. h))
      (reject_aliases-Keeps c2 ps e)

pub reject_pending-Keeps : (c : Client) (e : Failure) → Keeps (book c) (book (reject_pending c e))
unfolding reject_pending
reject_pending-Keeps c e =
    let c1 : Client = reject_calls c (values c.pending) e in
    let c2 : Client = reject_aliases c1 (all_aliases (values c.aliases)) e in
    Keeps-trans (book c) (book c2) (record (book c2) { pending = [] })
      (Keeps-trans (book c) (book c1) (book c2) (reject_calls-Keeps c (values c.pending) e)
        (reject_aliases-Keeps c1 (all_aliases (values c.aliases)) e))
      (record { covers = λ n h. h; next = refl; below = Below-nil c2.pending; alarms = λ P h. h })
