-- ===== src/Client/Settling/Answers.antt =====
-- What the gateway's answers do to the promises.
use node_red_contrib_pod_gat.Prelude.{
  ◌≡◌, refl, Bool, true, false, ◌||◌, Option, none, some, List, [], ◌∷◌, String, string_eq, ◌==◌,
  Bool-cases, Option-cases, inl, inr, if◌then◌else◌, or_else, eq_iff,
}
use node_red_contrib_pod_gat.Map.{Map, get, set, delete, get-set}
use node_red_contrib_pod_gat.Gateway.Types.{truthy}
use node_red_contrib_pod_gat.Client.Types.{Client, Call, Incoming, Outcome}
use node_red_contrib_pod_gat.Client.Calls.{settle, disarm, clear_timer, clear_accept_timer}
use node_red_contrib_pod_gat.Client.Messages.{
  emit, is_kind, can_settle, outcome_of, alias_outcome, settle_aliases, finish_call, make_alias,
  mark_accepted, accept_call, other_message, answer_call, answer,
}
use node_red_contrib_pod_gat.Client.Settling.{
  Keeps, Keeps-refl, Keeps-trans, book, settle-Keeps, Below, Below-refl, Below-delete, All-disarm,
}

pub Keeps-if :
    (c : Client) (b : Bool) (d f : Client)
    → Keeps (book c) (book d)
    → Keeps (book c) (book f)
    → Keeps (book c) (book (if b then d else f))
Keeps-if c true d f k l = k
Keeps-if c false d f k l = l

Below-set :
    (m : Map String Call) (id : String) (p q : Call)
    → get m id ≡ some p
    → p.serial ≡ q.serial
    → Below (set m id q) m
Below-set m id p q e s key r h = elim (Bool-cases (id == key)) [
  | inl k ↦
      let same : id ≡ key = (eq_iff id key).0 k in
      let found : some q ≡ some r = rw (get-set m id key q, k) at h in (p, rw (← same) e, cc)
  | inr k ↦ (r, rw (get-set m id key q, k) at h, refl)
]

settle_aliases-Keeps :
    (c : Client) (m : Incoming) (id : String) (ps : List Call)
    → Keeps (book c) (book (settle_aliases c m id ps))
unfolding settle_aliases clear_timer
settle_aliases-Keeps c m id [] = Keeps-refl (book c)
settle_aliases-Keeps c m id (p ∷ ps) =
    let c1 : Client = record c { timers = disarm p.serial c.timers } in
    let c2 : Client = settle c1 p.serial (alias_outcome m id p) in
    Keeps-trans (book c) (book c2) (book (settle_aliases c2 m id ps))
      (settle-Keeps (book c) c1 p.serial (alias_outcome m id p) refl refl refl
        (Below-refl c.pending) (λ P h. h))
      (settle_aliases-Keeps c2 m id ps)

finish_call-Keeps :
    (c : Client) (m : Incoming) (id : String) (p : Call)
    → can_settle m p ≡ true
    → Keeps (book c) (book (finish_call c m id p))
unfolding finish_call clear_timer clear_accept_timer emit
finish_call-Keeps c m id p able =
    let c1 : Client = record c {
      timers = disarm p.serial c.timers;
      accept_timers = disarm p.serial c.accept_timers;
      pending = delete c.pending id;
      aliases = delete c.aliases id;
    } in
    let c2 : Client = settle c1 p.serial (outcome_of m) in
    let ps = or_else (get c.aliases id) [] in
    rw (able, finish_call)
      (Keeps-trans (book c) (book c2) (book (settle_aliases c2 m id ps))
        (settle-Keeps (book c) c1 p.serial (outcome_of m) refl refl refl (Below-delete c.pending id)
          (λ P h. All-disarm P p.serial c.accept_timers h))
        (settle_aliases-Keeps c2 m id ps))

mark_accepted-Keeps :
    (c : Client) (m : Incoming) (id : String) (p : Call)
    → get c.pending id ≡ some p
    → Keeps (book c) (book (mark_accepted c m id p))
unfolding mark_accepted make_alias clear_accept_timer
mark_accepted-Keeps c m id p e = elim (Option-cases (truthy m.duplicate_of)) [
  | inl k ↦
      rw (k, mark_accepted)
        (record {
          covers = λ n h. h;
          next = refl;
          below = Below-set c.pending id p (record p { accepted = true }) e refl;
          alarms = λ P h. All-disarm P p.serial c.accept_timers h;
        })
  | inr (original, k) ↦
      rw (k, mark_accepted)
        (record {
          covers = λ n h. h;
          next = refl;
          below = Below-delete c.pending id;
          alarms = λ P h. All-disarm P p.serial c.accept_timers h;
        })
]

accept_call-Keeps :
    (c : Client) (m : Incoming) (id : String) (p : Call)
    → get c.pending id ≡ some p
    → Keeps (book c) (book (accept_call c m id p))
unfolding accept_call emit clear_timer
accept_call-Keeps c m id p e =
    Keeps-if c p.waits_for_result (mark_accepted c m id p)
      (settle (record (clear_timer c p.serial) { pending = delete c.pending id }) p.serial
        (Outcome.resolved m))
      (mark_accepted-Keeps c m id p e)
      (settle-Keeps (book c)
        (record c { timers = disarm p.serial c.timers; pending = delete c.pending id }) p.serial
        (Outcome.resolved m) refl refl refl (Below-delete c.pending id) (λ P h. h))

other_message-Keeps : (c : Client) (m : Incoming) → Keeps (book c) (book (other_message c m))
unfolding other_message emit
other_message-Keeps c m =
    Keeps-if c (is_kind "event" m || is_kind "result" m || is_kind "failed" m) _ c
      (Keeps-refl (book c)) (Keeps-refl (book c))

answer_call-Keeps :
    (c : Client) (m : Incoming) (id : String) (p : Call)
    → can_settle m p ≡ true
    → get c.pending id ≡ some p
    → Keeps (book c) (book (answer_call c m id p))
unfolding answer_call
answer_call-Keeps c m id p able e =
    Keeps-if c (is_kind "accepted" m) _ _ (accept_call-Keeps c m id p e) (
      Keeps-if c (is_kind "result" m || is_kind "failed" m) _ _ (finish_call-Keeps c m id p able)
        (other_message-Keeps c m))

-- The message is not an ok result for a pending `send`.
unfoldable pub IsSettling : Client → Incoming → Option String → Type 0
IsSettling c m none = Unit {0}
IsSettling c m (some id) = (p : Call) → get c.pending id ≡ some p → can_settle m p ≡ true

pub answer-Keeps :
    (c : Client) (m : Incoming) (o : Option String)
    → IsSettling c m o
    → Keeps (book c) (book (answer c m o))
unfolding answer IsSettling
answer-Keeps c m none s = other_message-Keeps c m
answer-Keeps c m (some id) s = elim (Option-cases (get c.pending id)) [
  | inl e ↦ rw (e, answer) (other_message-Keeps c m)
  | inr (p, e) ↦ rw (e, answer) (answer_call-Keeps c m id p (s p e) e)
]
