-- ===== src/Client/Answering/Final.antt =====
-- What a caller sees of an answer and of a lost connection.
use node_red_contrib_pod_gat.Prelude.{
  ℕ, suc, ◌≡◌, refl, sym, subst, ap, ◌∙◌, Bool, Bool-cases, true, false, ◌||◌, none, some, List, [],
  ◌∷◌, String, string_eq, ◌==◌, arith, eq_iff, ◌⊎◌, All-map, inl, inr, if◌then◌else◌, or_else, All,
}
use node_red_contrib_pod_gat.Map.{get, delete, values, get-delete}
use node_red_contrib_pod_gat.Gateway.Types.{Failure, truthy}
use node_red_contrib_pod_gat.Client.Types.{Client, Call, Incoming, connected, disconnected, Attempt}
use node_red_contrib_pod_gat.Client.Calls.{
  is_settled, settle, disarm, clear_timer, clear_accept_timer, find_attempt, reject_calls,
  all_aliases, reject_pending,
}
use node_red_contrib_pod_gat.Client.Messages.{
  emit, is_kind, is_success, can_settle, outcome_of, alias_outcome, settle_aliases, finish_call,
  answer_call, answer,
}
use node_red_contrib_pod_gat.Client.Connection.{
  schedule_reconnect, stop_heartbeat, same_phase, attempt_ends, attempt_closes, socket_closes,
  lost_failure,
}
use node_red_contrib_pod_gat.Client.Steps.{handle_incoming}
use node_red_contrib_pod_gat.Client.Settling.{settle_settled, is_armed, disarm_armed}
use node_red_contrib_pod_gat.Client.Settling.Connections.{book-attempt_ends}
use node_red_contrib_pod_gat.Client.Answering.{
  outcome_for, IsSettledIn, outcome_for-settle, settle-keeps, settle_aliases-settles,
  reject_aliases-keeps, reject_calls-settles, reject_aliases-settles,
}
use node_red_contrib_pod_gat.Client.Closing.{door, door-settle, door-set_state}

outcome_for-settle_aliases :
    (m : Incoming) (id : String) (n : ℕ) (ps : List Call) (c : Client)
    → is_settled n c.outcomes ≡ true
    → outcome_for n (settle_aliases c m id ps).outcomes ≡ outcome_for n c.outcomes
unfolding settle_aliases clear_timer
outcome_for-settle_aliases m id n [] c h = refl
outcome_for-settle_aliases m id n (p ∷ ps) c h =
    let freed : Client = clear_timer c p.serial in
    let done : Client = settle freed p.serial (alias_outcome m id p) in
    outcome_for-settle_aliases m id n ps done (settle-keeps freed p.serial n _ h)
    ∙ rw (outcome_for-settle freed p.serial n (alias_outcome m id p), h) refl

door-settle_aliases :
    (m : Incoming) (id : String) (ps : List Call) (c : Client)
    → door (settle_aliases c m id ps) ≡ door c
unfolding settle_aliases clear_timer
door-settle_aliases m id [] c = refl
door-settle_aliases m id (p ∷ ps) c =
    door-settle_aliases m id ps (settle (clear_timer c p.serial) p.serial (alias_outcome m id p))
    ∙ door-settle (clear_timer c p.serial) p.serial (alias_outcome m id p)

-- What an answer for the pending call `p` does.
pub record Finished (c : Client) (m : Incoming) (id : String) (p : Call) (d : Client) : Type 0 where
  pub outcome : outcome_for p.serial d.outcomes ≡ some (outcome_of m)
  pub aliases_settled : All (IsSettledIn d) (or_else (get c.aliases id) [])
  pub not_pending : get d.pending id ≡ none
  pub no_aliases : get d.aliases id ≡ none

finish_call-Finished :
    (c : Client) (m : Incoming) (id : String) (p : Call)
    → can_settle m p ≡ true
    → is_settled p.serial c.outcomes ≡ false
    → Finished c m id p (finish_call c m id p)
unfolding finish_call clear_timer clear_accept_timer emit
finish_call-Finished c m id p able fresh =
    let ps = or_else (get c.aliases id) [] in
    let taken : Client = record c {
      timers = disarm p.serial c.timers;
      accept_timers = disarm p.serial c.accept_timers;
      pending = delete c.pending id;
      aliases = delete c.aliases id;
    } in
    let settled : Client = settle taken p.serial (outcome_of m) in
    let same = door-settle_aliases m id ps settled ∙ door-settle taken p.serial (outcome_of m) in
    rw (able, finish_call)
      (record {
        outcome =
            outcome_for-settle_aliases m id p.serial ps settled
              (rw (settle_settled taken p.serial p.serial (outcome_of m)) (ground arith))
            ∙ rw (outcome_for-settle taken p.serial p.serial (outcome_of m), fresh) (ground arith);
        aliases_settled = settle_aliases-settles m id ps settled;
        not_pending =
            ap (λ d. get d.pending id) same
            ∙ rw (get-delete c.pending id id) (ground (arith, eq_iff id id));
        no_aliases =
            ap (λ d. get d.aliases id) same
            ∙ rw (get-delete c.aliases id id) (ground (arith, eq_iff id id));
      })

-- A result or a failure is handed to the call that it names.
answering :
    (c : Client) (m : Incoming) (id : String) (p : Call)
    → m.kind ≡ some "result" ⊎ m.kind ≡ some "failed"
    → truthy m.request_id ≡ some id
    → get c.pending id ≡ some p
    → handle_incoming c m ≡ finish_call c m id p
unfolding handle_incoming answer answer_call
answering c m id p kind n e =
    let (other, mine) = kinds kind in
    rw
      (
        other "hello_ack" refl refl,
        other "hello_error" refl refl,
        other "capabilities" refl refl,
        other "heartbeat" refl refl,
        n,
      )
      (found ∙ rw (other "accepted" refl refl, mine) refl)
  where
    kinds :
        m.kind ≡ some "result" ⊎ m.kind ≡ some "failed"
        → ((s : String) → ("result" == s) ≡ false → ("failed" == s) ≡ false → is_kind s m ≡ false)
          × ((is_kind "result" m || is_kind "failed" m) ≡ true)
    kinds (inl k) = (λ s a b. rw (k, a) refl, rw k refl)
    kinds (inr k) = (λ s a b. rw (k, b) refl, rw k refl)

    found : answer c m (some id) ≡ answer_call c m id p
    found = rw (e, answer) refl

-- What an ok result for a pending `send` does: an error that nobody catches, and a promise that nothing
-- is going to settle.
pub record Broken (c : Client) (id : String) (p : Call) (d : Client) : Type 0 where
  pub thrown : d.uncaught ≡ suc c.uncaught
  pub not_settled : is_settled p.serial d.outcomes ≡ false
  pub not_armed : is_armed p.serial d.timers ≡ false
  pub not_pending : get d.pending id ≡ none
  pub no_aliases : get d.aliases id ≡ none

finish_call-Broken :
    (c : Client) (m : Incoming) (id : String) (p : Call)
    → can_settle m p ≡ false
    → is_settled p.serial c.outcomes ≡ false
    → Broken c id p (finish_call c m id p)
unfolding finish_call clear_timer clear_accept_timer
finish_call-Broken c m id p unable fresh =
    rw (unable, finish_call)
      (record {
        thrown = refl;
        not_settled = fresh;
        not_armed = rw (disarm_armed p.serial p.serial c.timers) (ground arith);
        not_pending = rw (get-delete c.pending id id) (ground (arith, eq_iff id id));
        no_aliases = rw (get-delete c.aliases id id) (ground (arith, eq_iff id id));
      })

-- The call is one of `request`, or the message reports no success.
abbrev pub Fits : Incoming → Call → Type 0
Fits m p = p.waits_for_result ≡ true ⊎ is_success m ≡ false

finish_call-either :
    (c : Client) (m : Incoming) (id : String) (p : Call)
    → is_settled p.serial c.outcomes ≡ false
    → (Fits m p × Finished c m id p (finish_call c m id p))
      ⊎ ((p.waits_for_result ≡ false)
          × (is_success m ≡ true)
          × Broken c id p (finish_call c m id p))
finish_call-either c m id p fresh = elim (Bool-cases p.waits_for_result) [
  | inl w ↦ inl (inl w, finish_call-Finished c m id p (rw w refl) fresh)
  | inr w ↦ elim (Bool-cases (is_success m)) [
    | inr f ↦ inl (inr f, finish_call-Finished c m id p (rw (w, f) refl) fresh)
    | inl f ↦ inr (w, f, finish_call-Broken c m id p (rw (w, f) refl) fresh)
  ]
]

-- A `result` or `failed` message names a pending call whose promise is not settled. If the call is one of
-- `request`, or the message reports no success, the promise is settled by the outcome of that message, all
-- promises of the call's aliases are settled, and neither the call nor an alias of it is kept. If the call
-- is one of `send` and the message reports a success, an error is thrown that nobody catches: the promise
-- is not settled then, its timer is not armed, and neither the call nor an alias of it is kept.
pub handle_incoming-Finished :
    (c : Client) (m : Incoming) (id : String) (p : Call)
    → m.kind ≡ some "result" ⊎ m.kind ≡ some "failed"
    → truthy m.request_id ≡ some id
    → get c.pending id ≡ some p
    → is_settled p.serial c.outcomes ≡ false
    → (let d = handle_incoming c m in
        (Fits m p × Finished c m id p d)
        ⊎ ((p.waits_for_result ≡ false) × (is_success m ≡ true) × Broken c id p d))
handle_incoming-Finished c m id p k n e fresh =
    rw (answering c m id p k n e) (finish_call-either c m id p fresh)

-- Nothing that was pending is forgotten.
pub record Abandoned (c d : Client) : Type 0 where
  pub calls : All (IsSettledIn d) (values c.pending)
  pub aliased : All (IsSettledIn d) (all_aliases (values c.aliases))
  pub pending : d.pending ≡ []
  pub aliases : d.aliases ≡ []

reject_pending-Abandoned : (c : Client) (e : Failure) → Abandoned c (reject_pending c e)
unfolding reject_pending
reject_pending-Abandoned c e =
    let calls = values c.pending in
    let aliased = all_aliases (values c.aliases) in
    let k : Client = reject_calls c calls e in
    record {
      calls =
          All-map (IsSettledIn k) _ calls (λ p. reject_aliases-keeps e p.serial aliased k)
            (reject_calls-settles e calls c);
      aliased = reject_aliases-settles e aliased k;
      pending = refl;
      aliases = refl;
    }

-- Scheduling a reconnect changes none of that.
scheduled-Abandoned :
    (c d : Client) (b : Bool)
    → Abandoned c d
    → Abandoned c (if b then d else record d { reconnect_timer = true })
scheduled-Abandoned c d true h = h
scheduled-Abandoned c d false h = record {
  calls = h.calls;
  aliased = h.aliased;
  pending = h.pending;
  aliases = h.aliases;
}

-- The same calls and aliases are abandoned.
Abandoned-from :
    (c k d : Client) → k.pending ≡ c.pending → k.aliases ≡ c.aliases → Abandoned k d → Abandoned c d
Abandoned-from c k d e f h = record {
  calls = subst (λ m. All (IsSettledIn d) (values m)) e h.calls;
  aliased = subst (λ m. All (IsSettledIn d) (all_aliases (values m))) f h.aliased;
  pending = h.pending;
  aliases = h.aliases;
}

aliases-attempt_ends : (c : Client) (a : Attempt) → (attempt_ends c a).aliases ≡ c.aliases
unfolding attempt_ends stop_heartbeat
aliases-attempt_ends c a =
    let idle : Client = record c { heartbeat_timer = false; ws = none; connect_promise = none } in
    told a.settled _ _ refl ∙ ap (λ d. d.aliases) (door-set_state idle disconnected)
  where
    told :
        (b : Bool) (x y : Client) → x.aliases ≡ y.aliases → (if b then x else y).aliases ≡ x.aliases
    told true x y e = refl
    told false x y e = sym e

-- When the socket of an attempt closes while the client is connected, all promises of pending calls and
-- of their aliases are settled, and no call or alias is kept.
pub socket_closes-Abandoned :
    (c : Client) (n : ℕ) (a : Attempt)
    → find_attempt n c.attempts ≡ some a
    → c.phase ≡ connected
    → Abandoned c (socket_closes c n)
unfolding socket_closes attempt_closes schedule_reconnect
socket_closes-Abandoned c n a e k =
    let ended = attempt_ends c a in
    let lost : same_phase c.phase connected ≡ true = rw (k, same_phase) refl in
    rw (e, socket_closes, attempt_closes, lost)
      (scheduled-Abandoned c (reject_pending ended lost_failure) _ (
        Abandoned-from c ended _ (ap (λ b. b.pending) (book-attempt_ends c a))
          (aliases-attempt_ends c a) (reject_pending-Abandoned ended lost_failure)))
