-- ===== src/Client/Answering.antt =====
-- The promises that an answer and a lost connection are about.
pub mod Final
use node_red_contrib_pod_gat.Prelude.{
  ℕ, ◌≡◌, ◌≢◌, refl, sym, subst, ap, ◌∙◌, Bool, true, false, not, ◌&&◌, ◌||◌, Option, none, some,
  List, [], ◌∷◌, String, string_eq, ◌==◌, arith, eqb, Bool-cases, Option-cases, inl, inr,
  if◌then◌else◌, or_else, All, is_some,
}
use node_red_contrib_pod_gat.Map.{Map, get, delete, values, get-delete}
use node_red_contrib_pod_gat.Gateway.Types.{Failure, truthy}
use node_red_contrib_pod_gat.Client.Types.{
  Client, Call, Incoming, Outcome, rejected, connected, Attempt,
}
use node_red_contrib_pod_gat.Client.Calls.{
  is_settled, settle, disarm, clear_timer, clear_accept_timer, find_attempt, reject_calls,
  reject_aliases, all_aliases, reject_pending,
}
use node_red_contrib_pod_gat.Client.Messages.{
  emit, is_kind, outcome_of, alias_outcome, settle_aliases, finish_call, answer_call, answer,
}
use node_red_contrib_pod_gat.Client.Connection.{
  schedule_reconnect, same_phase, attempt_ends, attempt_closes, socket_closes, lost_failure,
}
use node_red_contrib_pod_gat.Client.Steps.{handle_incoming}
use node_red_contrib_pod_gat.Client.Settling.{settle_settled, is_armed, disarm_armed, book}
use node_red_contrib_pod_gat.Client.Settling.Connections.{
  book-schedule_reconnect, book-attempt_ends,
}

-- How a promise was settled.
unfoldable pub outcome_for : ℕ → List (ℕ × Outcome) → Option Outcome
outcome_for n [] = none
outcome_for n ((m, o) ∷ rest) = if eqb m n then some o else outcome_for n rest

abbrev pub IsSettledIn : Client → Call → Type 0
IsSettledIn c p = is_settled p.serial c.outcomes ≡ true

pub settled-outcome_for :
    (n : ℕ) (xs : List (ℕ × Outcome)) → is_settled n xs ≡ is_some (outcome_for n xs)
unfolding is_settled outcome_for
settled-outcome_for n [] = refl
settled-outcome_for n ((m, o) ∷ xs) = ground (arith, settled-outcome_for n xs)

-- A promise that is settled stays as it is; another one is settled now.
pub outcome_for-settle :
    (c : Client) (n m : ℕ) (o : Outcome)
    → outcome_for m (settle c n o).outcomes
      ≡ (if not (is_settled m c.outcomes) && eqb n m then some o else outcome_for m c.outcomes)
unfolding settle outcome_for
outcome_for-settle c n m o = elim (Bool-cases (is_settled n c.outcomes)) [
  | inl e ↦ rw (e, settle) (ground (arith, e))
  | inr e ↦ rw (e, settle) (ground (arith, e))
]

pub settle-now : (c : Client) (n : ℕ) (o : Outcome) → is_settled n (settle c n o).outcomes ≡ true
settle-now c n o = rw (settle_settled c n n o) (ground arith)

pub settle-keeps :
    (c : Client) (n m : ℕ) (o : Outcome)
    → is_settled m c.outcomes ≡ true
    → is_settled m (settle c n o).outcomes ≡ true
settle-keeps c n m o h = rw (settle_settled c n m o, h) refl

pub settle_aliases-keeps :
    (m : Incoming) (id : String) (n : ℕ) (ps : List Call) (c : Client)
    → is_settled n c.outcomes ≡ true
    → is_settled n (settle_aliases c m id ps).outcomes ≡ true
unfolding settle_aliases clear_timer
settle_aliases-keeps m id n [] c h = h
settle_aliases-keeps m id n (p ∷ ps) c h =
    settle_aliases-keeps m id n ps _ (settle-keeps _ p.serial n (alias_outcome m id p) h)

pub settle_aliases-settles :
    (m : Incoming) (id : String) (ps : List Call) (c : Client)
    → All (IsSettledIn (settle_aliases c m id ps)) ps
unfolding settle_aliases clear_timer
settle_aliases-settles m id [] c = tt
settle_aliases-settles m id (p ∷ ps) c =
    let done : Client = settle (clear_timer c p.serial) p.serial (alias_outcome m id p) in
    (
      settle_aliases-keeps m id p.serial ps done (settle-now (clear_timer c p.serial) p.serial _),
      settle_aliases-settles m id ps done,
    )

pub reject_calls-keeps :
    (e : Failure) (n : ℕ) (ps : List Call) (c : Client)
    → is_settled n c.outcomes ≡ true
    → is_settled n (reject_calls c ps e).outcomes ≡ true
unfolding reject_calls clear_timer clear_accept_timer
reject_calls-keeps e n [] c h = h
reject_calls-keeps e n (p ∷ ps) c h =
    reject_calls-keeps e n ps _ (settle-keeps _ p.serial n (rejected e) h)

pub reject_aliases-keeps :
    (e : Failure) (n : ℕ) (ps : List Call) (c : Client)
    → is_settled n c.outcomes ≡ true
    → is_settled n (reject_aliases c ps e).outcomes ≡ true
unfolding reject_aliases clear_timer
reject_aliases-keeps e n [] c h = h
reject_aliases-keeps e n (p ∷ ps) c h =
    reject_aliases-keeps e n ps _ (settle-keeps _ p.serial n (rejected e) h)

pub reject_calls-settles :
    (e : Failure) (ps : List Call) (c : Client) → All (IsSettledIn (reject_calls c ps e)) ps
unfolding reject_calls clear_timer clear_accept_timer
reject_calls-settles e [] c = tt
reject_calls-settles e (p ∷ ps) c =
    let freed : Client = clear_accept_timer (clear_timer c p.serial) p.serial in
    let done : Client = settle freed p.serial (rejected e) in
    (
      reject_calls-keeps e p.serial ps done (settle-now freed p.serial _),
      reject_calls-settles e ps done,
    )

pub reject_aliases-settles :
    (e : Failure) (ps : List Call) (c : Client) → All (IsSettledIn (reject_aliases c ps e)) ps
unfolding reject_aliases clear_timer
reject_aliases-settles e [] c = tt
reject_aliases-settles e (p ∷ ps) c =
    let freed : Client = clear_timer c p.serial in
    let done : Client = settle freed p.serial (rejected e) in
    (
      reject_aliases-keeps e p.serial ps done (settle-now freed p.serial _),
      reject_aliases-settles e ps done,
    )
