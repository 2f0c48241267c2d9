-- ===== src/Client/Calls.antt =====
-- The promises of the calls: `send` and `request` behind their `await`, the timers of a call, and
-- `_rejectPending`.
use node_red_contrib_pod_gat.Prelude.{
  ℕ, suc, Bool, true, false, ◌||◌, Option, none, some, List, [], ◌∷◌, String, string_eq, codes, eqb,
  if◌then◌else◌,
}
use node_red_contrib_pod_gat.Map.{get, set, delete, values}
use node_red_contrib_pod_gat.Gateway.Types.{Failure}
use node_red_contrib_pod_gat.Gateway.Send.{failure_of}
use node_red_contrib_pod_gat.Client.Types.{
  Client, Call, Outcome, rejected, Alarm, Attempt, Frame, envelope,
}

unfoldable pub is_settled : ℕ → List (ℕ × Outcome) → Bool
is_settled n [] = false
is_settled n ((m, o) ∷ rest) = eqb m n || is_settled n rest

-- `resolve` or `reject` of a promise: only the first one counts.
unfoldable pub settle : Client → ℕ → Outcome → Client
settle c n o = if is_settled n c.outcomes then c else record c { outcomes = (n, o) ∷ c.outcomes }

unfoldable pub disarm : ℕ → List Alarm → List Alarm
disarm n [] = []
disarm n (a ∷ rest) = let kept = disarm n rest in if eqb a.call n then kept else a ∷ kept

-- `clearTimeout(pending.timer)` and `clearTimeout(pending.acceptedTimer)`
unfoldable pub clear_timer : Client → ℕ → Client
clear_timer c n = record c { timers = disarm n c.timers }

unfoldable pub clear_accept_timer : Client → ℕ → Client
clear_accept_timer c n = record c { accept_timers = disarm n c.accept_timers }

unfoldable pub find_attempt : ℕ → List Attempt → Option Attempt
find_attempt n [] = none
find_attempt n (a ∷ rest) = if eqb a.serial n then some a else find_attempt n rest

unfoldable pub attempt_of : Client → Option ℕ → Option Attempt
attempt_of c none = none
attempt_of c (some n) = find_attempt n c.attempts

abbrev pub opened : Option Attempt → Bool
opened none = false
opened (some a) = a.is_open

-- `_sendRaw`: the client after it, and whether it did not throw.
unfoldable pub send_raw : Client → Frame → Client × Bool
send_raw c f =
    if opened (attempt_of c c.ws) then (record c { frames = f ∷ c.frames }, true) else (c, false)

unfoldable pub not_connected : Failure
not_connected = failure_of "GATEWAY_NOT_CONNECTED" (codes "Gateway is not connected") true

-- The new promise: its timers are armed and it is entered into `pending`.
unfoldable pub enter : Client → String → Bool → Client
enter c id waits =
    let alarm : Alarm = record { call = c.next_call; request_id = id; waits_for_result = waits } in
    record c {
      timers = alarm ∷ c.timers;
      accept_timers = if waits then alarm ∷ c.accept_timers else c.accept_timers;
      pending = set c.pending id (record {
        serial = c.next_call;
        request_id = id;
        waits_for_result = waits;
        accepted = false;
      });
      next_call = suc c.next_call;
    }

-- An error that `_sendRaw` throws in the promise's executor rejects the promise.
unfoldable pub reject_unsent : Client × Bool → ℕ → Client
reject_unsent (c, sent) n = if sent then c else settle c n (rejected not_connected)

-- `send`, and `request` where `waits`, behind `await this.connect()`. With no open socket they throw.
unfoldable pub call : Client → String → Bool → Client
call c id waits =
    if opened (attempt_of c c.ws)
    then reject_unsent (send_raw (enter c id waits) (envelope id)) c.next_call
    else c

unfoldable pub was_accepted : Option Call → Bool
was_accepted none = false
was_accepted (some p) = p.accepted

unfoldable pub timeout_failure : Bool → Bool → Failure
timeout_failure false accepted =
    failure_of "GATEWAY_ACCEPT_TIMEOUT" (codes "Gateway did not accept the message in time") true
timeout_failure true true =
    failure_of "GATEWAY_RESULT_TIMEOUT"
      (codes "Gateway accepted the call but did not return a result") true
timeout_failure true false =
    failure_of "DEADLINE_EXCEEDED" (codes "Gateway call deadline exceeded") true

unfoldable pub find_alarm : ℕ → List Alarm → Option Alarm
find_alarm n [] = none
find_alarm n (a ∷ rest) = if eqb a.call n then some a else find_alarm n rest

-- The callback of a call's `timer`.
unfoldable pub timed_out : Client → Alarm → Client
timed_out c a =
    let late = was_accepted (get c.pending a.request_id) in
    settle (record (clear_timer c a.call) { pending = delete c.pending a.request_id }) a.call
      (rejected (timeout_failure a.waits_for_result late))

unfoldable pub timer_fires : Client → ℕ → Client
timer_fires c n = elim (find_alarm n c.timers) [ none ↦ c | some a ↦ timed_out c a ]

unfoldable pub accept_failure : Failure
accept_failure =
    failure_of "GATEWAY_ACCEPT_TIMEOUT" (codes "Gateway did not accept the call in time") true

unfoldable pub accept_late : Client → Alarm → Option Call → Client
accept_late c a none = c
accept_late c a (some p) =
    if p.accepted
    then c
    else settle (record (clear_timer c p.serial) { pending = delete c.pending a.request_id }) a.call
        (rejected accept_failure)

-- The callback of a call's `acceptedTimer`.
unfoldable pub accept_timed_out : Client → Alarm → Client
accept_timed_out c a = accept_late (clear_accept_timer c a.call) a (get c.pending a.request_id)

unfoldable pub accept_timer_fires : Client → ℕ → Client
accept_timer_fires c n = elim (find_alarm n c.accept_timers) [
  | none ↦ c
  | some a ↦ accept_timed_out c a
]

unfoldable pub reject_calls : Client → List Call → Failure → Client
reject_calls c [] e = c
reject_calls c (p ∷ rest) e =
    reject_calls
      (settle (clear_accept_timer (clear_timer c p.serial) p.serial) p.serial (rejected e)) rest e

unfoldable pub reject_aliases : Client → List Call → Failure → Client
reject_aliases c [] e = c
reject_aliases c (p ∷ rest) e =
    reject_aliases (settle (clear_timer c p.serial) p.serial (rejected e)) rest e

unfoldable pub all_aliases : List (List Call) → List Call
all_aliases [] = []
all_aliases ([] ∷ rest) = all_aliases rest
all_aliases ((p ∷ ps) ∷ rest) = p ∷ all_aliases (ps ∷ rest)

-- `_rejectPending`
unfoldable pub reject_pending : Client → Failure → Client
reject_pending c e =
    let rejected_calls = reject_calls c (values c.pending) e in
    let all_rejected = reject_aliases rejected_calls (all_aliases (values c.aliases)) e in
    record all_rejected { pending = []; aliases = [] }
