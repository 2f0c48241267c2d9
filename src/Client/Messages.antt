-- ===== src/Client/Messages.antt =====
-- `_handleMessage` behind the handshake: what an answer of the gateway does to the calls.
use node_red_contrib_pod_gat.Prelude.{
  ℕ, suc, Bool, true, false, not, ◌&&◌, ◌||◌, Option, none, some, List, [], ◌∷◌, ◌++◌, String, Text,
  string_eq, ◌==◌, codes, or_else, if◌then◌else◌,
}
use node_red_contrib_pod_gat.Map.{get, set, delete}
use node_red_contrib_pod_gat.Gateway.Types.{Failure, truthy}
use node_red_contrib_pod_gat.Client.Types.{
  Client, Call, Outcome, resolved, rejected, Incoming, Problem, Signal, accepted_received,
  result_received, message_received,
}
use node_red_contrib_pod_gat.Client.Calls.{settle, clear_timer, clear_accept_timer}

unfoldable pub emit : Client → Signal → Client
emit c s = record c { signals = s ∷ c.signals }

abbrev pub is_kind : String → Incoming → Bool
is_kind name m = elim m.kind [ none ↦ false | some kind ↦ kind == name ]

abbrev pub text_or : Option Text → Text → Text
text_or none d = d
text_or (some []) d = d
text_or (some (c ∷ s)) d = c ∷ s

abbrev pub code_of : Option Problem → Option String
code_of none = none
code_of (some p) = truthy p.code

abbrev pub message_of : Option Problem → Option Text
message_of none = none
message_of (some p) = p.message

abbrev retryable_of : Option Problem → Bool
retryable_of none = false
retryable_of (some p) = p.retryable

abbrev retry_after_of : Option Problem → Option ℕ
retry_after_of none = none
retry_after_of (some p) = p.retry_after_ms

abbrev details_of : Option Problem → Option (List Text)
details_of none = none
details_of (some p) = p.details

-- The error of an answer that reports a failure.
unfoldable pub failure_from : Incoming → Failure
failure_from m = record {
  code = or_else (code_of m.problem) "GATEWAY_REQUEST_FAILED";
  message = text_or (message_of m.problem) (codes "Gateway request failed");
  retryable = retryable_of m.problem;
  retry_after_ms = retry_after_of m.problem;
  details = details_of m.problem;
  status = m.status_code;
  response_body = m.body;
}

-- The answer is a result that is not an error.
unfoldable pub is_success : Incoming → Bool
is_success m = is_kind "result" m && m.is_ok

unfoldable pub outcome_of : Incoming → Outcome
outcome_of m = if is_success m then resolved m else rejected (failure_from m)

-- The outcome of an alias: a result carries the alias's own request ID.
unfoldable pub alias_outcome : Incoming → String → Call → Outcome
alias_outcome m id p =
    if is_success m
    then resolved (record m { request_id = some p.request_id; duplicate_of = some id })
    else rejected (failure_from m)

unfoldable pub settle_aliases : Client → Incoming → String → List Call → Client
settle_aliases c m id [] = c
settle_aliases c m id (p ∷ rest) =
    settle_aliases (settle (clear_timer c p.serial) p.serial (alias_outcome m id p)) m id rest

-- `pending.resolve(message)`: an entry of `send` has no `resolve`.
abbrev pub can_settle : Incoming → Call → Bool
can_settle m p = p.waits_for_result || not (is_success m)

-- An answer for a pending call. It and its aliases are forgotten and its timers cleared; then the call
-- and the aliases are settled, or `pending.resolve` throws a TypeError that nobody catches.
unfoldable pub finish_call : Client → Incoming → String → Call → Client
finish_call c m id p =
    let cleared = clear_accept_timer (clear_timer c p.serial) p.serial in
    let aliases = or_else (get c.aliases id) [] in
    let taken = record cleared { pending = delete c.pending id; aliases = delete c.aliases id } in
    if can_settle m p
    then emit (settle_aliases (settle taken p.serial (outcome_of m)) m id aliases)
        (result_received m)
    else record taken { uncaught = suc taken.uncaught }

-- A call whose original is another request waits among the aliases of that one.
unfoldable pub make_alias : Client → String → String → Call → Client
make_alias c id original p = record c {
  pending = delete c.pending id;
  aliases = set c.aliases original (or_else (get c.aliases original) [] ++ p ∷ []);
}

unfoldable pub mark_accepted : Client → Incoming → String → Call → Client
mark_accepted c m id p =
    let noted = record p { accepted = true } in
    let cleared = clear_accept_timer c p.serial in
    elim (truthy m.duplicate_of) [
      | none ↦ record cleared { pending = set c.pending id noted }
      | some original ↦ make_alias cleared id original noted
    ]

-- `accepted` for a pending call: `request` goes on waiting, `send` is done.
unfoldable pub accept_call : Client → Incoming → String → Call → Client
accept_call c m id p =
    let done =
      if p.waits_for_result
      then mark_accepted c m id p
      else settle (record (clear_timer c p.serial) { pending = delete c.pending id }) p.serial
          (resolved m) in
    emit done (accepted_received m)

unfoldable pub other_message : Client → Incoming → Client
other_message c m =
    if is_kind "event" m || is_kind "result" m || is_kind "failed" m
    then emit c (message_received m)
    else c

unfoldable pub answer_call : Client → Incoming → String → Call → Client
answer_call c m id p =
    if is_kind "accepted" m
    then accept_call c m id p
    else if is_kind "result" m || is_kind "failed" m
    then finish_call c m id p
    else other_message c m

-- An answer whose request ID names a pending call, or any other message.
unfoldable pub answer : Client → Incoming → Option String → Client
answer c m none = other_message c m
answer c m (some id) = elim (get c.pending id) [
  | none ↦ other_message c m
  | some p ↦ answer_call c m id p
]
