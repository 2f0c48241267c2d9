-- ===== src/Client/Closing.antt =====
-- What a closed client is, and what its calls and timers do.
pub mod Sockets
pub mod Run
use node_red_contrib_pod_gat.Prelude.{
  ℕ, suc, ◌≡◌, refl, sym, subst, ap, ◌∙◌, Bool, true, false, not, ◌&&◌, ◌||◌, Option, none, some,
  List, [], ◌∷◌, String, string_eq, ◌==◌, arith, eqb, Bool-cases, Option-cases, inl, inr,
  if◌then◌else◌, or_else,
}
use node_red_contrib_pod_gat.Map.{Map, get, set, delete, values}
use node_red_contrib_pod_gat.Gateway.Types.{Failure, truthy}
use node_red_contrib_pod_gat.Client.Types.{
  Client, Call, Alarm, Attempt, Phase, connecting, connected, disconnected, closed, Outcome, Frame,
  Received, invalid, message, Incoming, Handshake, refused,
}
use node_red_contrib_pod_gat.Client.Calls.{
  is_settled, settle, clear_timer, clear_accept_timer, opened, attempt_of, find_attempt, send_raw,
  call, find_alarm, timed_out, timer_fires, accept_late, accept_timed_out, accept_timer_fires,
  reject_calls, reject_aliases, all_aliases, reject_pending,
}
use node_red_contrib_pod_gat.Client.Messages.{emit, is_kind, other_message, answer}
use node_red_contrib_pod_gat.Client.Connection.{
  same_phase, set_state, schedule_reconnect, close_socket, begin_attempt, connect, heartbeat_fires,
  settle_attempt, on_hello_ack, on_hello_error, each_attempt, attempt_times_out,
  connect_timer_fires, socket_opens, attempt_ends, attempt_closes, socket_closes, reconnect_fires,
  close, start_heartbeat, stop_heartbeat, lost_failure, closed_failure, timeout_of,
}
use node_red_contrib_pod_gat.Client.Steps.{
  Event, connects, closes, sends, requests, receives, opens, socket_closed, socket_fails,
  connect_timer, call_timer, accept_timer, reconnect_timer, heartbeat_timer, step, run,
  handle_incoming, handle_message,
}

-- What connects the client to the gateway and to its callers.
pub record Door : Type 0 where
  pub closing : Bool
  pub ws : Option ℕ
  pub reconnect_timer : Bool
  pub pending : Map String Call
  pub aliases : Map String (List Call)
  pub next_call : ℕ
  pub next_attempt : ℕ
  pub frames : List Frame

abbrev pub door : Client → Door
door c = record {
  closing = c.closing;
  ws = c.ws;
  reconnect_timer = c.reconnect_timer;
  pending = c.pending;
  aliases = c.aliases;
  next_call = c.next_call;
  next_attempt = c.next_attempt;
  frames = c.frames;
}

-- Closed for good, with nothing under way.
pub record Shut (d : Door) : Type 0 where
  pub closing : d.closing ≡ true
  pub ws : d.ws ≡ none
  pub reconnect_timer : d.reconnect_timer ≡ false
  pub pending : d.pending ≡ []
  pub aliases : d.aliases ≡ []

pub door-set_state : (c : Client) (p : Phase) → door (set_state c p) ≡ door c
unfolding set_state emit
door-set_state c p = elim (Bool-cases (same_phase c.phase p)) [
  | inl e ↦ rw (e, set_state) refl
  | inr e ↦ rw (e, set_state) refl
]

pub door-settle : (c : Client) (n : ℕ) (o : Outcome) → door (settle c n o) ≡ door c
unfolding settle
door-settle c n o = elim (Bool-cases (is_settled n c.outcomes)) [
  | inl e ↦ rw (e, settle) refl
  | inr e ↦ rw (e, settle) refl
]

pub door-close_socket : (c : Client) → door (close_socket c) ≡ door c
unfolding close_socket
door-close_socket c = ground arith

pub door-schedule_reconnect : (c : Client) → Shut (door c) → door (schedule_reconnect c) ≡ door c
unfolding schedule_reconnect
door-schedule_reconnect c s = rw s.closing refl

pub door-if :
    (b : Bool) (c d f : Client)
    → door d ≡ door c
    → door f ≡ door c
    → door (if b then d else f) ≡ door c
door-if true c d f k l = k
door-if false c d f k l = l

-- The calls and the timers.
pub door-call : (c : Client) (id : String) (w : Bool) → Shut (door c) → door (call c id w) ≡ door c
unfolding call attempt_of
door-call c id w s = rw s.ws refl

pub door-timer_fires : (c : Client) (n : ℕ) → Shut (door c) → door (timer_fires c n) ≡ door c
unfolding timer_fires timed_out clear_timer delete
door-timer_fires c n s = elim (Option-cases (find_alarm n c.timers)) [
  | inl e ↦ rw (e, timer_fires) refl
  | inr (a, e) ↦ rw (e, timer_fires) (door-settle _ a.call _ ∙ rw s.pending refl)
]

pub door-accept_timer_fires :
    (c : Client) (n : ℕ) → Shut (door c) → door (accept_timer_fires c n) ≡ door c
unfolding accept_timer_fires accept_timed_out clear_accept_timer accept_late get
door-accept_timer_fires c n s = elim (Option-cases (find_alarm n c.accept_timers)) [
  | inl e ↦ rw (e, accept_timer_fires) refl
  | inr (a, e) ↦ rw (e, accept_timer_fires, s.pending) refl
]
