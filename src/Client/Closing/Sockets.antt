-- ===== src/Client/Closing/Sockets.antt =====
-- The connection of a closed client.
use node_red_contrib_pod_gat.Prelude.{
  ℕ, ◌≡◌, refl, sym, subst, ◌∙◌, false, not, ◌||◌, Option, none, List, [], ◌∷◌, string_eq,
  Bool-cases, Option-cases, inl, inr, if◌then◌else◌,
}
use node_red_contrib_pod_gat.Gateway.Types.{Failure}
use node_red_contrib_pod_gat.Client.Types.{
  Client, Attempt, connected, disconnected, Incoming, refused,
}
use node_red_contrib_pod_gat.Client.Calls.{
  attempt_of, find_attempt, send_raw, reject_calls, reject_aliases, all_aliases, reject_pending,
}
use node_red_contrib_pod_gat.Client.Messages.{emit}
use node_red_contrib_pod_gat.Client.Connection.{
  same_phase, set_state, close_socket, connect, heartbeat_fires, settle_attempt, on_hello_ack,
  on_hello_error, each_attempt, attempt_times_out, connect_timer_fires, socket_opens, attempt_ends,
  attempt_closes, socket_closes, reconnect_fires, start_heartbeat, stop_heartbeat, lost_failure,
  timeout_of,
}
use node_red_contrib_pod_gat.Client.Closing.{
  door, Shut, door-set_state, door-close_socket, door-schedule_reconnect, door-if,
}

-- The connection.
pub door-connect :
    (c : Client) (thrown : Option Failure) → Shut (door c) → door (connect c thrown).0 ≡ door c
unfolding connect
door-connect c thrown s = rw s.closing refl

pub door-reconnect_fires :
    (c : Client) (thrown : Option Failure)
    → Shut (door c)
    → door (reconnect_fires c thrown) ≡ door c
unfolding reconnect_fires
door-reconnect_fires c thrown s = rw s.reconnect_timer refl

pub door-heartbeat_fires : (c : Client) → Shut (door c) → door (heartbeat_fires c) ≡ door c
unfolding heartbeat_fires send_raw attempt_of
door-heartbeat_fires c s = elim (Bool-cases c.heartbeat_timer) [
  | inl e ↦ rw (s.ws, e) refl
  | inr e ↦ rw e refl
]

pub door-socket_opens : (c : Client) (n : ℕ) → Shut (door c) → door (socket_opens c n) ≡ door c
unfolding socket_opens send_raw attempt_of
door-socket_opens c n s = rw s.ws refl

pub door-on_hello_ack :
    (m : Incoming) (c : Client) (a : Attempt) → door (on_hello_ack c m a) ≡ door c
unfolding on_hello_ack settle_attempt start_heartbeat emit
door-on_hello_ack m c a =
    door-if (not a.on_ack || a.settled) c c _ refl (door-set_state _ connected)

pub door-on_hello_error :
    (m : Incoming) (c : Client) (a : Attempt) → door (on_hello_error c m a) ≡ door c
unfolding on_hello_error settle_attempt
door-on_hello_error m c a =
    door-if (not a.on_error || a.settled) c c _ refl
      (door-set_state _ disconnected ∙ door-close_socket _)

pub door-each_attempt :
    (f : Client → Attempt → Client)
    → ((c : Client) (a : Attempt) → door (f c a) ≡ door c)
    → (c : Client) (xs : List Attempt) → door (each_attempt f c xs) ≡ door c
unfolding each_attempt
door-each_attempt f h c [] = refl
door-each_attempt f h c (a ∷ xs) = door-each_attempt f h (f c a) xs ∙ h c a

pub door-attempt_times_out :
    (c : Client) (a : Attempt) → Shut (door c) → door (attempt_times_out c a) ≡ door c
unfolding attempt_times_out settle_attempt
door-attempt_times_out c a s =
    let done : Client = record (close_socket (settle_attempt c a.serial (refused timeout_of))) {
      connect_promise = none;
    } in
    let same = door-set_state done disconnected ∙ door-close_socket _ in
    door-if (not a.timer || a.settled) c c _ refl
      (door-schedule_reconnect (set_state done disconnected) (subst Shut (sym same) s) ∙ same)

pub door-connect_timer_fires :
    (c : Client) (n : ℕ) → Shut (door c) → door (connect_timer_fires c n) ≡ door c
unfolding connect_timer_fires
door-connect_timer_fires c n s = elim (Option-cases (find_attempt n c.attempts)) [
  | inl e ↦ rw (e, connect_timer_fires) refl
  | inr (a, e) ↦ rw (e, connect_timer_fires) (door-attempt_times_out c a s)
]

-- With nothing pending there is nothing to reject.
pub door-reject_pending :
    (c : Client) (e : Failure) → Shut (door c) → door (reject_pending c e) ≡ door c
unfolding reject_pending reject_calls reject_aliases all_aliases
door-reject_pending c e s = rw (s.pending, s.aliases) refl

pub door-attempt_ends :
    (c : Client) (a : Attempt) → Shut (door c) → door (attempt_ends c a) ≡ door c
unfolding attempt_ends stop_heartbeat
door-attempt_ends c a s =
    let idle : Client =
      set_state (record c { heartbeat_timer = false; ws = none; connect_promise = none })
        disconnected in
    door-if a.settled idle idle _ refl refl ∙ door-set_state _ disconnected ∙ rw s.ws refl

pub door-attempt_closes :
    (c : Client) (a : Attempt) → Shut (door c) → door (attempt_closes c a) ≡ door c
unfolding attempt_closes
door-attempt_closes c a s =
    let d : Client = attempt_ends c a in
    let t = subst Shut (sym (door-attempt_ends c a s)) s in
    let f : Client = if same_phase c.phase connected then reject_pending d lost_failure else d in
    let same =
      door-if (same_phase c.phase connected) d (reject_pending d lost_failure) d
        (door-reject_pending d lost_failure t) refl in
    door-schedule_reconnect f (subst Shut (sym same) t) ∙ same ∙ door-attempt_ends c a s

pub door-socket_closes : (c : Client) (n : ℕ) → Shut (door c) → door (socket_closes c n) ≡ door c
unfolding socket_closes
door-socket_closes c n s = elim (Option-cases (find_attempt n c.attempts)) [
  | inl e ↦ rw (e, socket_closes) refl
  | inr (a, e) ↦ rw (e, socket_closes) (door-attempt_closes c a s)
]
