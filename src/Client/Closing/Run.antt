-- ===== src/Client/Closing/Run.antt =====
-- A closed client over a whole run.
use node_red_contrib_pod_gat.Prelude.{
  ◌≡◌, refl, sym, subst, ap, ◌∙◌, true, false, ◌||◌, Option, none, some, List, [], ◌∷◌, String,
  string_eq,
}
use node_red_contrib_pod_gat.Map.{get, values}
use node_red_contrib_pod_gat.Gateway.Types.{Failure, truthy}
use node_red_contrib_pod_gat.Client.Types.{
  Client, Call, closed, Received, invalid, message, Incoming,
}
use node_red_contrib_pod_gat.Client.Calls.{
  clear_timer, clear_accept_timer, reject_calls, reject_aliases, all_aliases, reject_pending,
}
use node_red_contrib_pod_gat.Client.Messages.{emit, is_kind, other_message, answer}
use node_red_contrib_pod_gat.Client.Connection.{
  close_socket, on_hello_ack, on_hello_error, close, stop_heartbeat, closed_failure,
}
use node_red_contrib_pod_gat.Client.Steps.{
  Event, connects, closes, sends, requests, receives, opens, socket_closed, socket_fails,
  connect_timer, call_timer, accept_timer, reconnect_timer, heartbeat_timer, step, run,
  handle_incoming, handle_message,
}
use node_red_contrib_pod_gat.Client.Closing.{
  Door, door, Shut, door-set_state, door-settle, door-close_socket, door-if, door-call,
  door-timer_fires, door-accept_timer_fires,
}
use node_red_contrib_pod_gat.Client.Closing.Sockets.{
  door-connect, door-reconnect_fires, door-heartbeat_fires, door-socket_opens, door-on_hello_ack,
  door-on_hello_error, door-each_attempt, door-connect_timer_fires, door-socket_closes,
}

door-reject_calls :
    (e : Failure) (ps : List Call) (c : Client) → door (reject_calls c ps e) ≡ door c
unfolding reject_calls clear_timer clear_accept_timer
door-reject_calls e [] c = refl
door-reject_calls e (p ∷ ps) c = door-reject_calls e ps _ ∙ door-settle _ p.serial _

door-reject_aliases :
    (e : Failure) (ps : List Call) (c : Client) → door (reject_aliases c ps e) ≡ door c
unfolding reject_aliases clear_timer
door-reject_aliases e [] c = refl
door-reject_aliases e (p ∷ ps) c = door-reject_aliases e ps _ ∙ door-settle _ p.serial _

-- What is left of the connection by `close`.
abbrev shut : Door → Door
shut d = record d { closing = true; ws = none; reconnect_timer = false; pending = []; aliases = [] }

abbrev no_socket : Door → Door
no_socket d = record d { ws = none }

abbrev shut_calls : Door → Door
shut_calls d = record d { ws = none; pending = []; aliases = [] }

shut-close : (c : Client) → door (close c) ≡ shut (door c)
unfolding close stop_heartbeat reject_pending
shut-close c =
    let d : Client = record c {
      closing = true;
      reconnect_timer = false;
      heartbeat_timer = false;
    } in
    let k : Client = reject_calls d (values c.pending) closed_failure in
    let l : Client = reject_aliases k (all_aliases (values c.aliases)) closed_failure in
    let idle : Client = record l { pending = []; aliases = [] } in
    door-set_state (record (close_socket idle) { ws = none }) closed
    ∙ ap no_socket (door-close_socket idle)
    ∙ ap shut_calls (
        door-reject_aliases closed_failure (all_aliases (values c.aliases)) k
        ∙ door-reject_calls closed_failure (values c.pending) d)

Shut-close : (c : Client) → Shut (door (close c))
Shut-close c =
    rw (shut-close c)
      (record { closing = refl; ws = refl; reconnect_timer = refl; pending = refl; aliases = refl })

door-close : (c : Client) → Shut (door c) → door (close c) ≡ door c
door-close c s = shut-close c ∙ rw (s.closing, s.ws, s.reconnect_timer, s.pending, s.aliases) refl

-- No message is an answer any more.
door-answer :
    (c : Client) (m : Incoming) (o : Option String) → Shut (door c) → door (answer c m o) ≡ door c
unfolding answer other_message emit get
door-answer c m none s =
    door-if (is_kind "event" m || is_kind "result" m || is_kind "failed" m) c _ c refl refl
door-answer c m (some id) s =
    let nobody : get c.pending id ≡ none = rw s.pending refl in
    rw (nobody, answer)
      (door-if (is_kind "event" m || is_kind "result" m || is_kind "failed" m) c _ c refl refl)

door-handle_message :
    (c : Client) (r : Received) → Shut (door c) → door (handle_message c r) ≡ door c
unfolding handle_message handle_incoming emit
door-handle_message c invalid s = refl
door-handle_message c (message m) s =
    door-if (is_kind "hello_ack" m) c _ _
      (door-each_attempt (λ d a. on_hello_ack d m a) (door-on_hello_ack m) c c.attempts)
      (door-if (is_kind "hello_error" m) c _ _
        (door-each_attempt (λ d a. on_hello_error d m a) (door-on_hello_error m) c c.attempts)
        (door-if (is_kind "capabilities" m) c _ _ refl
          (door-if (is_kind "heartbeat" m) c _ _ refl (door-answer c m (truthy m.request_id) s))))

door-step : (c : Client) (e : Event) → Shut (door c) → door (step c e) ≡ door c
unfolding step emit
door-step c (connects thrown) s = door-connect c thrown s
door-step c closes s = door-close c s
door-step c (sends id) s = door-call c id false s
door-step c (requests id) s = door-call c id true s
door-step c (receives r) s = door-handle_message c r s
door-step c (opens n) s = door-socket_opens c n s
door-step c (socket_closed n) s = door-socket_closes c n s
door-step c (socket_fails e) s = refl
door-step c (connect_timer n) s = door-connect_timer_fires c n s
door-step c (call_timer n) s = door-timer_fires c n s
door-step c (accept_timer n) s = door-accept_timer_fires c n s
door-step c (reconnect_timer thrown) s = door-reconnect_fires c thrown s
door-step c heartbeat_timer s = door-heartbeat_fires c s

door-run : (c : Client) (es : List Event) → Shut (door c) → door (run c es) ≡ door c
unfolding run
door-run c [] s = refl
door-run c (e ∷ es) s =
    door-run (step c e) es (subst Shut (sym (door-step c e s)) s) ∙ door-step c e s

-- After `close`, whatever the callers, the sockets, the timers and the gateway do: the client has no
-- socket and no reconnect timer, keeps no call or alias pending, issues no call, starts no attempt to
-- connect and sends no frame.
pub run-close :
    (c : Client) (es : List Event)
    → Shut (door (run (close c) es))
      × ((run (close c) es).next_call ≡ c.next_call)
      × ((run (close c) es).next_attempt ≡ c.next_attempt)
      × ((run (close c) es).frames ≡ c.frames)
run-close c es =
    let same = door-run (close c) es (Shut-close c) ∙ shut-close c in
    (
      subst Shut (sym (door-run (close c) es (Shut-close c))) (Shut-close c),
      ap (λ d. d.next_call) same,
      ap (λ d. d.next_attempt) same,
      ap (λ d. d.frames) same,
    )
