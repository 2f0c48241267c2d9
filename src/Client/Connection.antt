-- ===== src/Client/Connection.antt =====
-- `connect` with the handlers of its socket and its listeners, `close`, the heartbeat timer and the
-- reconnects. An attempt's socket is open from its `open` event until it closes or is closed.
use node_red_contrib_pod_gat.Prelude.{
  ℕ, suc, Bool, true, false, not, ◌&&◌, ◌||◌, Option, none, some, List, [], ◌∷◌, ◌++◌, string_eq,
  codes, eqb, or_else, if◌then◌else◌,
}
use node_red_contrib_pod_gat.Gateway.Types.{Failure}
use node_red_contrib_pod_gat.Gateway.Send.{failure_of}
use node_red_contrib_pod_gat.Client.Types.{
  Client, Phase, disconnected, connecting, connected, closed, Attempt, Incoming, state_changed,
  capabilities_listed, Handshake, acknowledged, refused, Frame,
}
use node_red_contrib_pod_gat.Client.Calls.{
  opened, attempt_of, find_attempt, send_raw, reject_pending,
}
use node_red_contrib_pod_gat.Client.Messages.{emit, text_or, code_of, message_of}

abbrev pub same_phase : Phase → Phase → Bool
same_phase disconnected disconnected = true
same_phase connecting connecting = true
same_phase connected connected = true
same_phase closed closed = true
same_phase _ _ = false

-- `_setState`
unfoldable pub set_state : Client → Phase → Client
set_state c p = if same_phase c.phase p then c else emit (record c { phase = p }) (state_changed p)

-- `_scheduleReconnect`
unfoldable pub schedule_reconnect : Client → Client
schedule_reconnect c =
    if c.closing || c.auth_failed || c.reconnect_timer
    then c
    else record c { reconnect_timer = true }

unfoldable pub change_attempt : ℕ → (Attempt → Attempt) → List Attempt → List Attempt
change_attempt n f [] = []
change_attempt n f (a ∷ rest) =
    let changed = change_attempt n f rest in if eqb a.serial n then f a ∷ rest else a ∷ changed

abbrev pub change : Client → ℕ → (Attempt → Attempt) → Client
change c n f = record c { attempts = change_attempt n f c.attempts }

-- `ws.close()` or `ws.terminate()` of `this.ws`
unfoldable pub close_socket : Client → Client
close_socket c = elim c.ws [ none ↦ c | some n ↦ change c n (λ a. record a { is_open = false }) ]

abbrev pub unlisten : Attempt → Attempt
unlisten a = record a { settled = true; timer = false; on_ack = false; on_error = false }

-- What the promise of `connect` is: settled at once, or that of an attempt.
pub data Connecting : Type 0 where
  ready : Connecting
  denied : Failure → Connecting
  waits : ℕ → Connecting

-- A new attempt. Where `new WebSocket` throws, the promise that the executor has rejected is still
-- assigned to `connectPromise` behind it.
unfoldable pub begin_attempt : Client → Option Failure → Client × Connecting
begin_attempt c none =
    let n = c.next_attempt in
    let started = set_state c connecting in
    (
      record started {
        attempts =
            started.attempts
            ++ record {
              serial = n;
              is_open = false;
              settled = false;
              timer = true;
              on_ack = true;
              on_error = true;
            }
              ∷ [];
        ws = some n;
        connect_promise = some n;
        next_attempt = suc n;
      },
      waits n,
    )
begin_attempt c (some e) =
    let n = c.next_attempt in
    let dropped = record (set_state c connecting) {
      connect_promise = none;
      next_attempt = suc n;
    } in
    let ended = schedule_reconnect (set_state dropped disconnected) in
    (
      record ended { connect_promise = some n; handshakes = (n, refused e) ∷ ended.handshakes },
      waits n,
    )

unfoldable pub connect : Client → Option Failure → Client × Connecting
connect c thrown =
    if c.closing
    then (c, denied (failure_of "GATEWAY_CLOSED" (codes "Gateway client is closed") false))
    else if same_phase c.phase connected && opened (attempt_of c c.ws)
    then (c, ready)
    else elim c.connect_promise [
      | some n ↦ (c, waits n)
      | none ↦ if c.has_url then begin_attempt c thrown else (
        c,
        denied (failure_of "GATEWAY_URL_MISSING" (codes "Gateway URL is not configured") false),
      )
    ]

-- `_startHeartbeat` and `_stopHeartbeat`
unfoldable pub start_heartbeat : Client → Client
start_heartbeat c = record c { heartbeat_timer = true }

unfoldable pub stop_heartbeat : Client → Client
stop_heartbeat c = record c { heartbeat_timer = false }

-- The interval's callback.
unfoldable pub heartbeat_fires : Client → Client
heartbeat_fires c =
    if c.heartbeat_timer && opened (attempt_of c c.ws) then (send_raw c Frame.heartbeat).0 else c

unfoldable pub settle_attempt : Client → ℕ → Handshake → Client
settle_attempt c n h = record (change c n unlisten) { handshakes = (n, h) ∷ c.handshakes }

-- The listener of one attempt for `hello_ack`.
unfoldable pub on_hello_ack : Client → Incoming → Attempt → Client
on_hello_ack c m a =
    if not a.on_ack || a.settled
    then c
    else let done = record (settle_attempt c a.serial acknowledged) {
      connect_promise = none;
      auth_failed = false;
    } in
      emit (record (start_heartbeat (set_state done connected)) { capabilities = m.capabilities })
        (capabilities_listed m.capabilities)

unfoldable pub hello_failure : Incoming → Failure
hello_failure m =
    failure_of (or_else (code_of m.problem) "GATEWAY_AUTH_FAILED")
      (text_or (message_of m.problem) (codes "Gateway handshake failed")) false

-- The listener of one attempt for `hello_error`.
unfoldable pub on_hello_error : Client → Incoming → Attempt → Client
on_hello_error c m a =
    if not a.on_error || a.settled
    then c
    else let done = record (settle_attempt c a.serial (refused (hello_failure m))) {
      connect_promise = none;
      auth_failed = true;
    } in
      set_state (close_socket done) disconnected

-- `this.emit` calls the listeners that are registered when it is called.
unfoldable pub each_attempt : (Client → Attempt → Client) → Client → List Attempt → Client
each_attempt f c [] = c
each_attempt f c (a ∷ rest) = each_attempt f (f c a) rest

unfoldable pub timeout_of : Failure
timeout_of = failure_of "GATEWAY_CONNECT_TIMEOUT" (codes "Gateway connection timed out") true

unfoldable pub attempt_times_out : Client → Attempt → Client
attempt_times_out c a =
    if not a.timer || a.settled
    then c
    else let done = record (close_socket (settle_attempt c a.serial (refused timeout_of))) {
      connect_promise = none;
    } in
      schedule_reconnect (set_state done disconnected)

-- The callback of the timer of an attempt.
unfoldable pub connect_timer_fires : Client → ℕ → Client
connect_timer_fires c n = elim (find_attempt n c.attempts) [
  | none ↦ c
  | some a ↦ attempt_times_out c a
]

-- The `open` event of an attempt's socket. `_sendRaw` throws if `this.ws` is not open, and nobody
-- catches that.
unfoldable pub socket_opens : Client → ℕ → Client
socket_opens c n =
    let up = change c n (λ a. record a { is_open = true }) in
    let (greeted, sent) = send_raw up Frame.hello in
    if sent then greeted else record up { uncaught = suc up.uncaught }

unfoldable pub lost_failure : Failure
lost_failure = failure_of "GATEWAY_CONNECTION_LOST" (codes "Gateway connection lost") true

unfoldable pub early_failure : Failure
early_failure =
    failure_of "GATEWAY_CONNECTION_LOST" (codes "Gateway connection closed during handshake") true

-- The end of an attempt's socket: its promise is rejected if it is open still.
unfoldable pub attempt_ends : Client → Attempt → Client
attempt_ends c a =
    let idle =
      set_state (record (stop_heartbeat c) { ws = none; connect_promise = none }) disconnected in
    let told =
      if a.settled
      then idle
      else record idle { handshakes = (a.serial, refused early_failure) ∷ idle.handshakes } in
    change told a.serial (λ x. record (unlisten x) { is_open = false })

unfoldable pub attempt_closes : Client → Attempt → Client
attempt_closes c a =
    let ended = attempt_ends c a in
    schedule_reconnect
      (if same_phase c.phase connected then reject_pending ended lost_failure else ended)

-- The `close` event of an attempt's socket.
unfoldable pub socket_closes : Client → ℕ → Client
socket_closes c n = elim (find_attempt n c.attempts) [ none ↦ c | some a ↦ attempt_closes c a ]

-- The callback of the reconnect timer.
unfoldable pub reconnect_fires : Client → Option Failure → Client
reconnect_fires c thrown =
    if c.reconnect_timer then (connect (record c { reconnect_timer = false }) thrown).0 else c

unfoldable pub closed_failure : Failure
closed_failure = failure_of "GATEWAY_CLOSED" (codes "Gateway client closed") false

-- `close`
unfoldable pub close : Client → Client
close c =
    let marked = record c { closing = true; reconnect_timer = false } in
    let idle = reject_pending (stop_heartbeat marked) closed_failure in
    set_state (record (close_socket idle) { ws = none }) closed
