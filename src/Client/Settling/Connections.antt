-- ===== src/Client/Settling/Connections.antt =====
-- What the connection, its loss and `close` do to the promises.
use node_red_contrib_pod_gat.Prelude.{
  ℕ, suc, ◌≡◌, refl, ◌∙◌, Bool, true, false, not, ◌||◌, Option, none, some, List, [], ◌∷◌, arith,
  Bool-cases, Option-cases, inl, inr, if◌then◌else◌, subst, sym,
}
use node_red_contrib_pod_gat.Gateway.Types.{Failure}
use node_red_contrib_pod_gat.Client.Types.{
  Client, Phase, disconnected, connecting, connected, closed, Attempt, Incoming, Frame, refused,
}
use node_red_contrib_pod_gat.Client.Calls.{find_attempt, send_raw, reject_pending}
use node_red_contrib_pod_gat.Client.Messages.{emit}
use node_red_contrib_pod_gat.Client.Connection.{
  same_phase, set_state, schedule_reconnect, close_socket, begin_attempt, connect, heartbeat_fires,
  settle_attempt, on_hello_ack, on_hello_error, each_attempt, attempt_times_out,
  connect_timer_fires, socket_opens, attempt_closes, socket_closes, reconnect_fires, close,
  start_heartbeat, stop_heartbeat, lost_failure, closed_failure, early_failure, attempt_ends,
}
use node_red_contrib_pod_gat.Client.Settling.{Keeps, Keeps-refl, book}
use node_red_contrib_pod_gat.Client.Settling.Timers.{reject_pending-Keeps}

book-set_state : (c : Client) (p : Phase) → book (set_state c p) ≡ book c
unfolding set_state emit
book-set_state c p = elim (Bool-cases (same_phase c.phase p)) [
  | inl e ↦ rw (e, set_state) refl
  | inr e ↦ rw (e, set_state) refl
]

pub book-schedule_reconnect : (c : Client) → book (schedule_reconnect c) ≡ book c
unfolding schedule_reconnect
book-schedule_reconnect c = ground arith

book-close_socket : (c : Client) → book (close_socket c) ≡ book c
unfolding close_socket
book-close_socket c = ground arith

pub book-send_raw : (c : Client) (f : Frame) → book (send_raw c f).0 ≡ book c
unfolding send_raw
book-send_raw c f = ground arith

pub book-begin_attempt :
    (c : Client) (thrown : Option Failure) → book (begin_attempt c thrown).0 ≡ book c
unfolding begin_attempt
book-begin_attempt c none = book-set_state c connecting
book-begin_attempt c (some e) =
    let c1 : Client = record (set_state c connecting) {
      connect_promise = none;
      next_attempt = suc c.next_attempt;
    } in
    book-schedule_reconnect (set_state c1 disconnected)
    ∙ book-set_state c1 disconnected
    ∙ book-set_state c connecting

pub book-if :
    (b : Bool) (c d f : Client)
    → book d ≡ book c
    → book f ≡ book c
    → book (if b then d else f) ≡ book c
book-if true c d f k l = k
book-if false c d f k l = l

pub book-connect : (c : Client) (thrown : Option Failure) → book (connect c thrown).0 ≡ book c
unfolding connect
book-connect c thrown = ground (arith, book-begin_attempt c thrown)

pub book-heartbeat_fires : (c : Client) → book (heartbeat_fires c) ≡ book c
unfolding heartbeat_fires
book-heartbeat_fires c =
    book-if _ c (send_raw c Frame.heartbeat).0 c (book-send_raw c Frame.heartbeat) refl

pub book-on_hello_ack :
    (m : Incoming) (c : Client) (a : Attempt) → book (on_hello_ack c m a) ≡ book c
unfolding on_hello_ack settle_attempt start_heartbeat emit
book-on_hello_ack m c a =
    book-if (not a.on_ack || a.settled) c c _ refl (book-set_state _ connected)

pub book-on_hello_error :
    (m : Incoming) (c : Client) (a : Attempt) → book (on_hello_error c m a) ≡ book c
unfolding on_hello_error settle_attempt
book-on_hello_error m c a =
    book-if (not a.on_error || a.settled) c c _ refl
      (book-set_state _ disconnected ∙ book-close_socket _)

pub book-each_attempt :
    (f : Client → Attempt → Client)
    → ((c : Client) (a : Attempt) → book (f c a) ≡ book c)
    → (c : Client) (xs : List Attempt) → book (each_attempt f c xs) ≡ book c
unfolding each_attempt
book-each_attempt f h c [] = refl
book-each_attempt f h c (a ∷ xs) = book-each_attempt f h (f c a) xs ∙ h c a

book-attempt_times_out : (c : Client) (a : Attempt) → book (attempt_times_out c a) ≡ book c
unfolding attempt_times_out settle_attempt
book-attempt_times_out c a =
    book-if (not a.timer || a.settled) c c _ refl
      (book-schedule_reconnect _ ∙ book-set_state _ disconnected ∙ book-close_socket _)

pub book-connect_timer_fires : (c : Client) (n : ℕ) → book (connect_timer_fires c n) ≡ book c
unfolding connect_timer_fires
book-connect_timer_fires c n = elim (Option-cases (find_attempt n c.attempts)) [
  | inl e ↦ rw (e, connect_timer_fires) refl
  | inr (a, e) ↦ rw (e, connect_timer_fires) (book-attempt_times_out c a)
]

pub book-socket_opens : (c : Client) (n : ℕ) → book (socket_opens c n) ≡ book c
unfolding socket_opens
book-socket_opens c n = book-if _ c _ _ (book-send_raw _ Frame.hello) refl

pub book-reconnect_fires :
    (c : Client) (thrown : Option Failure) → book (reconnect_fires c thrown) ≡ book c
unfolding reconnect_fires
book-reconnect_fires c thrown =
    book-if c.reconnect_timer c _ c (book-connect (record c { reconnect_timer = false }) thrown)
      refl

-- A step that leaves the book alone keeps it.
pub same-Keeps : (c d : Client) → book d ≡ book c → Keeps (book c) (book d)
same-Keeps c d e = subst (Keeps (book c)) (sym e) (Keeps-refl (book c))

pub book-attempt_ends : (c : Client) (a : Attempt) → book (attempt_ends c a) ≡ book c
unfolding attempt_ends stop_heartbeat
book-attempt_ends c a =
    let idle : Client =
      set_state (record c { heartbeat_timer = false; ws = none; connect_promise = none })
        disconnected in
    let told : Client = record idle {
      handshakes = (a.serial, refused early_failure) ∷ idle.handshakes;
    } in
    book-if a.settled idle idle told refl refl
    ∙ book-set_state (record c { heartbeat_timer = false; ws = none; connect_promise = none })
        disconnected

-- The pending calls are rejected behind steps that leave the book alone.
rejecting-Keeps :
    (c d f : Client) (e : Failure)
    → book d ≡ book c
    → book f ≡ book (reject_pending d e)
    → Keeps (book c) (book f)
rejecting-Keeps c d f e k l =
    subst (λ b. Keeps b (book f)) k (subst (Keeps (book d)) (sym l) (reject_pending-Keeps d e))

attempt_closes-Keeps : (c : Client) (a : Attempt) → Keeps (book c) (book (attempt_closes c a))
unfolding attempt_closes
attempt_closes-Keeps c a = elim (Bool-cases (same_phase c.phase connected)) [
  | inl e ↦
      rw (e, attempt_closes)
        (rejecting-Keeps c (attempt_ends c a)
          (schedule_reconnect (reject_pending (attempt_ends c a) lost_failure)) lost_failure
          (book-attempt_ends c a)
          (book-schedule_reconnect (reject_pending (attempt_ends c a) lost_failure)))
  | inr e ↦
      rw (e, attempt_closes)
        (same-Keeps c (schedule_reconnect (attempt_ends c a))
          (book-schedule_reconnect (attempt_ends c a) ∙ book-attempt_ends c a))
]

pub socket_closes-Keeps : (c : Client) (n : ℕ) → Keeps (book c) (book (socket_closes c n))
unfolding socket_closes
socket_closes-Keeps c n = elim (Option-cases (find_attempt n c.attempts)) [
  | inl e ↦ rw (e, socket_closes) (Keeps-refl (book c))
  | inr (a, e) ↦ rw (e, socket_closes) (attempt_closes-Keeps c a)
]

pub close-Keeps : (c : Client) → Keeps (book c) (book (close c))
unfolding close stop_heartbeat
close-Keeps c =
    let d : Client = record c {
      closing = true;
      reconnect_timer = false;
      heartbeat_timer = false;
    } in
    rejecting-Keeps c d (close c) closed_failure refl (
      book-set_state (record (close_socket (reject_pending d closed_failure)) { ws = none }) closed
      ∙ book-close_socket (reject_pending d closed_failure))
