-- ===== src/Client/Waiting.antt =====
-- The promises over a whole run of the client.
use node_red_contrib_pod_gat.Prelude.{
  ℕ, ◌<◌, ◌≡◌, refl, sym, subst, ◌∙◌, Bool, true, false, some, List, [], ◌∷◌, String, string_eq,
  ◌==◌, arith, All, All-map, Bool-cases, inl, inr, if◌then◌else◌, eq_iff,
}
use node_red_contrib_pod_gat.Map.{Map, set, get-set}
use node_red_contrib_pod_gat.Gateway.Types.{truthy}
use node_red_contrib_pod_gat.Client.Types.{
  Client, Call, Alarm, Frame, envelope, Received, invalid, message,
}
use node_red_contrib_pod_gat.Client.Calls.{opened, attempt_of, send_raw, enter, reject_unsent, call}
use node_red_contrib_pod_gat.Client.Messages.{emit, is_kind}
use node_red_contrib_pod_gat.Client.Connection.{on_hello_ack, on_hello_error, each_attempt}
use node_red_contrib_pod_gat.Client.Steps.{
  Event, connects, closes, sends, requests, receives, opens, socket_closed, socket_fails,
  connect_timer, call_timer, accept_timer, reconnect_timer, heartbeat_timer, step, run,
  handle_incoming, handle_message, init,
}
use node_red_contrib_pod_gat.Client.Settling.{Book, book, is_covered, Keeps, Keeps-refl, Below}
use node_red_contrib_pod_gat.Client.Settling.Timers.{
  Owned, timer_fires-Keeps, accept_timer_fires-Keeps,
}
use node_red_contrib_pod_gat.Client.Settling.Answers.{answer-Keeps, IsSettling, Keeps-if}
use node_red_contrib_pod_gat.Client.Settling.Connections.{
  book-connect, book-heartbeat_fires, book-on_hello_ack, book-on_hello_error, book-each_attempt,
  book-connect_timer_fires, book-socket_opens, book-reconnect_fires, socket_closes-Keeps,
  close-Keeps, same-Keeps,
}

-- Each promise issued so far is settled or timed, and an accept timer finds no other call than its own.
pub record Waiting (b : Book) : Type 0 where
  pub covered : (n : ℕ) → n < b.next_call → is_covered b n ≡ true
  pub owned : All (Owned b.pending) b.accept_timers

-- A caller's ID is not the one of an accept timer that is still armed.
abbrev pub IsUnclaimed : Client → String → Type 0
IsUnclaimed c id = All (λ a. (id == a.request_id) ≡ false) c.accept_timers

abbrev pub IsFresh : Client → Event → Type 0
IsFresh c (sends id) = IsUnclaimed c id
IsFresh c (requests id) = IsUnclaimed c id
IsFresh c (receives (message m)) = IsSettling c m (truthy m.request_id)
IsFresh c e = Unit {0}

-- Every call of the run names an ID that no armed accept timer has, and the gateway answers no `send`
-- that is pending with an ok result.
unfoldable pub IsFreshRun : Client → List Event → Type 0
IsFreshRun c [] = Unit {0}
IsFreshRun c (e ∷ es) = IsFresh c e × IsFreshRun (step c e) es

Owned-Below : (m k : Map String Call) → Below k m → (a : Alarm) → Owned m a → Owned k a
Owned-Below m k below a own p e = let (q, f, s) = below a.request_id p e in sym s ∙ own q f

Keeps-Waiting : (b d : Book) → Keeps b d → Waiting b → Waiting d
Keeps-Waiting b d k w = record {
  covered = λ n h. k.covers n (w.covered n (subst (λ m. n < m) k.next h));
  owned =
      All-map (Owned b.pending) (Owned d.pending) d.accept_timers
        (Owned-Below b.pending d.pending k.below) (k.alarms (Owned b.pending) w.owned);
}

-- The receiving of a message issues no call.
handle_message-Keeps :
    (c : Client) (r : Received)
    → IsFresh c (receives r)
    → Keeps (book c) (book (handle_message c r))
unfolding handle_message handle_incoming emit
handle_message-Keeps c invalid s = Keeps-refl (book c)
handle_message-Keeps c (message m) s =
    let acked = each_attempt (λ d a. on_hello_ack d m a) c c.attempts in
    let denied = each_attempt (λ d a. on_hello_error d m a) c c.attempts in
    Keeps-if c (is_kind "hello_ack" m) acked _
      (same-Keeps c acked
        (book-each_attempt (λ d a. on_hello_ack d m a) (book-on_hello_ack m) c c.attempts))
      (Keeps-if c (is_kind "hello_error" m) denied _
        (same-Keeps c denied
          (book-each_attempt (λ d a. on_hello_error d m a) (book-on_hello_error m) c c.attempts))
        (Keeps-if c (is_kind "capabilities" m) _ _ (Keeps-refl (book c)) (
          Keeps-if c (is_kind "heartbeat" m) _ _ (Keeps-refl (book c))
            (answer-Keeps c m (truthy m.request_id) s))))

-- A new call is timed from the start, and its accept timer finds it.
enter-Waiting :
    (c : Client) (id : String) (waits : Bool)
    → IsUnclaimed c id
    → Waiting (book c)
    → Waiting (book (enter c id waits))
unfolding enter
enter-Waiting c id waits fresh w =
    let p : Call = record {
      serial = c.next_call;
      request_id = id;
      waits_for_result = waits;
      accepted = false;
    } in
    let others =
      All-both (λ a. (id == a.request_id) ≡ false) (Owned c.pending) (Owned (set c.pending id p))
        c.accept_timers (Owned-set c.pending id p) fresh w.owned in
    let alarm : Alarm = record { call = c.next_call; request_id = id; waits_for_result = waits } in
    record {
      covered = λ n h. ground (arith, w.covered n);
      owned =
          armed_all (set c.pending id p) waits alarm c.accept_timers others
            (Owned-new c.pending id p alarm refl refl);
    }
  where
    All-both :
        (P Q R : Alarm → Type 0) (xs : List Alarm)
        → ((a : Alarm) → P a → Q a → R a)
        → All P xs
        → All Q xs
        → All R xs
    All-both P Q R [] f h k = tt
    All-both P Q R (a ∷ xs) f h k = (f a h.0 k.0, All-both P Q R xs f h.1 k.1)

    Owned-set :
        (m : Map String Call) (id : String) (p : Call) (a : Alarm)
        → (id == a.request_id) ≡ false
        → Owned m a
        → Owned (set m id p) a
    Owned-set m id p a e own q f = own q (rw (get-set m id a.request_id p, e) at f)

    Owned-new :
        (m : Map String Call) (id : String) (p : Call) (a : Alarm)
        → a.request_id ≡ id
        → a.call ≡ p.serial
        → Owned (set m id p) a
    Owned-new m id p a e s q f =
        let k = (eq_iff id a.request_id).1 (sym e) in
        let found : some p ≡ some q = rw (get-set m id a.request_id p, k) at f in cc

    armed_all :
        (m : Map String Call) (waits : Bool) (a : Alarm) (xs : List Alarm)
        → All (Owned m) xs
        → Owned m a
        → All (Owned m) (if waits then a ∷ xs else xs)
    armed_all m true a xs h o = (o, h)
    armed_all m false a xs h o = h

send_raw-opened :
    (c : Client) (f : Frame)
    → opened (attempt_of c c.ws) ≡ true
    → send_raw c f ≡ (record c { frames = f ∷ c.frames }, true)
unfolding send_raw
send_raw-opened c f e = rw e refl

opened-enter :
    (c : Client) (id : String) (waits : Bool)
    → opened (attempt_of c c.ws) ≡ true
    → opened (attempt_of (enter c id waits) (enter c id waits).ws) ≡ true
unfolding enter attempt_of
opened-enter c id waits e = rw e refl

-- With an open socket the frame is sent; without one nothing changes.
book-call :
    (c : Client) (id : String) (waits : Bool)
    → book (call c id waits)
      ≡ (if opened (attempt_of c c.ws) then book (enter c id waits) else book c)
unfolding call reject_unsent
book-call c id waits = elim (Bool-cases (opened (attempt_of c c.ws))) [
  | inl e ↦
      let sent = send_raw-opened (enter c id waits) (envelope id) (opened-enter c id waits e) in
      rw (e, sent) refl
  | inr e ↦ rw e refl
]

call-Waiting :
    (c : Client) (id : String) (waits : Bool)
    → IsUnclaimed c id
    → Waiting (book c)
    → Waiting (book (call c id waits))
call-Waiting c id waits fresh w =
    subst Waiting (sym (book-call c id waits))
      (Waiting-if (opened (attempt_of c c.ws)) (enter-Waiting c id waits fresh w) w)
  where
    Waiting-if : {b d : Book} (t : Bool) → Waiting b → Waiting d → Waiting (if t then b else d)
    Waiting-if true w v = w
    Waiting-if false w v = v

step-Waiting : (c : Client) (e : Event) → IsFresh c e → Waiting (book c) → Waiting (book (step c e))
unfolding step emit
step-Waiting c (connects thrown) f w = subst Waiting (sym (book-connect c thrown)) w
step-Waiting c closes f w = Keeps-Waiting _ _ (close-Keeps c) w
step-Waiting c (sends id) f w = call-Waiting c id false f w
step-Waiting c (requests id) f w = call-Waiting c id true f w
step-Waiting c (receives r) f w = Keeps-Waiting _ _ (handle_message-Keeps c r f) w
step-Waiting c (opens n) f w = subst Waiting (sym (book-socket_opens c n)) w
step-Waiting c (socket_closed n) f w = Keeps-Waiting _ _ (socket_closes-Keeps c n) w
step-Waiting c (socket_fails e) f w = w
step-Waiting c (connect_timer n) f w = subst Waiting (sym (book-connect_timer_fires c n)) w
step-Waiting c (call_timer n) f w = Keeps-Waiting _ _ (timer_fires-Keeps c n) w
step-Waiting c (accept_timer n) f w = Keeps-Waiting _ _ (accept_timer_fires-Keeps c n w.owned) w
step-Waiting c (reconnect_timer thrown) f w = subst Waiting (sym (book-reconnect_fires c thrown)) w
step-Waiting c heartbeat_timer f w = subst Waiting (sym (book-heartbeat_fires c)) w

run-Waiting :
    (c : Client) (es : List Event) → IsFreshRun c es → Waiting (book c) → Waiting (book (run c es))
unfolding run IsFreshRun
run-Waiting c [] f w = w
run-Waiting c (e ∷ es) f w = run-Waiting (step c e) es f.1 (step-Waiting c e f.0 w)

-- After any events from the start in which each call's request ID is not the one of an armed accept timer
-- and no ok result comes for a pending `send`, every promise that a call returned has been settled or its deadline timer is armed.
pub run-covered :
    (has_url : Bool) (es : List Event) (n : ℕ)
    → IsFreshRun (init has_url) es
    → n < (run (init has_url) es).next_call
    → is_covered (book (run (init has_url) es)) n ≡ true
run-covered has_url es n f h =
    (run-Waiting (init has_url) es f
        (record { covered = λ n h. absurd (ground (arith, h)); owned = tt })).covered
      n h
