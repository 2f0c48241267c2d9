-- ===== src/Client/Refusal.antt =====
-- A URL that `new WebSocket` refuses.
use node_red_contrib_pod_gat.Prelude.{
  ℕ, arith, suc, ◌≡◌, refl, sym, subst, ap, ◌∙◌, Bool, true, false, Option, none, some, List, [],
  ◌∷◌, All, Bool-cases, inl, inr, if◌then◌else◌,
}
use node_red_contrib_pod_gat.Gateway.Types.{Failure}
use node_red_contrib_pod_gat.Client.Types.{
  Client, Phase, connecting, disconnected, connected, closed, error_raised,
}
use node_red_contrib_pod_gat.Client.Messages.{emit}
use node_red_contrib_pod_gat.Client.Connection.{
  same_phase, set_state, schedule_reconnect, begin_attempt, connect, waits, reconnect_fires,
}
use node_red_contrib_pod_gat.Client.Steps.{
  Event, connects, closes, sends, requests, receives, opens, socket_closed, socket_fails,
  connect_timer, call_timer, accept_timer, reconnect_timer, heartbeat_timer, step, run,
}
use node_red_contrib_pod_gat.Client.Closing.{door-set_state}

phase-set_state : (c : Client) (p : Phase) → (set_state c p).phase ≡ p
unfolding set_state emit
phase-set_state c p = elim (Bool-cases (same_phase c.phase p)) [
  | inl e ↦ rw (e, set_state) (same c.phase p e)
  | inr e ↦ rw (e, set_state) refl
]
  where
    same : (p q : Phase) → same_phase p q ≡ true → p ≡ q
    same disconnected disconnected e = refl
    same connecting connecting e = refl
    same connected connected e = refl
    same closed closed e = refl
    same disconnected connecting e = absurd (cc e)
    same disconnected connected e = absurd (cc e)
    same disconnected closed e = absurd (cc e)
    same connecting disconnected e = absurd (cc e)
    same connecting connected e = absurd (cc e)
    same connecting closed e = absurd (cc e)
    same connected disconnected e = absurd (cc e)
    same connected connecting e = absurd (cc e)
    same connected closed e = absurd (cc e)
    same closed disconnected e = absurd (cc e)
    same closed connecting e = absurd (cc e)
    same closed connected e = absurd (cc e)

-- A client whose kept promise is that of attempt `n` and that is not connected starts no attempt.
connect-waits :
    (c : Client) (n : ℕ) (thrown : Option Failure)
    → c.closing ≡ false
    → same_phase c.phase connected ≡ false
    → c.connect_promise ≡ some n
    → connect c thrown ≡ (c, waits n)
unfolding connect
connect-waits c n thrown k p e = simp (k, p, e)

still_open : (c : Client) → (schedule_reconnect c).closing ≡ c.closing
unfolding schedule_reconnect
still_open c = ground arith

next-schedule_reconnect : (c : Client) → (schedule_reconnect c).next_attempt ≡ c.next_attempt
unfolding schedule_reconnect
next-schedule_reconnect c = ground arith

next-set_state : (c : Client) (p : Phase) → (set_state c p).next_attempt ≡ c.next_attempt
unfolding set_state emit
next-set_state c p = elim (Bool-cases (same_phase c.phase p)) [
  | inl e ↦ rw (e, set_state) refl
  | inr e ↦ rw (e, set_state) refl
]

down :
    (c : Client)
    → c.phase ≡ disconnected
    → same_phase (schedule_reconnect c).phase connected ≡ false
unfolding schedule_reconnect
down c e = ground (arith, e)

-- A client that is down and keeps the promise of attempt `n`, of `next` that were begun.
record Stuck (n next : ℕ) (c : Client) : Type 0 where
  open_still : c.closing ≡ false
  is_down : same_phase c.phase connected ≡ false
  promise : c.connect_promise ≡ some n
  begun : c.next_attempt ≡ next

begin_attempt-Stuck :
    (c : Client) (e : Failure)
    → c.closing ≡ false
    → Stuck c.next_attempt (suc c.next_attempt) (begin_attempt c (some e)).0
unfolding begin_attempt
begin_attempt-Stuck c e k =
    let n = c.next_attempt in
    let dropped : Client = record (set_state c connecting) {
      connect_promise = none;
      next_attempt = suc n;
    } in
    record {
      open_still =
          still_open (set_state dropped disconnected)
          ∙ ap (λ d. d.closing) (door-set_state dropped disconnected)
          ∙ ap (λ d. d.closing) (door-set_state c connecting)
          ∙ k;
      is_down = down (set_state dropped disconnected) (phase-set_state dropped disconnected);
      promise = refl;
      begun =
          next-schedule_reconnect (set_state dropped disconnected)
          ∙ next-set_state dropped disconnected;
    }

-- A caller connects, the reconnect timer fires, or a socket reports an error.
abbrev pub IsRetry : Event → Type 0
IsRetry (connects thrown) = Unit {0}
IsRetry (reconnect_timer thrown) = Unit {0}
IsRetry (socket_fails e) = Unit {0}
IsRetry e = ⊥

connect-Stuck :
    (n next : ℕ) (c : Client) (thrown : Option Failure)
    → Stuck n next c
    → Stuck n next (connect c thrown).0
connect-Stuck n next c thrown s =
    subst (λ x. Stuck n next x.0) (sym (connect-waits c n thrown s.open_still s.is_down s.promise))
      s

reconnect-Stuck :
    (n next : ℕ) (c : Client) (thrown : Option Failure)
    → Stuck n next c
    → Stuck n next (reconnect_fires c thrown)
unfolding reconnect_fires
reconnect-Stuck n next c thrown s = by_timer c.reconnect_timer
  where
    fired : Client
    fired = record c { reconnect_timer = false }

    by_timer : (b : Bool) → Stuck n next (if b then (connect fired thrown).0 else c)
    by_timer false = s
    by_timer true = connect-Stuck n next fired thrown (record {
      open_still = s.open_still;
      is_down = s.is_down;
      promise = s.promise;
      begun = s.begun;
    })

run-Stuck :
    (n next : ℕ) (es : List Event) (c : Client)
    → All IsRetry es
    → Stuck n next c
    → Stuck n next (run c es)
unfolding run step emit
run-Stuck n next [] c h s = s
run-Stuck n next (connects thrown ∷ es) c h s =
    run-Stuck n next es (connect c thrown).0 h.1 (connect-Stuck n next c thrown s)
run-Stuck n next (reconnect_timer thrown ∷ es) c h s =
    run-Stuck n next es (reconnect_fires c thrown) h.1 (reconnect-Stuck n next c thrown s)
run-Stuck n next (socket_fails e ∷ es) c h s =
    run-Stuck n next es (emit c (error_raised e)) h.1 (record {
      open_still = s.open_still;
      is_down = s.is_down;
      promise = s.promise;
      begun = s.begun;
    })
run-Stuck n next (closes ∷ es) c h s = absurd h.0
run-Stuck n next (sends id ∷ es) c h s = absurd h.0
run-Stuck n next (requests id ∷ es) c h s = absurd h.0
run-Stuck n next (receives m ∷ es) c h s = absurd h.0
run-Stuck n next (opens k ∷ es) c h s = absurd h.0
run-Stuck n next (socket_closed k ∷ es) c h s = absurd h.0
run-Stuck n next (connect_timer k ∷ es) c h s = absurd h.0
run-Stuck n next (call_timer k ∷ es) c h s = absurd h.0
run-Stuck n next (accept_timer k ∷ es) c h s = absurd h.0
run-Stuck n next (heartbeat_timer ∷ es) c h s = absurd h.0

-- In a client that is not closing, `new WebSocket` throws. Then, however often `connect` is called and
-- the reconnect timer fires, as long as no socket of an earlier attempt has an event other than `error`
-- and no other timer fires, `connect` gives the promise that was rejected then, and no further attempt
-- is started: also the reconnect timer starts none.
pub connect-stuck :
    (c : Client) (e : Failure) (thrown : Option Failure) (es : List Event)
    → c.closing ≡ false
    → All IsRetry es
    → (let d = run (begin_attempt c (some e)).0 es in
        (connect d thrown ≡ (d, waits c.next_attempt)) × (d.next_attempt ≡ suc c.next_attempt))
connect-stuck c e thrown es k retries =
    let d = run (begin_attempt c (some e)).0 es in
    let s =
      run-Stuck c.next_attempt (suc c.next_attempt) es (begin_attempt c (some e)).0 retries
        (begin_attempt-Stuck c e k) in
    (connect-waits d c.next_attempt thrown s.open_still s.is_down s.promise, s.begun)
