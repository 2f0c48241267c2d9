-- ===== src/Gateway/Core/Requests.antt =====
-- Each frame is a move of the scheduler, and so is each event.
use node_red_contrib_pod_gat.Prelude.{
  ℕ, ◌≡◌, refl, inl, inr, Bool, true, false, not, Option, none, some, List, [], ◌∷◌, String, Text,
  arith, leb, ltb, length, if◌then◌else◌, Option-cases, string_eq, text_eq, nat_eq, codes,
}
use node_red_contrib_pod_gat.Map.{get}
use node_red_contrib_pod_gat.Result.{Result, ok, throws}
use node_red_contrib_pod_gat.Protocol.{Operation, parse_operation}
use node_red_contrib_pod_gat.Protocol.Envelope.{is_request, validate_envelope}
use node_red_contrib_pod_gat.Gateway.Types.{Gateway, Message, Adapter, Connection, Parsed, Outgoing}
use node_red_contrib_pod_gat.Gateway.Send.{post}
use node_red_contrib_pod_gat.Gateway.Finish.{claim_idempotency_sync}
use node_red_contrib_pod_gat.Gateway.Connect.{Verdict, authenticated}
use node_red_contrib_pod_gat.Gateway.Enqueue.{
  Caller, caller_of, enqueue, registered, validated, claim_and_push, claim_of, new_item,
  dedup_key_of,
}
use node_red_contrib_pod_gat.Gateway.Receive.{receive, parsed, dispatch, request, kind_is}
use node_red_contrib_pod_gat.Gateway.Steps.{
  Event, connects, frame, verdict, closes, turns, decides, executes, settles, retry_timer,
  pump_alarm, expiry_timer, registers, unregisters, broadcasts, step, resume_hello, take_handshake,
  Handshake, expire_results, with_object,
}
use node_red_contrib_pod_gat.Gateway.Core.{core, Unclaimed, Move, stay, accept}
use node_red_contrib_pod_gat.Gateway.Core.Frames.{
  core-post, core-hello, core-connect, core-authenticated, core-disconnect, core-register_operation,
  core-unregister_operation, core-broadcast_capabilities,
}
use node_red_contrib_pod_gat.Gateway.Core.Parts.{
  core-reject, core-reject_invalid, core-answer_duplicate, core-push_item,
}
use node_red_contrib_pod_gat.Gateway.Core.Refines.{
  pump_turn-Move, decided-Move, executed-Move, settle-Move, retry_due-Move, pump_timer_fires-Move,
}

claim_of-Unclaimed :
    (g : Gateway) (key : Option String)
    → claim_of g key ≡ none
    → Unclaimed g.inflight_idempotency key
unfolding claim_of claim_idempotency_sync
claim_of-Unclaimed g none h = tt
claim_of-Unclaimed g (some key) h = ground arith

-- One state of the gateway comes from another by a move of the scheduler.
pub record Refines (g h : Gateway) : Type 0 where
  pub move : Move (core g) (core h)

keeps : (g h : Gateway) → core h ≡ core g → Refines g h
keeps g h e = record { move = stay e }

post-Refines : (g : Gateway) (ws : ℕ) (m : Outgoing) → Refines g (post g ws m)
post-Refines g ws m = keeps g (post g ws m) (core-post g ws m)

Refines-if :
    (d : Gateway) (b : Bool) (g h : Gateway)
    → Refines d g
    → Refines d h
    → Refines d (if b then g else h)
Refines-if d true g h m n = m
Refines-if d false g h m n = n

Refines-with_object :
    (g : Gateway) (o : Option Connection) (f : Connection → Gateway)
    → ((c : Connection) → Refines g (f c))
    → Refines g (with_object g o f)
unfolding with_object
Refines-with_object g none f h = keeps g g refl
Refines-with_object g (some c) f h = h c

claim_and_push-Refines :
    (g : Gateway) (now : ℕ) (who : Caller) (id : String) (o : Operation) (a : Adapter) (m : Message)
    → Refines g (claim_and_push g now who id o a m)
unfolding claim_and_push new_item
claim_and_push-Refines g now who id o a m =
    let key = dedup_key_of who.pod_id m.idempotency_key in
    elim (Option-cases (claim_of g key)) [
      | inl e ↦
          rw (e, claim_and_push)
            (record {
              move =
                  accept (new_item g now who id o a m key) refl refl (claim_of-Unclaimed g key e)
                    (core-push_item g who (new_item g now who id o a m key));
            })
      | inr (d, e) ↦ rw (e, claim_and_push) (keeps g _ (core-answer_duplicate g who id o d))
    ]

validated-Refines :
    (g : Gateway) (now : ℕ) (who : Caller) (id : String) (o : Operation) (a : Adapter) (m : Message)
    (es : List Text)
    → Refines g (validated g now who id o a m es)
unfolding validated
validated-Refines g now who id o a m (e ∷ es) =
    keeps g _ (core-reject_invalid g who id o a.request_schema m (e ∷ es))
validated-Refines g now who id o a m [] =
    Refines-if g (leb g.max_queue_size (length g.memory_queue)) _ _
      (keeps g _ (core-reject g who id o "QUEUE_FULL" (codes "Gateway queue is full") true))
      (claim_and_push-Refines g now who id o a m)

registered-Refines :
    (g : Gateway) (now : ℕ) (who : Caller) (id : String) (o : Operation) (a : Option Adapter)
    (m : Message)
    → Refines g (registered g now who id o a m)
unfolding registered
registered-Refines g now who id o none m = keeps g _ (core-reject g who id o _ _ false)
registered-Refines g now who id o (some a) m = validated-Refines g now who id o a m _

enqueue-Refines :
    (g : Gateway) (now : ℕ) (who : Caller) (m : Message) → Refines g (enqueue g now who m)
unfolding enqueue
enqueue-Refines g now who m = go (parse_operation m.operation) refl
  where
    go : (r : Result Operation) → parse_operation m.operation ≡ r → Refines g (enqueue g now who m)
    go (throws t) e = rw (e, enqueue) (keeps g _ refl)
    go (ok o) e = rw (e, enqueue) (registered-Refines g now who _ o _ m)

request-Refines :
    (g : Gateway) (now ws : ℕ) (c : Connection) (m : Message) → Refines g (request g now ws c m)
unfolding request
request-Refines g now ws c m = go (validate_envelope m.kind m.request_id m.operation) refl
  where
    go :
        (r : Result (Unit {0}))
        → validate_envelope m.kind m.request_id m.operation ≡ r
        → Refines g (request g now ws c m)
    go (throws t) e = rw (e, request) (post-Refines g ws _)
    go (ok _) e = rw (e, request) (enqueue-Refines g now (caller_of ws c) m)

dispatch-Refines :
    (g : Gateway) (now ws : ℕ) (c : Connection) (m : Message) → Refines g (dispatch g now ws c m)
unfolding dispatch
dispatch-Refines g now ws c m =
    Refines-if g (kind_is "hello" m.kind) _ _ (keeps g _ (core-hello g ws c m)) (
      Refines-if g (kind_is "heartbeat" m.kind) _ _ (post-Refines g ws _) (
        Refines-if g (not c.authenticated) _ _ (post-Refines g ws _) (
          Refines-if g (not (is_request m.kind)) _ _ (post-Refines g ws _)
            (request-Refines g now ws c m))))

parsed-Refines :
    (g : Gateway) (now ws : ℕ) (c : Connection) (p : Parsed) → Refines g (parsed g now ws c p)
unfolding parsed
parsed-Refines g now ws c Parsed.invalid = post-Refines g ws _
parsed-Refines g now ws c Parsed.null = keeps g _ refl
parsed-Refines g now ws c (Parsed.message m) = dispatch-Refines g now ws c m

receive-Refines :
    (g : Gateway) (now ws : ℕ) (c : Connection) (bytes : ℕ) (p : Parsed)
    → Refines g (receive g now ws c bytes p)
unfolding receive
receive-Refines g now ws c bytes p =
    Refines-if g (ltb g.max_message_bytes bytes) _ _ (post-Refines g ws _)
      (parsed-Refines g now ws c p)

resume_hello-Refines :
    (g : Gateway) (v : Verdict) (h : Option (Handshake × List Handshake))
    → Refines g (resume_hello g v h)
unfolding resume_hello
resume_hello-Refines g v none = keeps g _ refl
resume_hello-Refines g v (some ((ws, m), rest)) =
    let h : Gateway = record g { handshakes = rest } in
    let r =
      Refines-with_object h (get h.objects ws) (λ c. authenticated h ws c m v)
        (λ c. keeps h _ (core-authenticated h ws c m v)) in
    record { move = r.move }

-- Each event, whatever the frame, the answer of the rate limiter, the adapter's end or the time,
-- is one move of the abstract scheduler.
pub step-Refines : (g : Gateway) (now : ℕ) (e : Event) → Refines g (step g now e)
unfolding step
step-Refines g now (connects ws id sends) = keeps g _ (core-connect g ws id sends)
step-Refines g now (frame ws bytes p) =
    Refines-with_object g (get g.objects ws) _ (λ c. receive-Refines g now ws c bytes p)
step-Refines g now (verdict n v) = resume_hello-Refines g v (take_handshake n g.handshakes)
step-Refines g now (closes ws) =
    Refines-with_object g (get g.objects ws) _ (λ c. keeps g _ (core-disconnect g ws c))
step-Refines g now turns = record { move = pump_turn-Move g now }
step-Refines g now (decides a) = record { move = decided-Move g now a }
step-Refines g now (executes n ending status elapsed) = record {
  move = executed-Move g now n ending status elapsed;
}
step-Refines g now settles = record { move = settle-Move g }
step-Refines g now (retry_timer n) = record { move = retry_due-Move g now n }
step-Refines g now pump_alarm = record { move = pump_timer_fires-Move g now }
step-Refines g now expiry_timer = unfold expire_results in keeps g _ refl
step-Refines g now (registers t a) = keeps g _ (core-register_operation g t a)
step-Refines g now (unregisters t) = keeps g _ (core-unregister_operation g t)
step-Refines g now broadcasts = keeps g _ (core-broadcast_capabilities g)
