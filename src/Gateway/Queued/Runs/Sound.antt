-- ===== src/Gateway/Queued/Runs/Sound.antt =====
-- The handlers that wait, in every run of a server with a shared queue.
use node_red_contrib_pod_gat.Prelude.{
  ℕ, suc, ◌≡◌, refl, ap, ◌∙◌, subst, inl, inr, true, false, Option, none, some, List, [], ◌∷◌,
  String, Text, nat_eq, length, All, arith, Option-cases,
}
use node_red_contrib_pod_gat.Map.{Map, get}
use node_red_contrib_pod_gat.Gateway.Types.{Gateway, Config, Adapter, Connection, Item, Message}
use node_red_contrib_pod_gat.Gateway.Send.{emit_metric}
use node_red_contrib_pod_gat.Gateway.Timing.{mark_processing}
use node_red_contrib_pod_gat.Gateway.Connect.{Verdict}
use node_red_contrib_pod_gat.Gateway.Steps.{with_object, Handshake}
use node_red_contrib_pod_gat.Gateway.Core.Frames.{
  core-connect, core-disconnect, core-authenticated, core-register_operation,
  core-unregister_operation, core-broadcast_capabilities,
}
use node_red_contrib_pod_gat.StreamQueue.Delivery
use node_red_contrib_pod_gat.Gateway.Queued.{Backend, BackendLaws, Server, tell}
use node_red_contrib_pod_gat.Gateway.Queued.Handling.{
  Stage, looking, deciding, executing, ended, Input, begin_item, advance, leave,
}
use node_red_contrib_pod_gat.Gateway.Queued.Outcomes.{Source, source_of, Done, IsDone, Reply-cases}
use node_red_contrib_pod_gat.Gateway.Queued.Endings.{advance-Done}
use node_red_contrib_pod_gat.Gateway.Queued.Runs.{
  Handler, System, Event, start, connects, closes, arrives, advances, frame, verdict, replays_on,
  registers, unregisters, broadcasts, others_change, Replay, pick, proceed, arrive, advance_at,
  frame_from, welcome_from, resume_hello, continue_replay, replay_at, step, run,
}
use node_red_contrib_pod_gat.Gateway.Queued.Runs.Picking.{IsTrue, pick-parts}
use node_red_contrib_pod_gat.Gateway.Queued.Runs.Idle.{receive-active, finish_replay-active}

module _ (b : Backend) where
  -- `active` counts the handlers that wait, each of which is true to its item.
  record IsSound (y : System b) : Type 0 where
    counted : y.server.gateway.active ≡ length y.handlers
    faithful : All IsTrue y.handlers

  -- What a handler that waits did in a step, if it is about this request.
  Done-active :
      (s t : Server b) (from : Source) (id : String) (stage : Stage)
      → Done b s t from id stage
      → t.gateway.active ≡ s.gateway.active
  unfolding Done
  Done-active s t from id (looking item) d = ap (λ x. x.1) d.1
  Done-active s t from id (deciding item) d = ap (λ x. x.1) d.1
  Done-active s t from id (executing item) d = ap (λ x. x.1) d.1
  Done-active s t from id (ended (Delivery.returned true)) d = ap (λ x. x.1) d.1
  Done-active s t from id (ended (Delivery.returned false)) (r, own, inl (ws, o, e)) =
      ap (λ x. x.1) e
  Done-active s t from id (ended (Delivery.returned false)) (r, own, inr (there, e)) =
      ap (λ x. x.1) e
  Done-active s t from id (ended Delivery.threw) d = ap (λ x. x.1) d

module _ (b : Backend) (laws : BackendLaws b) where
  -- The step of a handler that is true to its item.
  handler-Done :
      (s : Server b) (now : ℕ) (h : Handler) (input : Input)
      → IsTrue h
      → IsDone b s h.original (advance b s now h.stage input)
  handler-Done s now h input (item, own, (pod, id)) =
      let x = advance b s now h.stage input in
      subst (λ i. Done b s x.0 (source_of h.original) i x.1) id
        (subst (λ p. Done b s x.0 p item.request_id x.1) pod
          (advance-Done b laws s now item h.stage input own))

  proceed-IsSound :
      (y : System b) (h : Handler) (rest : List Handler) (x : Server b × Stage)
      → IsDone b y.server h.original x
      → y.server.gateway.active ≡ suc (length rest)
      → All IsTrue rest
      → IsSound b (proceed b y h rest x)
  unfolding proceed Done leave
  proceed-IsSound y h rest (s, looking item) d count t = record {
    counted =
        Done-active b y.server s (source_of h.original) h.original.request_id (looking item) d
        ∙ count;
    faithful = ((item, refl, d.0), t);
  }
  proceed-IsSound y h rest (s, deciding item) d count t = record {
    counted =
        Done-active b y.server s (source_of h.original) h.original.request_id (deciding item) d
        ∙ count;
    faithful = ((item, refl, d.0), t);
  }
  proceed-IsSound y h rest (s, executing item) d count t = record {
    counted =
        Done-active b y.server s (source_of h.original) h.original.request_id (executing item) d
        ∙ count;
    faithful = ((item, refl, d.0), t);
  }
  proceed-IsSound y h rest (s, ended e) d count t = record {
    counted = omega (
      arith,
      Done-active b y.server s (source_of h.original) h.original.request_id (ended e) d ∙ count,
    );
    faithful = t;
  }

  advance_at-IsSound :
      (y : System b) (now n : ℕ) (input : Input)
      → IsSound b y
      → IsSound b (advance_at b y now input (pick n y.handlers))
  unfolding advance_at
  advance_at-IsSound y now n input sound = elim (Option-cases (pick n y.handlers)) [
    | inl e ↦ rw (e, advance_at) sound
    | inr ((h, rest), e) ↦
        let (own, kept, count) = pick-parts n y.handlers h rest e sound.faithful in
        rw (e, advance_at)
          (proceed-IsSound y h rest (advance b y.server now h.stage input)
            (handler-Done y.server now h input own) (sound.counted ∙ count) kept)
  ]

  arrive-IsSound :
      (y : System b) (now : ℕ) (entry : Delivery.Message) (item : Item)
      → IsSound b y
      → IsSound b (arrive b y now entry item)
  unfolding arrive begin_item tell emit_metric mark_processing
  arrive-IsSound y now entry item sound = record {
    counted = ap suc sound.counted;
    faithful = ((mark_processing now item, refl, (refl, refl)), sound.faithful);
  }

  with_object-active :
      (g : Gateway) (o : Option Connection) (f : Connection → Gateway)
      → ((c : Connection) → (f c).active ≡ g.active)
      → (with_object g o f).active ≡ g.active
  unfolding with_object
  with_object-active g none f e = refl
  with_object-active g (some c) f e = e c

  welcome_from-IsSound :
      (y : System b) (g : Gateway) (v : Verdict) (ws : ℕ) (m : Message) (o : Option Connection)
      → g.active ≡ y.server.gateway.active
      → IsSound b y
      → IsSound b (welcome_from b y g v ws m o)
  unfolding welcome_from
  welcome_from-IsSound y g v ws m none e sound = record {
    counted = e ∙ sound.counted;
    faithful = sound.faithful;
  }
  welcome_from-IsSound y g v ws m (some c) e sound = record {
    counted = ap (λ k. k.active) (core-authenticated g ws c m v) ∙ e ∙ sound.counted;
    faithful = sound.faithful;
  }

  resume_hello-IsSound :
      (y : System b) (v : Verdict) (o : Option (Handshake × List Handshake))
      → IsSound b y
      → IsSound b (resume_hello b y v o)
  unfolding resume_hello
  resume_hello-IsSound y v none sound = sound
  resume_hello-IsSound y v (some ((ws, m), rest)) sound =
      welcome_from-IsSound y _ v ws m (get y.server.gateway.objects ws) refl sound

  continue_replay-IsSound :
      (y : System b) (x : Replay b) (o : Option b.Found)
      → IsSound b y
      → IsSound b (continue_replay b y x o)
  unfolding continue_replay
  continue_replay-IsSound y x (some found) sound = record {
    counted = finish_replay-active b y.server x.ws x.pod_id found ∙ sound.counted;
    faithful = sound.faithful;
  }
  continue_replay-IsSound y x none sound =
      elim (Reply-cases (b.read_pending_results y.server.store x.pod_id)) [
        | inl (e, h) ↦ rw (h, continue_replay) sound
        | inr (found, h) ↦
            rw (h, continue_replay) (record { counted = sound.counted; faithful = sound.faithful })
      ]

  replay_at-IsSound :
      (y : System b) (o : Option (Replay b × List (Replay b)))
      → IsSound b y
      → IsSound b (replay_at b y o)
  unfolding replay_at
  replay_at-IsSound y none sound = sound
  replay_at-IsSound y (some (x, rest)) sound =
      continue_replay-IsSound (record y { replays = rest }) x x.found
        (record { counted = sound.counted; faithful = sound.faithful })

  step-IsSound : (y : System b) (now : ℕ) (e : Event b) → IsSound b y → IsSound b (step b y now e)
  unfolding step frame_from
  step-IsSound y now (connects ws id sends) sound = record {
    counted = ap (λ c. c.active) (core-connect y.server.gateway ws id sends) ∙ sound.counted;
    faithful = sound.faithful;
  }
  step-IsSound y now (closes ws) sound = record {
    counted =
        with_object-active y.server.gateway (get y.server.gateway.objects ws) _
          (λ c. ap (λ k. k.active) (core-disconnect y.server.gateway ws c))
        ∙ sound.counted;
    faithful = sound.faithful;
  }
  step-IsSound y now (frame ws bytes p) sound =
      elim (Option-cases (get y.server.gateway.objects ws)) [
        | inl e ↦ rw (e, frame_from) sound
        | inr (c, e) ↦
            rw (e, frame_from)
              (record {
                counted = receive-active b y.server now ws c bytes p ∙ sound.counted;
                faithful = sound.faithful;
              })
      ]
  step-IsSound y now (verdict n v) sound = resume_hello-IsSound y v _ sound
  step-IsSound y now (replays_on n) sound = replay_at-IsSound y _ sound
  step-IsSound y now (registers operation a) sound = record {
    counted =
        ap (λ k. k.active) (core-register_operation y.server.gateway operation a) ∙ sound.counted;
    faithful = sound.faithful;
  }
  step-IsSound y now (unregisters operation) sound = record {
    counted =
        ap (λ k. k.active) (core-unregister_operation y.server.gateway operation) ∙ sound.counted;
    faithful = sound.faithful;
  }
  step-IsSound y now broadcasts sound = record {
    counted = ap (λ k. k.active) (core-broadcast_capabilities y.server.gateway) ∙ sound.counted;
    faithful = sound.faithful;
  }
  step-IsSound y now (others_change store) sound = record {
    counted = sound.counted;
    faithful = sound.faithful;
  }
  step-IsSound y now (arrives entry item) sound = arrive-IsSound y now entry item sound
  step-IsSound y now (advances n input) sound = advance_at-IsSound y now n input sound

  run-IsSound : (y : System b) (es : List (ℕ × Event b)) → IsSound b y → IsSound b (run b y es)
  unfolding run
  run-IsSound y [] sound = sound
  run-IsSound y ((now, e) ∷ es) sound = run-IsSound (step b y now e) es (step-IsSound y now e sound)

  start-IsSound :
      (c : Config) (adapters : Map Text Adapter) (store : b.Store)
      → IsSound b (start b c adapters store)
  start-IsSound c adapters store = record { counted = refl; faithful = tt }

  -- In every run, `active` is the number of the handlers that have begun and have not ended.
  pub run-active :
      (c : Config) (adapters : Map Text Adapter) (store : b.Store) (es : List (ℕ × Event b))
      → (let y = run b (start b c adapters store) es in y.server.gateway.active ≡ length y.handlers)
  run-active c adapters store es =
      (run-IsSound (start b c adapters store) es (start-IsSound c adapters store)).counted

  -- In every run, with any frames and handshakes of sockets and whatever other gateways make of the queue
  -- in between, a step of a handler that waits sends nothing and leaves the handler waiting for the same
  -- request, or it ends the handler in one of three ways. It returns, and the answer to the request that
  -- its item was given with is the one message that was sent, to an open and authenticated socket, of
  -- the connection that the request came from or the one that connected last for its POD, or nothing was
  -- sent and the queue keeps that answer for the POD. It is deferred, nothing was sent, and a retry of
  -- the request is scheduled. Or it throws, and nothing was sent. The queue's `schedule_retry` and
  -- `store_pending_result` do what they answer.
  pub run-Done :
      (c : Config) (adapters : Map Text Adapter) (store : b.Store) (es : List (ℕ × Event b))
      (now n : ℕ) (input : Input) (h : Handler) (rest : List Handler)
      → pick n (run b (start b c adapters store) es).handlers ≡ some (h, rest)
      → (let y = run b (start b c adapters store) es in
          IsDone b y.server h.original (advance b y.server now h.stage input))
  run-Done c adapters store es now n input h rest e =
      let y = run b (start b c adapters store) es in
      let sound = run-IsSound (start b c adapters store) es (start-IsSound c adapters store) in
      let (own, _, _) = pick-parts n y.handlers h rest e sound.faithful in
      handler-Done y.server now h input own
