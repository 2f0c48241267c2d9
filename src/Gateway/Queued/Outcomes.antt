-- ===== src/Gateway/Queued/Outcomes.antt =====
-- How the handler of a queued item ends, and where its answer is then.
use node_red_contrib_pod_gat.Prelude.{
  ℕ, ◌≡◌, refl, ap, subst, ◌⊎◌, inl, inr, Bool, true, false, Option, some, List, ◌∷◌, String,
  string_eq, text_eq, nat_eq, Option-cases, Bool-cases, ◌∙◌,
}
use node_red_contrib_pod_gat.Map.{get}
use node_red_contrib_pod_gat.Gateway.Types.{
  Gateway, Connection, Item, Response, Failure, Outgoing, Metric,
}
use node_red_contrib_pod_gat.Gateway.Send.{send, emit_metric, is_open}
use node_red_contrib_pod_gat.Gateway.Finish.{Ending, find_connection, send_to, build_response}
use node_red_contrib_pod_gat.Gateway.Finish.Targets.{find_connection-found}
use node_red_contrib_pod_gat.StreamQueue.Store.{Reply, failed, replied}
use node_red_contrib_pod_gat.StreamQueue.Delivery
use node_red_contrib_pod_gat.Gateway.Queued.{
  Backend, BackendLaws, Server, tell, keep_pending, deliver_response, settle_idempotency, completed,
  finish,
}
use node_red_contrib_pod_gat.Gateway.Queued.Handling.{
  Stage, looking, deciding, executing, ended, ended_by,
}

-- Where a request came from.
pub record Source : Type 0 where
  pod_id : String
  connection_id : String

abbrev pub source_of : Item → Source
source_of item = record { pod_id = item.pod_id; connection_id = item.connection_id }

-- The item is the request from there.
abbrev pub IsOf : Source → String → Item → Type 0
IsOf from id item = (source_of item ≡ from) × (item.request_id ≡ id)

-- The socket is an authenticated one of the connection that the request came from, or the authenticated
-- one that connected last for its POD, and it is open.
abbrev pub IsTarget : Gateway → Source → ℕ → Type 0
IsTarget g from ws =
    ((c : Connection) × (get g.objects ws ≡ some c)
      × (c.authenticated ≡ true)
      × ((c.connection_id ≡ from.connection_id) ⊎ (get g.connections_by_pod from.pod_id ≡ some ws)))
    × (is_open (get g.objects ws) ≡ true)

module _ (b : Backend) where
  -- What was sent, the number of handlers, and the entries that wait.
  abbrev pub effects : Server b → List (ℕ × Outgoing) × ℕ × b.Entries
  effects s = (s.gateway.sent, s.gateway.active, b.entries s.store)

  -- The answer went to a socket for requests from there and is the only message that was sent, or the
  -- queue keeps it for the POD and nothing was sent.
  abbrev pub IsAnswered : Server b → Server b → Source → String → Type 0
  IsAnswered s t from id =
      (r : Response) × (r.request_id ≡ id)
      × (((ws : ℕ) × IsTarget s.gateway from ws
            × (effects t
                ≡ ((ws, Outgoing.result r) ∷ s.gateway.sent, s.gateway.active, b.entries s.store)))
          ⊎ ((b.pending t.store from.pod_id id ≡ some r) × (effects t ≡ effects s)))

  -- What was done when a step of the handler of the item has led to a stage.
  unfoldable pub Done : Server b → Server b → Source → String → Stage → Type 0
  Done s t from id (ended (Delivery.returned false)) = IsAnswered s t from id
  Done s t from id (ended (Delivery.returned true)) =
      ((item : Item) × IsOf from id item × (b.is_scheduled t.store item ≡ true))
      × (effects t ≡ effects s)
  Done s t from id (ended Delivery.threw) = effects t ≡ effects s
  Done s t from id (looking item) = IsOf from id item × (effects t ≡ effects s)
  Done s t from id (deciding item) = IsOf from id item × (effects t ≡ effects s)
  Done s t from id (executing item) = IsOf from id item × (effects t ≡ effects s)

  -- The servers know the same sockets, and have sent the same.
  abbrev pub IsLike : Server b → Server b → Type 0
  IsLike s u =
      ((u.gateway.objects ≡ s.gateway.objects)
        × (u.gateway.connections_by_pod ≡ s.gateway.connections_by_pod))
      × (effects u ≡ effects s)

  -- The same of what `_finish` and `_deliverResponse` return.
  abbrev pub Delivered : Server b → Server b → Source → String → Reply Bool → Type 0
  Delivered s t from id (failed e) = IsLike s t
  Delivered s t from id (replied delivered) = IsAnswered s t from id

  abbrev pub IsDone : Server b → Item → Server b × Stage → Type 0
  IsDone s item x = Done s x.0 (source_of item) item.request_id x.1

pub Reply-cases {ℓ} :
    {A : Type ℓ} (x : Reply A) → ((e : Failure) × (x ≡ failed e)) ⊎ ((a : A) × (x ≡ replied a))
Reply-cases (failed e) = inl (e, refl)
Reply-cases (replied a) = inr (a, refl)

module _ (b : Backend) (laws : BackendLaws b) where
  keep_pending-Delivered :
      (s : Server b) (item : Item) (r : Response)
      → r.request_id ≡ item.request_id
      → Delivered b s
          (keep_pending b s item r).0
          (source_of item)
          item.request_id
          (keep_pending b s item r).1
  unfolding keep_pending
  keep_pending-Delivered s item r own =
      elim (Reply-cases (b.store_pending_result s.store item.pod_id r).1) [
        | inl (e, h) ↦ rw h (
          (refl, refl),
          ap (λ n. (s.gateway.sent, s.gateway.active, n))
              (laws.store-entries s.store item.pod_id r),
        )
        | inr (done, h) ↦
            let there = laws.store-pending s.store item.pod_id r done h in
            rw h (
              r,
              own,
              inr (
                subst
                    (λ id.
                      b.pending (b.store_pending_result s.store item.pod_id r).0 item.pod_id id
                      ≡ some r)
                    own there,
                ap (λ n. (s.gateway.sent, s.gateway.active, n))
                    (laws.store-entries s.store item.pod_id r),
              ),
            )
      ]

  pub deliver_response-Delivered :
      (s : Server b) (item : Item) (r : Response)
      → r.request_id ≡ item.request_id
      → Delivered b s
          (deliver_response b s item r).0
          (source_of item)
          item.request_id
          (deliver_response b s item r).1
  unfolding deliver_response send_to send
  deliver_response-Delivered s item r own = elim (Option-cases (find_connection s.gateway item)) [
    | inl e ↦ rw (e, deliver_response) (keep_pending-Delivered s item r own)
    | inr (ws, e) ↦ elim (Bool-cases (is_open (get s.gateway.objects ws))) [
      | inl o ↦ rw (e, deliver_response) (rw o (r, own, inl (ws, (target ws e, o), refl)))
      | inr o ↦ rw (e, deliver_response) (rw o (keep_pending-Delivered s item r own))
    ]
  ]
    where
      target :
          (ws : ℕ)
          → find_connection s.gateway item ≡ some ws
          → (c : Connection) × (get s.gateway.objects ws ≡ some c)
            × (c.authenticated ≡ true)
            × ((c.connection_id ≡ item.connection_id)
                ⊎ (get s.gateway.connections_by_pod item.pod_id ≡ some ws))
      target ws e = elim (find_connection-found s.gateway item ws e) [
        | inl (c, there, k, own) ↦ (c, there, k, inl own)
        | inr (c, there, k, latest, _) ↦ (c, there, k, inr latest)
      ]

  IsTarget-like :
      (s u : Server b) (from : Source) (ws : ℕ)
      → IsLike b s u
      → IsTarget u.gateway from ws
      → IsTarget s.gateway from ws
  IsTarget-like s u from ws ((objects, latest), sent) ((c, there, k, inl own), o) = (
    (c, subst (λ m. get m ws ≡ some c) objects there, k, inl own),
    subst (λ m. is_open (get m ws) ≡ true) objects o,
  )
  IsTarget-like s u from ws ((objects, latest), sent) ((c, there, k, inr own), o) = (
    (
      c,
      subst (λ m. get m ws ≡ some c) objects there,
      k,
      inr (subst (λ m. get m from.pod_id ≡ some ws) latest own),
    ),
    subst (λ m. is_open (get m ws) ≡ true) objects o,
  )

  IsAnswered-like :
      (s u t : Server b) (from : Source) (id : String)
      → IsLike b s u
      → IsAnswered b u t from id
      → IsAnswered b s t from id
  IsAnswered-like s u t from id like (r, own, inl (ws, o, e)) = (
    r,
    own,
    inl (
      ws,
      IsTarget-like s u from ws like o,
      e ∙ ap (λ x. ((ws, Outgoing.result r) ∷ x.0, x.1, x.2)) like.1,
    ),
  )
  IsAnswered-like s u t from id like (r, own, inr (there, e)) = (r, own, inr (there, e ∙ like.1))

  Delivered-like :
      (s u t : Server b) (from : Source) (id : String) (reply : Reply Bool)
      → IsLike b s u
      → Delivered b u t from id reply
      → Delivered b s t from id reply
  Delivered-like s u t from id (failed e) like d =
      ((d.0.0 ∙ like.0.0, d.0.1 ∙ like.0.1), d.1 ∙ like.1)
  Delivered-like s u t from id (replied e) like d = IsAnswered-like s u t from id like d

  Done-like :
      (s u t : Server b) (from : Source) (id : String) (stage : Stage)
      → IsLike b s u
      → Done b u t from id stage
      → Done b s t from id stage
  unfolding Done
  Done-like s u t from id (ended (Delivery.returned false)) like d =
      IsAnswered-like s u t from id like d
  Done-like s u t from id (ended (Delivery.returned true)) like (there, e) = (there, e ∙ like.1)
  Done-like s u t from id (ended Delivery.threw) like d = d ∙ like.1
  Done-like s u t from id (looking item) like d = (d.0, d.1 ∙ like.1)
  Done-like s u t from id (deciding item) like d = (d.0, d.1 ∙ like.1)
  Done-like s u t from id (executing item) like d = (d.0, d.1 ∙ like.1)

  settle_idempotency-IsLike :
      (s : Server b) (item : Item) (r : Response) → IsLike b s (settle_idempotency b s item r)
  unfolding settle_idempotency
  settle_idempotency-IsLike s item r = elim (Option-cases item.dedup_key) [
    | inl e ↦ rw e ((refl, refl), refl)
    | inr (key, e) ↦ rw e (
      (refl, refl),
      ap (λ n. (s.gateway.sent, s.gateway.active, n))
          (laws.record-entries s.store item.pod_id item.message.idempotency_key r),
    )
  ]

  tell-IsLike : (s : Server b) (m : Metric) → IsLike b s (tell b s m)
  unfolding tell emit_metric
  tell-IsLike s m = ((refl, refl), refl)

  completed-Delivered :
      (s : Server b) (item : Item) (ending : Ending) (from : Source) (id : String)
      (x : Server b × Reply Bool)
      → Delivered b s x.0 from id x.1
      → Delivered b s (completed b item ending x).0 from id (completed b item ending x).1
  unfolding completed tell emit_metric
  completed-Delivered s item ending from id (t, failed e) d = d
  completed-Delivered s item ending from id (t, replied e) d = d

  build_response-request_id :
      (now : ℕ) (item : Item) (ending : Ending) (status : Option ℕ)
      → (build_response now item ending status).request_id ≡ item.request_id
  unfolding build_response
  build_response-request_id now item ending status = refl

  pub finish-Delivered :
      (s : Server b) (now : ℕ) (item : Item) (ending : Ending) (status : Option ℕ)
      → Delivered b s
          (finish b s now item ending status).0
          (source_of item)
          item.request_id
          (finish b s now item ending status).1
  unfolding finish
  finish-Delivered s now item ending status =
      let r = build_response now item ending status in
      let u = settle_idempotency b s item r in
      let x = deliver_response b u item r in
      let d =
        completed-Delivered u item ending (source_of item) item.request_id x (
          deliver_response-Delivered u item r (build_response-request_id now item ending status)) in
      Delivered-like s u (completed b item ending x).0 (source_of item) item.request_id
        (completed b item ending x).1 (settle_idempotency-IsLike s item r) d

  pub ended_by-Done :
      (s : Server b) (from : Source) (id : String) (x : Server b × Reply Bool)
      → Delivered b s x.0 from id x.1
      → Done b s (ended_by b x).0 from id (ended_by b x).1
  unfolding ended_by Done
  ended_by-Done s from id (t, failed e) d = d.1
  ended_by-Done s from id (t, replied e) d = d

  pub IsDone-like :
      (s u : Server b) (item : Item) (x : Server b × Stage)
      → IsLike b s u
      → IsDone b u item x
      → IsDone b s item x
  IsDone-like s u item x like d = Done-like s u x.0 (source_of item) item.request_id x.1 like d

  pub IsDone-told :
      (s : Server b) (m : Metric) (item : Item) (x : Server b × Stage)
      → IsDone b (tell b s m) item x
      → IsDone b s item x
  IsDone-told s m item x d = IsDone-like s (tell b s m) item x (tell-IsLike s m) d
