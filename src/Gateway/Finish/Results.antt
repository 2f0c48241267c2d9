-- ===== src/Gateway/Finish/Results.antt =====
-- Where the result of a request goes: `_finish`, `_deliverResponse` and the idempotency records.
use node_red_contrib_pod_gat.Prelude.{
  ℕ, ◌≡◌, refl, ◌⊎◌, inl, inr, true, Option, none, some, [], ◌∷◌, String, string_eq, nat_eq, eq_iff,
  or_else, arith, Option-cases, Bool-cases, ◌∙◌,
}
use node_red_contrib_pod_gat.Map.{get, set, get-set, get-delete}
use node_red_contrib_pod_gat.Gateway.Types.{Gateway, Item, Outgoing, Response}
use node_red_contrib_pod_gat.Gateway.Send.{send, emit_metric, is_open}
use node_red_contrib_pod_gat.Gateway.Finish.{
  Ending, claim_idempotency_sync, find_connection, send_to, deliver_response, store_pending,
  build_response, settle_idempotency, finish,
}
use node_red_contrib_pod_gat.Gateway.Finish.Targets.{IsOrigin, IsLatest, find_connection-found}

-- The result that the server keeps for a request of a POD.
abbrev pub kept : Gateway → String → String → Option Response
kept g pod_id request_id = get (or_else (get g.pending_results pod_id) []) request_id

store_pending-kept :
    (g : Gateway) (pod id : String) (r : Response) → kept (store_pending g pod id r) pod id ≡ some r
unfolding store_pending
store_pending-kept g pod id r = ground (
  arith,
  get-set g.pending_results pod pod (set (or_else (get g.pending_results pod) []) id r),
  get-set (or_else (get g.pending_results pod) []) id id r,
  eq_iff pod pod,
  eq_iff id id,
)

-- The result is the latest message that was sent, to the socket of the item's origin or to the latest
-- one of its POD, which is open, or it is kept for the POD.
abbrev pub Delivered : Gateway → Gateway → Item → Response → Type 0
Delivered g h item r =
    ((ws : ℕ) × (IsOrigin g item ws ⊎ IsLatest g item ws)
      × (is_open (get g.objects ws) ≡ true)
      × (h.sent ≡ (ws, Outgoing.result r) ∷ g.sent))
    ⊎ ((kept h item.pod_id item.request_id ≡ some r) × (h.sent ≡ g.sent))

store_pending-sent :
    (g : Gateway) (pod id : String) (r : Response) → (store_pending g pod id r).sent ≡ g.sent
unfolding store_pending
store_pending-sent g pod id r = refl

deliver_response-Delivered :
    (g : Gateway) (item : Item) (r : Response) → Delivered g (deliver_response g item r).0 item r
unfolding deliver_response send_to send
deliver_response-Delivered g item r = elim (Option-cases (find_connection g item)) [
  | inl e ↦
      rw (e, deliver_response)
        (inr (
          store_pending-kept g item.pod_id item.request_id r,
          store_pending-sent g item.pod_id item.request_id r,
        ))
  | inr (ws, e) ↦ elim (Bool-cases (is_open (get g.objects ws))) [
    | inl o ↦ rw (e, deliver_response) (rw o (inl (ws, find_connection-found g item ws e, o, refl)))
    | inr o ↦
        rw (e, deliver_response)
          (rw o (
            inr (
              store_pending-kept g item.pod_id item.request_id r,
              store_pending-sent g item.pod_id item.request_id r,
            )))
  ]
]

Delivered-settle :
    (g h : Gateway) (now : ℕ) (item : Item) (key : Option String) (r : Response)
    → Delivered (settle_idempotency g now key r) h item r
    → Delivered g h item r
unfolding settle_idempotency
Delivered-settle g h now item none r d = d
Delivered-settle g h now item (some key) r d = d

-- When a request ends, either its result is sent to an authenticated socket that is open, which is of
-- the connection that the request came from, or, where the server has no such connection, the one that
-- connected last for the POD; or nothing is sent and the result is kept for the POD under its request
-- ID.
pub finish-Delivered :
    (g : Gateway) (now : ℕ) (item : Item) (ending : Ending) (status : Option ℕ)
    → Delivered g (finish g now item ending status) item (build_response now item ending status)
unfolding finish emit_metric
finish-Delivered g now item ending status =
    let r = build_response now item ending status in
    let settled = settle_idempotency g now item.dedup_key r in
    Delivered-settle g (deliver_response settled item r).0 now item item.dedup_key r
      (deliver_response-Delivered settled item r)

deliver_response-idempotency :
    (g : Gateway) (item : Item) (r : Response)
    → ((deliver_response g item r).0.inflight_idempotency ≡ g.inflight_idempotency)
      × ((deliver_response g item r).0.idempotency_results ≡ g.idempotency_results)
unfolding deliver_response send_to send store_pending
deliver_response-idempotency g item r = elim (Option-cases (find_connection g item)) [
  | inl e ↦ rw (e, deliver_response) (refl, refl)
  | inr (ws, e) ↦ elim (Bool-cases (is_open (get g.objects ws))) [
    | inl o ↦ rw (e, deliver_response) (rw o (refl, refl))
    | inr o ↦ rw (e, deliver_response) (rw o (refl, refl))
  ]
]

settle_idempotency-claim :
    (g : Gateway) (now : ℕ) (own : Option String) (key : String) (r : Response)
    → own ≡ some key
    → claim_idempotency_sync (settle_idempotency g now own r) key
      ≡ some (record { request_id = r.request_id; response = some r })
unfolding settle_idempotency claim_idempotency_sync
settle_idempotency-claim g now none key r h = absurd (cc h)
settle_idempotency-claim g now (some own) key r h = ground (
  arith,
  get-delete g.inflight_idempotency own key,
  get-set g.idempotency_results own key r,
  eq_iff own key,
)

claim-same :
    (g h : Gateway) (key : String)
    → (h.inflight_idempotency ≡ g.inflight_idempotency)
      × (h.idempotency_results ≡ g.idempotency_results)
    → claim_idempotency_sync h key ≡ claim_idempotency_sync g key
unfolding claim_idempotency_sync
claim-same g h key e = rw (e.0, e.1) refl

-- When a request with an idempotency key ends, a later claim of the key finds that request, with its
-- result.
pub finish-claim :
    (g : Gateway) (now : ℕ) (item : Item) (ending : Ending) (status : Option ℕ) (key : String)
    → item.dedup_key ≡ some key
    → claim_idempotency_sync (finish g now item ending status) key
      ≡ some (record {
        request_id = item.request_id;
        response = some (build_response now item ending status);
      })
unfolding finish emit_metric build_response
finish-claim g now item ending status key e =
    let r = build_response now item ending status in
    let settled = settle_idempotency g now item.dedup_key r in
    claim-same settled (finish g now item ending status) key
      (deliver_response-idempotency settled item r)
    ∙ settle_idempotency-claim g now item.dedup_key key r e
