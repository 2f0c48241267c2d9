-- ===== src/Gateway/Queued/Answers.antt =====
-- What `_enqueue` answers a duplicate.
use node_red_contrib_pod_gat.Prelude.{
  ℕ, ◌≡◌, refl, ap, inl, inr, Option, none, some, ◌∷◌, String, string_eq, nat_eq, ◌==◌, Bool-cases,
  Option-cases, or_else, if◌then◌else◌, arith,
}
use node_red_contrib_pod_gat.Map.{get}
use node_red_contrib_pod_gat.Protocol.{Operation}
use node_red_contrib_pod_gat.Gateway.Types.{Gateway, Response, Outgoing, result, duplicate}
use node_red_contrib_pod_gat.Gateway.Send.{post, send, is_open, emit_metric}
use node_red_contrib_pod_gat.Gateway.Finish.{response_for_request}
use node_red_contrib_pod_gat.Gateway.Enqueue.{Caller, message_metric, answer_duplicate}
use node_red_contrib_pod_gat.StreamQueue.Records.{Entry}

-- The answer to a request with this ID that a record is found for.
abbrev pub IsAnswer : Entry Response → String → Outgoing → Type 0
IsAnswer e id answer = elim e.response [
  | none ↦ answer ≡ duplicate id (or_else e.request_id "")
  | some r ↦
      (original : Option String) × (answer
        ≡ result (record r { request_id = id; duplicate_of = original }))
]

own_response :
    (r : Response) (id : String)
    → (original : Option String) × (result (response_for_request r id)
        ≡ result (record r { request_id = id; duplicate_of = original }))
unfolding response_for_request
own_response r id = elim (Bool-cases (r.request_id == id)) [
  | inr e ↦ (some r.request_id, rw (e, response_for_request) refl)
  | inl e ↦
      let same = (string_eq.beq_iff r.request_id id).0 e in
      (
        r.duplicate_of,
        rw (e, response_for_request)
            (ap (λ i. result (record r { request_id = i; duplicate_of = r.duplicate_of })) same),
      )
]

post-sent :
    (g : Gateway) (ws : ℕ) (m : Outgoing)
    → (post g ws m).sent ≡ (if is_open (get g.objects ws) then (ws, m) ∷ g.sent else g.sent)
unfolding post send
post-sent g ws m = ground arith

pub answer_duplicate-sent :
    (g : Gateway) (who : Caller) (id : String) (o : Operation) (e : Entry Response)
    → (answer : Outgoing) × IsAnswer e id answer
      × ((answer_duplicate g who id o
            (record { request_id = or_else e.request_id ""; response = e.response })).sent
          ≡ (if is_open (get g.objects who.ws) then (who.ws, answer) ∷ g.sent else g.sent))
unfolding answer_duplicate
answer_duplicate-sent g who id o e = elim (Option-cases e.response) [
  | inl k ↦ (
    duplicate id (or_else e.request_id ""),
    rw k refl,
    rw (k, answer_duplicate) (sent_to (duplicate id (or_else e.request_id ""))),
  )
  | inr (r, k) ↦ (
    result (response_for_request r id),
    rw k (own_response r id),
    rw (k, answer_duplicate) (sent_to (result (response_for_request r id))),
  )
]
  where
    told : Gateway
    told = emit_metric g (message_metric "request.duplicate" id who.pod_id o "")

    sent_to :
        (m : Outgoing)
        → (post told who.ws m).sent
          ≡ (if is_open (get g.objects who.ws) then (who.ws, m) ∷ g.sent else g.sent)
    sent_to m = unfold emit_metric in post-sent told who.ws m
