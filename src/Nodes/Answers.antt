-- ===== src/Nodes/Answers.antt =====
-- What a gateway-call and a gateway-out node answer to a message, and what they send.
use node_red_contrib_pod_gat.Prelude.{
  ℕ, ◌-◌, ◌≡◌, refl, ap, ◌⊎◌, inl, inr, Bool, true, false, Option, none, some, List, [], ◌∷◌,
  String, Text, text_eq, is_some, not,
}
use node_red_contrib_pod_gat.Map.{Map}
use node_red_contrib_pod_gat.Result.{ok, throws, Result-cases}
use node_red_contrib_pod_gat.Json.{obj}
use node_red_contrib_pod_gat.Protocol.{Operation}
use node_red_contrib_pod_gat.Request.{Schema, request_fields, normalize_request}
use node_red_contrib_pod_gat.Request.Validation.{validate_request}
use node_red_contrib_pod_gat.Request.Validation.Canonical.{validate_request-stored}
use node_red_contrib_pod_gat.Gateway.Types.{Failure}
use node_red_contrib_pod_gat.Gateway.Enqueue.{validation_failure}
use node_red_contrib_pod_gat.Nodes.{
  Message, Output, Port, succeeded, failed, operation_from_node, error_message,
}
use node_red_contrib_pod_gat.Nodes.Calling.{
  Node, Sent, Answer, Settled, resolved, rejected, Trace, nothing, schema_of, answer, context_of,
  refuse, fail_with, call_request, event_request, call_output, event_output, settle, hand_over,
  connected, call_input, event_input,
}

abbrev pub is_success : Port → Bool
is_success succeeded = true
is_success failed = false

-- One output, on the first wire if it has no error and else on the second one, and one `done`; no
-- listener is left.
abbrev pub IsAnswered : Message → Trace → Type 0
IsAnswered m t =
    ((port : Port) × (out : Output) × (t.outputs ≡ (port, out) ∷ [])
      × (out.original ≡ m)
      × (is_some out.error ≡ not (is_success port)))
    × (t.dones ≡ 1)
    × (t.listeners ≡ 0)

-- Nothing was sent, and the output is on the second wire; or this request was sent, once, and the
-- gateway's validation of it, by the schema that the capabilities have, finds no error.
abbrev pub IsSent :
    Node → Message → String → Sent → Operation → Settled (Map Text (Option Schema)) → Trace → Type 0
IsSent n m id request o connection t =
    ((t.sent ≡ []) × ((out : Output) × (t.outputs ≡ (failed, out) ∷ [])))
    ⊎ ((capabilities : Map Text (Option Schema)) × (connection ≡ resolved capabilities)
        × (t.sent ≡ request ∷ [])
        × (validate_request request.payload (some (obj (request_fields request.request)))
              (schema_of capabilities o) (context_of n.pod_id id o)
            ≡ []))

-- The same of a handler whose listeners are still counted.
abbrev Ends : Message → ℕ → Trace → Type 0
Ends m k t =
    ((port : Port) × (out : Output) × (t.outputs ≡ (port, out) ∷ [])
      × (out.original ≡ m)
      × (is_some out.error ≡ not (is_success port)))
    × (t.dones ≡ 1)
    × (t.listeners ≡ k)

module _ {A : Type 0} (n : Node) (m : Message) (id : String) (o : Operation) (request : Sent)
    (output : Map Text (Option Schema) → A → Output) (later : Map Text (Option Schema))
    (own : (c : Map Text (Option Schema)) (a : A) → (output c a).original ≡ m)
    (fine : (c : Map Text (Option Schema)) (a : A) → (output c a).error ≡ none)
    (payload : request.payload ≡ m.payload)
    (normal : request.request ≡ normalize_request m.request) where
  failing :
      (k : ℕ) (sent : List Sent) (e : Failure)
      → Ends m k (fail_with (record nothing { listeners = k; sent = sent }) m id o later e)
  unfolding fail_with answer error_message
  failing k sent e = ((failed, _, refl, refl, refl), refl, refl)

  settle-Ends :
      (k : ℕ) (sent : List Sent) (c : Map Text (Option Schema)) (settled : Settled A)
      → Ends m k (
          settle n m id o request output later
            (record nothing { listeners = k; sent = sent })
            c
            settled)
  unfolding settle answer
  settle-Ends k sent c (rejected e) = failing k sent e
  settle-Ends k sent c (resolved a) =
      ((succeeded, output c a, refl, own c a, ap is_some (fine c a)), refl, refl)

  sent-settle :
      (k : ℕ) (sent : List Sent) (c : Map Text (Option Schema)) (settled : Settled A)
      → (settle n m id o request output later
          (record nothing { listeners = k; sent = sent })
          c
          settled).sent
        ≡ sent
  unfolding settle answer fail_with
  sent-settle k sent c (rejected e) = refl
  sent-settle k sent c (resolved a) = refl

  hand_over-Ends :
      (k : ℕ) (c : Map Text (Option Schema)) (es : List Text) (settled : Settled A)
      → Ends m k
          (hand_over n m id o request output later (record nothing { listeners = k }) c es settled)
  unfolding hand_over
  hand_over-Ends k c [] settled = settle-Ends k (request ∷ []) c settled
  hand_over-Ends k c (e ∷ es) settled = failing k [] (validation_failure (e ∷ es))

  -- The request that is sent was found valid.
  hand_over-IsSent :
      (k : ℕ) (c : Map Text (Option Schema)) (es : List Text) (settled : Settled A)
      → validate_request m.payload m.request (schema_of c o) (context_of n.pod_id id o) ≡ es
      → IsSent n m id request o
          (resolved c)
          (hand_over n m id o request output later (record nothing { listeners = k }) c es settled)
  unfolding hand_over fail_with answer
  hand_over-IsSent k c [] settled valid = inr (
    c,
    refl,
    sent-settle k (request ∷ []) c settled,
    rw (payload, normal)
        (validate_request-stored m.payload m.request (schema_of c o) (context_of n.pod_id id o)
          valid),
  )
  hand_over-IsSent k c (e ∷ es) settled valid = inl (refl, (_, refl))

  connected-Ends :
      (k : ℕ) (connection : Settled (Map Text (Option Schema))) (settled : Settled A)
      → Ends m k (
          connected n m id o request output later
            (record nothing { listeners = k })
            connection
            settled)
  unfolding connected
  connected-Ends k (rejected e) settled = failing k [] e
  connected-Ends k (resolved c) settled = hand_over-Ends k c _ settled

  connected-IsSent :
      (k : ℕ) (connection : Settled (Map Text (Option Schema))) (settled : Settled A)
      → IsSent n m id request o connection (
          connected n m id o request output later
            (record nothing { listeners = k })
            connection
            settled)
  unfolding connected fail_with answer
  connected-IsSent k (rejected e) settled = inl (refl, (_, refl))
  connected-IsSent k (resolved c) settled = hand_over-IsSent k c _ settled refl

refuse-sent : (m : Message) (e : Text) → (refuse m e).sent ≡ []
unfolding refuse answer
refuse-sent m e = refl

module _ (n : Node) (m : Message) (id : String) (o : Operation) where
  call_own : (c : Map Text (Option Schema)) (a : Answer) → (call_output n m id o c a).original ≡ m
  unfolding call_output
  call_own c a = refl

  call_fine : (c : Map Text (Option Schema)) (a : Answer) → (call_output n m id o c a).error ≡ none
  unfolding call_output
  call_fine c a = refl

  call_payload : (now : ℕ) → (call_request n m id o now).payload ≡ m.payload
  unfolding call_request
  call_payload now = refl

  call_normal : (now : ℕ) → (call_request n m id o now).request ≡ normalize_request m.request
  unfolding call_request
  call_normal now = refl

  event_own : (c : Map Text (Option Schema)) → (event_output n m id o c).original ≡ m
  unfolding event_output
  event_own c = refl

  event_fine : (c : Map Text (Option Schema)) → (event_output n m id o c).error ≡ none
  unfolding event_output
  event_fine c = refl

  event_payload : (event_request n m id o).payload ≡ m.payload
  unfolding event_request
  event_payload = refl

  event_normal : (event_request n m id o).request ≡ normalize_request m.request
  unfolding event_request
  event_normal = refl

refuse-Ends : (m : Message) (e : Text) → Ends m 0 (refuse m e)
unfolding refuse answer error_message
refuse-Ends m e = ((failed, _, refl, refl, refl), refl, refl)

-- What both nodes do with a message: it is answered, and a request is sent that the operation and the
-- gateway admit.
abbrev pub Handles :
    Node
    → Message
    → String
    → (Operation → Sent)
    → Settled (Map Text (Option Schema))
    → Trace
    → Type 0
Handles n m id request connection t =
    IsAnswered m t
    × (((e : Text) × (operation_from_node n.operation m ≡ throws e) × (t.sent ≡ []))
        ⊎ ((o : Operation) × (operation_from_node n.operation m ≡ ok o)
            × IsSent n m id (request o) o connection t))

pub inputs-Handles :
    (n : Node) (m : Message) (id : String) (now : ℕ)
    (connection : Settled (Map Text (Option Schema))) (settled : Settled Answer)
    (later : Map Text (Option Schema))
    → Handles n m id
        (λ o. call_request n m id o now)
        connection
        (call_input n m id now connection settled later)
      × Handles n m id
          (event_request n m id)
          connection
          (event_input n m id connection settled later)
unfolding call_input event_input
inputs-Handles n m id now connection settled later =
    elim (Result-cases (operation_from_node n.operation m)) [
      | inl (e, h) ↦
          rw (h, call_input, event_input)
            (
              (refuse-Ends m e, inl (e, refl, refuse-sent m e)),
              (refuse-Ends m e, inl (e, refl, refuse-sent m e)),
            )
      | inr (o, h) ↦
          rw (h, call_input, event_input)
            (
              let ends =
                    connected-Ends n m id o (call_request n m id o now) (call_output n m id o) later
                      (λ c a. call_own n m id o c a) (λ c a. call_fine n m id o c a)
                      (call_payload n m id o now) (call_normal n m id o now) 1 connection settled in
                  let sent =
                    connected-IsSent n m id o (call_request n m id o now) (call_output n m id o)
                      later (λ c a. call_own n m id o c a) (λ c a. call_fine n m id o c a)
                      (call_payload n m id o now) (call_normal n m id o now) 1 connection settled in
                  ((ends.0, ends.1, ap (λ l. l - 1) ends.2), inr (o, refl, sent)),
              (
                connected-Ends n m id o (event_request n m id o) (λ c a. event_output n m id o c)
                    later (λ c a. event_own n m id o c) (λ c a. event_fine n m id o c)
                    (event_payload n m id o) (event_normal n m id o) 0 connection settled,
                inr (
                  o,
                  refl,
                  connected-IsSent n m id o (event_request n m id o)
                      (λ c a. event_output n m id o c) later (λ c a. event_own n m id o c)
                      (λ c a. event_fine n m id o c) (event_payload n m id o)
                      (event_normal n m id o) 0 connection settled,
                ),
              ),
            )
    ]
