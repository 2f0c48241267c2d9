-- ===== src/Nodes/Calling.antt =====
-- The `input` handlers of nodes/gateway-call.js and nodes/gateway-out.js. The shared steps stand first.
use node_red_contrib_pod_gat.Prelude.{
  ℕ, suc, ◌+◌, ◌-◌, false, Option, none, some, List, [], ◌∷◌, String, Text, string_eq, text_eq,
  codes, max, eqb, or_else, if◌then◌else◌,
}
use node_red_contrib_pod_gat.Map.{Map, get}
use node_red_contrib_pod_gat.Result.{ok, throws}
use node_red_contrib_pod_gat.Json.{Value, str, Fields, end, field}
use node_red_contrib_pod_gat.Protocol.{Operation}
use node_red_contrib_pod_gat.Request.{Request, Schema, normalize_request}
use node_red_contrib_pod_gat.Request.Validation.{validate_request}
use node_red_contrib_pod_gat.Gateway.Types.{Failure, truthy}
use node_red_contrib_pod_gat.Gateway.Send.{failure_of}
use node_red_contrib_pod_gat.Gateway.Finish.{method_of}
use node_red_contrib_pod_gat.Gateway.Enqueue.{validation_failure}
use node_red_contrib_pod_gat.Nodes.{
  Message, Output, Port, succeeded, failed, operation_from_node, gateway_meta, error_message,
}

-- The configuration of a node, and the POD of its client. `timeout_ms` is `Number(config.timeout ||
-- 60000)`, or the accept timeout.
pub record Node : Type 0 where
  pub operation : Option Text
  pub priority : Option String
  pub timeout_ms : ℕ
  pub pod_id : String

-- The request that is handed to the client; an event has no deadline.
pub record Sent : Type 0 where
  pub kind : String
  pub request_id : String
  pub operation : Text
  pub payload : Value
  pub request : Request
  pub priority : String
  pub deadline_at : Option ℕ
  pub idempotency_key : String
  pub timeout_ms : ℕ

-- What the client resolves a call with: `result.payload`, and the status code where it finds one.
pub record Answer : Type 0 where
  pub payload : Value
  pub status_code : Option ℕ

-- How a promise of the client is settled.
pub data Settled {ℓ} (A : Type ℓ) : Type ℓ where
  resolved : A → Settled A
  rejected : Failure → Settled A

-- What a handler has done: the outputs, the calls of `done`, the requests handed to the client, and the
-- listeners that it has registered and not removed.
pub record Trace : Type 0 where
  pub outputs : List (Port × Output)
  pub dones : ℕ
  pub sent : List Sent
  pub listeners : ℕ

abbrev pub nothing : Trace
nothing = record { outputs = []; dones = 0; sent = []; listeners = 0 }

-- `client.capabilities?.find(...)?.requestSchema`
abbrev pub schema_of : Map Text (Option Schema) → Operation → Option Schema
schema_of capabilities o = or_else (get capabilities o.value) none

-- `send(...)`, and `done()` behind it.
unfoldable pub answer : Trace → Port → Output → Trace
answer t port output = record t { outputs = (port, output) ∷ t.outputs; dones = suc t.dones }

-- `if (statusCode)`
abbrev pub shown_status : Option ℕ → Option ℕ
shown_status none = none
shown_status (some n) = if eqb n 0 then none else some n

-- The context of `validateRequest`.
abbrev pub context_of : String → String → Operation → Fields
context_of pod_id id o = field (codes "requestId") (str (codes id)) (
    field (codes "podId") (str (codes pod_id))
      (field (codes "service") (str o.service) (field (codes "operation") (str o.operation) end)))

-- An operation that cannot be parsed.
unfoldable pub refuse : Message → Text → Trace
refuse m e = answer nothing failed (
    error_message m (failure_of "" e false)
      (record { request_id = none; operation = none; status = "failed"; http_status = none }))

-- The `catch` of both handlers; `capabilities` are those of the client then.
unfoldable pub fail_with :
    Trace → Message → String → Operation → Map Text (Option Schema) → Failure → Trace
fail_with t m id o capabilities e =
    let output = error_message m e (gateway_meta id o "failed") in
    answer t failed (record output {
      meta = record output.meta { http_status = shown_status e.status };
      envelope = some (record {
        method = method_of (schema_of capabilities o);
        request = normalize_request m.request;
        payload = m.payload;
        status = none;
        status_code = e.status;
        body = e.response_body;
        error = output.error;
      });
    })

abbrev pub keyed : Message → String → String
keyed m id = or_else (truthy m.idempotency_key) id

module _ (n : Node) (m : Message) (id : String) (o : Operation) where
  unfoldable pub call_request : ℕ → Sent
  call_request now = record {
    kind = "call";
    request_id = id;
    operation = o.value;
    payload = m.payload;
    request = normalize_request m.request;
    priority = or_else (truthy n.priority) "normal";
    deadline_at = some (now + max 1 n.timeout_ms);
    idempotency_key = keyed m id;
    timeout_ms = max 1 n.timeout_ms;
  }

  unfoldable pub event_request : Sent
  event_request = record {
    kind = "event";
    request_id = id;
    operation = o.value;
    payload = m.payload;
    request = normalize_request m.request;
    priority = or_else (truthy n.priority) "bulk";
    deadline_at = none;
    idempotency_key = keyed m id;
    timeout_ms = n.timeout_ms;
  }

  unfoldable pub call_output : Map Text (Option Schema) → Answer → Output
  call_output capabilities a = record {
    original = m;
    payload = a.payload;
    error = none;
    meta = record (gateway_meta id o "completed") { http_status = shown_status a.status_code };
    envelope = some (record {
      method = method_of (schema_of capabilities o);
      request = normalize_request m.request;
      payload = m.payload;
      status = none;
      status_code = a.status_code;
      body = some a.payload;
      error = none;
    });
  }

  unfoldable pub event_output : Map Text (Option Schema) → Output
  event_output capabilities = record {
    original = m;
    payload = m.payload;
    error = none;
    meta = gateway_meta id o "accepted";
    envelope = some (record {
      method = method_of (schema_of capabilities o);
      request = normalize_request m.request;
      payload = m.payload;
      status = some "accepted";
      status_code = none;
      body = none;
      error = none;
    });
  }

-- What both handlers do behind `operationFromNode`: connect, validate, and hand the request to the client,
-- which settles it with an `A`. `later` are the capabilities that the `catch` finds.
module _ {A : Type 0} (n : Node) (m : Message) (id : String) (o : Operation) (request : Sent)
    (output : Map Text (Option Schema) → A → Output) (later : Map Text (Option Schema)) where
  unfoldable pub settle : Trace → Map Text (Option Schema) → Settled A → Trace
  settle t capabilities (rejected e) = fail_with t m id o later e
  settle t capabilities (resolved a) = answer t succeeded (output capabilities a)

  unfoldable pub hand_over : Trace → Map Text (Option Schema) → List Text → Settled A → Trace
  hand_over t capabilities (e ∷ es) settled = fail_with t m id o later (validation_failure (e ∷ es))
  hand_over t capabilities [] settled =
      settle (record t { sent = request ∷ t.sent }) capabilities settled

  unfoldable pub connected : Trace → Settled (Map Text (Option Schema)) → Settled A → Trace
  connected t (rejected e) settled = fail_with t m id o later e
  connected t (resolved capabilities) settled =
      hand_over t capabilities
        (validate_request m.payload m.request (schema_of capabilities o) (context_of n.pod_id id o))
        settled

-- The `input` handler of a gateway-call node. Its `finally` removes the listener.
unfoldable pub call_input :
    Node
    → Message
    → String
    → ℕ
    → Settled (Map Text (Option Schema))
    → Settled Answer
    → Map Text (Option Schema)
    → Trace
call_input n m id now connection settled later = elim (operation_from_node n.operation m) [
  | throws e ↦ refuse m e
  | ok o ↦
      let t =
        connected n m id o (call_request n m id o now) (call_output n m id o) later
          (record nothing { listeners = 1 }) connection settled in
      record t { listeners = t.listeners - 1 }
]

-- The `input` handler of a gateway-out node.
unfoldable pub event_input :
    Node
    → Message
    → String
    → Settled (Map Text (Option Schema))
    → Settled Answer
    → Map Text (Option Schema)
    → Trace
event_input n m id connection settled later = elim (operation_from_node n.operation m) [
  | throws e ↦ refuse m e
  | ok o ↦
      connected n m id o (event_request n m id o)
        (λ capabilities a. event_output n m id o capabilities) later nothing connection settled
]
