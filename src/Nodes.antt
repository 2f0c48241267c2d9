-- ===== src/Nodes.antt =====
-- The Node-RED nodes of a flow: what lib/node-utils.js, nodes/gateway-call.js and nodes/gateway-out.js do
-- with a message. Node-RED and the client are not modelled: what `connect`, `request` and `send` of the
-- client come to is an input. The fields of a message that the nodes do not read are left out.
pub mod Calling
pub mod Answers
pub mod Listening
pub mod Upstream
mod Examples
use node_red_contrib_pod_gat.Prelude.{
  ℕ, Bool, true, false, Option, none, some, List, [], ◌∷◌, String, Text, string_eq, ◌==◌, codes,
  nonempty, if◌then◌else◌,
}
use node_red_contrib_pod_gat.Result.{Result, ok, throws}
use node_red_contrib_pod_gat.Json.{Value, Fields}
use node_red_contrib_pod_gat.Protocol.{Operation, parse_operation}
use node_red_contrib_pod_gat.Request.{Request, Schema}
use node_red_contrib_pod_gat.Gateway.Types.{Failure, ErrorPayload}
use node_red_contrib_pod_gat.Gateway.Send.{failure_of, error_payload}

-- `msg`: its payload, `_request`, and of `gateway` the operation and the idempotency key.
pub record Message : Type 0 where
  pub payload : Value
  pub request : Option Value
  pub operation : Option Text
  pub idempotency_key : Option String

-- What a node sets in `gateway`. The status code is `httpStatus`, where it is not 0.
pub record Meta : Type 0 where
  pub request_id : Option String
  pub operation : Option Operation
  pub status : String
  pub http_status : Option ℕ

-- The `_request` of an output: its `input`, then its `output`.
pub record Envelope : Type 0 where
  pub method : Option Text
  pub request : Request
  pub payload : Value
  pub status : Option String
  pub status_code : Option ℕ
  pub body : Option Value
  pub error : Option ErrorPayload

-- A message that a node sends: a clone of its input with what the node sets.
pub record Output : Type 0 where
  pub original : Message
  pub payload : Value
  pub error : Option ErrorPayload
  pub meta : Meta
  pub envelope : Option Envelope

-- The two wires of a node.
pub data Port : Type 0 where
  succeeded failed : Port

-- `node.operation || msg?.gateway?.operation`
abbrev pub chosen_operation : Option Text → Option Text → Option Text
chosen_operation none other = other
chosen_operation (some t) other = if nonempty t then some t else other

-- `operationFromNode`
unfoldable pub operation_from_node : Option Text → Message → Result Operation
operation_from_node configured m = parse_operation (chosen_operation configured m.operation)

-- `gatewayMeta`
unfoldable pub gateway_meta : String → Operation → String → Meta
gateway_meta id o status = record {
  request_id = some id;
  operation = some o;
  status = status;
  http_status = none;
}

-- `errorMessage`
unfoldable pub error_message : Message → Failure → Meta → Output
error_message m e meta = record {
  original = m;
  payload = m.payload;
  error = some (error_payload e);
  meta = record meta { status = "failed" };
  envelope = none;
}
