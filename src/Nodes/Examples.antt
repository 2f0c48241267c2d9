-- ===== src/Nodes/Examples.antt =====
-- The theorem about the nodes, applied to a call whose connection fails.
use node_red_contrib_pod_gat.Prelude.{true, none, some, [], codes}
use node_red_contrib_pod_gat.Json.{null}
use node_red_contrib_pod_gat.Gateway.Send.{failure_of}
use node_red_contrib_pod_gat.Nodes.{Message}
use node_red_contrib_pod_gat.Nodes.Calling.{
  Node, resolved, rejected, call_input, event_input, call_request, event_request,
}
use node_red_contrib_pod_gat.Nodes.Answers.{Handles, inputs-Handles}

abbrev node : Node
node = record {
  operation = some (codes "crm/find");
  priority = none;
  timeout_ms = 60000;
  pod_id = "p1";
}

abbrev message : Message
message = record { payload = null; request = none; operation = none; idempotency_key = none }

inputs-Handles_example :
    Handles node message "r1"
      (λ o. call_request node message "r1" o 5)
      (resolved [])
      (call_input node message "r1" 5
        (resolved [])
        (rejected (failure_of "DEADLINE_EXCEEDED" (codes "Gateway call deadline exceeded") true))
        [])
    × Handles node message "r1" (event_request node message "r1") (resolved []) (
        event_input node message "r1"
          (resolved [])
          (rejected (failure_of "DEADLINE_EXCEEDED" (codes "Gateway call deadline exceeded") true))
          [])
inputs-Handles_example =
    inputs-Handles node message "r1" 5 (resolved [])
      (rejected (failure_of "DEADLINE_EXCEEDED" (codes "Gateway call deadline exceeded") true)) []
