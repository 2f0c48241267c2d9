-- ===== src/Gateway/Connect.antt =====
-- `_connection`, `_hello`, `_replayPending` and `_disconnect`.
use node_red_contrib_pod_gat.Prelude.{
  ℕ, Bool, true, false, not, Option, none, some, List, [], ◌∷◌, ◌++◌, String, Text, string_eq,
  nat_eq, ◌==◌, codes, nonempty, is_some, or_else, if◌then◌else◌,
}
use node_red_contrib_pod_gat.Map.{get, set, delete, values}
use node_red_contrib_pod_gat.Protocol.{protocol_version}
use node_red_contrib_pod_gat.Gateway.Types.{
  Gateway, Connection, Message, Response, hello_error, hello_ack, result, truthy,
}
use node_red_contrib_pod_gat.Gateway.Send.{post, capability_list}

-- `_connection`, of a socket that has no connection yet.
unfoldable pub connect : Gateway → ℕ → String → Bool → Gateway
connect g ws connection_id sends = if is_some (get g.objects ws) then g else record g {
  objects = set g.objects ws (record {
    connection_id = connection_id;
    authenticated = false;
    pod_id = none;
    instance_id = none;
    ready = true;
    sends = sends;
  });
  connections = g.connections ++ ws ∷ [];
}

unfoldable pub post_all : Gateway → ℕ → List Response → Gateway
post_all g ws [] = g
post_all g ws (r ∷ rs) = post_all (post g ws (result r)) ws rs

-- `_replayPending`: every kept result of the POD is sent, whether or not the socket takes it, and
-- the POD's entry is dropped.
unfoldable pub replay_pending : Gateway → ℕ → String → Gateway
replay_pending g ws pod_id = elim (get g.pending_results pod_id) [
  | none ↦ g
  | some pending ↦
      let sent = post_all g ws (values pending) in
      record sent { pending_results = delete sent.pending_results pod_id }
]

unfoldable pub other_version : Option String → Bool
other_version none = false
other_version (some v) = not (v == protocol_version)

-- `_hello` up to the call of `authenticate`.
unfoldable pub hello : Gateway → ℕ → Connection → Message → Gateway
hello g ws c m =
    if c.authenticated
    then g
    else if other_version (truthy m.protocol_version)
    then post g ws (hello_error "UNSUPPORTED_PROTOCOL" (codes "Supported protocol is 1.0"))
    else record g { handshakes = (ws, m) ∷ g.handshakes }

-- What `authenticate` does with a `hello`: it accepts it, or it refuses or throws, with the code
-- and the message of the error.
pub data Verdict : Type 0 where
  accepts : Verdict
  refuses : Option String → Text → Verdict

unfoldable pub refuse : Gateway → ℕ → Connection → Option String → Text → Gateway
refuse g ws c code message =
    let told = post g ws (
      hello_error (or_else (truthy code) "AUTH_FAILED")
        (if nonempty message then message else codes "Gateway request failed")) in
    record told { objects = set told.objects ws (record c { ready = false }) }

unfoldable pub welcome : Gateway → ℕ → Connection → String → Option String → Gateway
welcome g ws c pod_id instance_id =
    let known = record g {
      objects = set g.objects ws (record c {
        authenticated = true;
        pod_id = some pod_id;
        instance_id = some (or_else (truthy instance_id) pod_id);
      });
      connections_by_pod = set g.connections_by_pod pod_id ws;
    } in
    replay_pending (post known ws (hello_ack c.connection_id (capability_list g.adapters))) ws
      pod_id

-- `_hello` behind the `await` of `authenticate`.
unfoldable pub authenticated : Gateway → ℕ → Connection → Message → Verdict → Gateway
authenticated g ws c m (refuses code message) = refuse g ws c code message
authenticated g ws c m accepts = elim (truthy m.pod_id) [
  | none ↦ post g ws (hello_error "POD_ID_MISSING" (codes "podId is required"))
  | some pod_id ↦ welcome g ws c pod_id m.instance_id
]

unfoldable pub remove : ℕ → List ℕ → List ℕ
remove ws [] = []
remove ws (x ∷ xs) = let rest = remove ws xs in if x == ws then rest else x ∷ rest

unfoldable pub is_current : Gateway → ℕ → Option String → Bool
is_current g ws none = false
is_current g ws (some pod_id) = elim (get g.connections_by_pod pod_id) [
  | none ↦ false
  | some other ↦ other == ws
]

-- `_disconnect`, on the socket's `close` event.
unfoldable pub disconnect : Gateway → ℕ → Connection → Gateway
disconnect g ws c = record g {
  objects = set g.objects ws (record c { ready = false });
  connections = remove ws g.connections;
  connections_by_pod =
      if is_current g ws c.pod_id
      then delete g.connections_by_pod (or_else c.pod_id "")
      else g.connections_by_pod;
}
