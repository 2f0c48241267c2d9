-- ===== src/Gateway/Receive/Admission.antt =====
-- Which frames reach the queue: `_message`.
use node_red_contrib_pod_gat.Prelude.{
  ℕ, ◌≡◌, refl, Bool, true, false, Option, none, some, String, string_eq, nat_eq, ◌==◌, ltb, Text,
  if◌then◌else◌, Bool-cases, inl, inr,
}
use node_red_contrib_pod_gat.Result.{ok, >>=-eq-ok}
use node_red_contrib_pod_gat.Protocol.{Operation, parse_operation}
use node_red_contrib_pod_gat.Protocol.Envelope.{is_request, validate_envelope}
use node_red_contrib_pod_gat.Gateway.Types.{Gateway, Connection, Message, Parsed}
use node_red_contrib_pod_gat.Gateway.Receive.{kind_is, dispatch, parsed, receive}
use node_red_contrib_pod_gat.Gateway.Core.{core}
use node_red_contrib_pod_gat.Gateway.Core.Frames.{core-post, core-hello}

core-if :
    (b : Bool) (d g h : Gateway)
    → core g ≡ core d
    → core h ≡ core d
    → core (if b then g else h) ≡ core d
core-if true d g h e f = e
core-if false d g h e f = f

-- The rest of `_message` is not reached before a connection is authenticated.
dispatch-inert :
    (g : Gateway) (now ws : ℕ) (c : Connection) (m : Message)
    → c.authenticated ≡ false
    → core (dispatch g now ws c m) ≡ core g
unfolding dispatch
dispatch-inert g now ws c m e = core-if (kind_is "hello" m.kind) g _ _ (core-hello g ws c m) (
    core-if (kind_is "heartbeat" m.kind) g _ _ (core-post g ws _)
      (rw (e, dispatch) (core-post g ws _)))

parsed-inert :
    (g : Gateway) (now ws : ℕ) (c : Connection) (p : Parsed)
    → c.authenticated ≡ false
    → core (parsed g now ws c p) ≡ core g
unfolding parsed
parsed-inert g now ws c Parsed.invalid e = core-post g ws _
parsed-inert g now ws c Parsed.null e = refl
parsed-inert g now ws c (Parsed.message m) e = dispatch-inert g now ws c m e

-- A frame of a connection that is not authenticated changes nothing of the scheduler: no request is
-- queued, started or completed, and no idempotency key is claimed.
pub receive-inert :
    (g : Gateway) (now ws : ℕ) (c : Connection) (bytes : ℕ) (p : Parsed)
    → c.authenticated ≡ false
    → core (receive g now ws c bytes p) ≡ core g
unfolding receive
receive-inert g now ws c bytes p e =
    core-if (ltb g.max_message_bytes bytes) g _ _ (core-post g ws _) (parsed-inert g now ws c p e)

-- What `validateEnvelope` accepts of a call or an event has an operation that `parseOperation` takes
-- and a request ID that is not empty.
pub validate_envelope-ok :
    (kind request_id : Option String) (operation : Option (Text))
    → is_request kind ≡ true
    → validate_envelope kind request_id operation ≡ ok tt
    → ((o : Operation) × (parse_operation operation ≡ ok o))
      × ((id : String) × (request_id ≡ some id) × ((id == "") ≡ false))
unfolding validate_envelope is_request
validate_envelope-ok none request_id operation r h = absurd (cc r)
validate_envelope-ok (some kind) none operation r h = absurd (cc (rw r at h))
validate_envelope-ok (some kind) (some id) operation r h = elim (Bool-cases (id == "")) [
  | inl e ↦ absurd (cc (rw (r, e) at h))
  | inr e ↦
      let (o, p, _) = >>=-eq-ok (parse_operation operation) _ (rw (r, e) at h) in
      ((o, p), (id, refl, e))
]
