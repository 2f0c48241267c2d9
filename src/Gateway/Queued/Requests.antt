-- ===== src/Gateway/Queued/Requests.antt =====
-- `_enqueue`, `_claimIdempotency` and `_releaseIdempotency` of a server with a shared queue. A command
-- of the queue and what follows its answer are one step. A duplicate that has no request ID is shown
-- with an empty one.
use node_red_contrib_pod_gat.Prelude.{
  ℕ, suc, true, false, Option, none, some, List, [], ◌∷◌, ◌++◌, String, Text, string_eq, text_eq,
  ◌==◌, codes, or_else, if◌then◌else◌,
}
use node_red_contrib_pod_gat.Map.{get, delete}
use node_red_contrib_pod_gat.Result.{ok, throws}
use node_red_contrib_pod_gat.Protocol.{Operation, parse_operation}
use node_red_contrib_pod_gat.Request.Validation.{validate_request}
use node_red_contrib_pod_gat.Gateway.Types.{
  Message, Adapter, Item, Response, Failure, failed, queued, truthy,
}
use node_red_contrib_pod_gat.Gateway.Send.{post, emit_metric, item_metric}
use node_red_contrib_pod_gat.Gateway.Finish.{Duplicate}
use node_red_contrib_pod_gat.Gateway.Enqueue.{
  Caller, reject, reject_invalid, context_of, dedup_key_of, answer_duplicate, new_item, reserve,
}
use node_red_contrib_pod_gat.StreamQueue.Store.{Reply, replied}
use node_red_contrib_pod_gat.StreamQueue.Records.{Claim}
use node_red_contrib_pod_gat.Gateway.Queued.{Backend, Server}

-- What the claim of a request came to: it may go on, another request has the key, or it is not known.
pub data Claimed : Type 0 where
  own : Claimed
  taken : Duplicate → Claimed
  unknown : Failure → Claimed

abbrev pub claimed_as : Reply (Claim Response) → Claimed
claimed_as (Reply.failed e) = unknown e
claimed_as (replied c) =
    if c.claimed
    then own
    else taken (record { request_id = or_else c.request_id ""; response = c.response })

abbrev pub error_code : Failure → String
error_code e = if e.code == "" then "QUEUE_UNAVAILABLE" else e.code

module _ (b : Backend) where
  -- The key of a request, where it has one.
  abbrev pub key_of : Message → Option String
  key_of m = truthy m.idempotency_key

  -- `_claimIdempotency`
  unfoldable pub claim : Server b → String → Option String → String → Server b × Claimed
  claim s pod none id = (s, own)
  claim s pod (some key) id =
      let (store, reply) = b.claim_idempotency s.store pod key id in
      (record s { store = store }, claimed_as reply)

  -- `_releaseIdempotency`, whose error is ignored, and `inflightIdempotency.delete`.
  unfoldable pub release : Server b → Item → Server b
  release s item = elim (key_of item.message) [
    | none ↦ s
    | some key ↦ record s {
      gateway = record s.gateway {
        inflight_idempotency = delete s.gateway.inflight_idempotency (or_else item.dedup_key "");
      };
      store = (b.release_idempotency s.store item.pod_id key item.request_id).0;
    }
  ]

  -- The entry could not be added.
  unfoldable pub not_queued : Server b → Caller → Item → Failure → Server b
  not_queued s who item e =
      let freed = release s item in
      record freed {
        gateway =
            post (emit_metric freed.gateway (item_metric "request.rejected" item (error_code e)))
              who.ws (failed (some item.request_id) (error_code e) e.message true);
      }

  unfoldable pub is_queued : Server b → Caller → Item → ℕ → Server b
  is_queued s who item id = record s {
    gateway =
        post (emit_metric s.gateway (item_metric "request.accepted" item "")) who.ws
          (queued item.request_id id);
  }

  unfoldable pub push_item : Server b → Caller → Item → Server b
  push_item s who item =
      let received = emit_metric s.gateway (item_metric "request.received" item "") in
      let reserved = reserve received item.dedup_key item in
      let (store, reply) = b.enqueue s.store item in
      let after : Server b = record {
        gateway = record reserved { next_serial = suc s.gateway.next_serial };
        store = store;
      } in
      elim reply [
        | Reply.failed e ↦ not_queued after who item e
        | replied id ↦ is_queued after who item id
      ]

  -- The request behind its claim.
  unfoldable pub claimed :
      ℕ → Caller → String → Operation → Adapter → Message → Server b × Claimed → Server b
  claimed now who id o a m (s, own) =
      push_item s who
        (new_item s.gateway now who id o a m (dedup_key_of who.pod_id m.idempotency_key))
  claimed now who id o a m (s, taken d) = record s {
    gateway = answer_duplicate s.gateway who id o d;
  }
  claimed now who id o a m (s, unknown e) = record s {
    gateway = reject s.gateway who id o "IDEMPOTENCY_UNAVAILABLE" e.message true;
  }

  unfoldable pub claim_and_push :
      Server b → ℕ → Caller → String → Operation → Adapter → Message → Server b
  claim_and_push s now who id o a m = claimed now who id o a m (claim s who.pod_id (key_of m) id)

  unfoldable pub validated :
      Server b → ℕ → Caller → String → Operation → Adapter → Message → List Text → Server b
  validated s now who id o a m (e ∷ es) = record s {
    gateway = reject_invalid s.gateway who id o a.request_schema m (e ∷ es);
  }
  validated s now who id o a m [] = claim_and_push s now who id o a m

  unfoldable pub registered :
      Server b → ℕ → Caller → String → Operation → Option Adapter → Message → Server b
  registered s now who id o none m = record s {
    gateway =
        reject s.gateway who id o "OPERATION_NOT_FOUND"
          (codes "Operation is not registered: " ++ o.value) false;
  }
  registered s now who id o (some a) m =
      validated s now who id o a m
        (validate_request m.payload m.request a.request_schema (context_of who id o))

  unfoldable pub enqueue : Server b → ℕ → Caller → Message → Server b
  enqueue s now who m = elim (parse_operation m.operation) [
    | throws e ↦ record s { gateway = record s.gateway { unhandled = suc s.gateway.unhandled } }
    | ok o ↦ registered s now who (or_else m.request_id "") o (get s.gateway.adapters o.value) m
  ]
