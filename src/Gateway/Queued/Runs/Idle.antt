-- ===== src/Gateway/Queued/Runs/Idle.antt =====
-- Frames, sockets and replays of a server with a shared queue, and the number of its active handlers.
use node_red_contrib_pod_gat.Prelude.{
  ℕ, ◌≡◌, refl, ap, ◌∙◌, inl, inr, Bool, true, false, not, Option, none, some, List, [], ◌∷◌,
  String, ltb, if◌then◌else◌, nat_eq, text_eq, Option-cases,
}
use node_red_contrib_pod_gat.Result.{Result-cases}
use node_red_contrib_pod_gat.Protocol.{Operation, parse_operation}
use node_red_contrib_pod_gat.Request.Validation.{validate_request}
use node_red_contrib_pod_gat.Protocol.Envelope.{is_request, validate_envelope}
use node_red_contrib_pod_gat.Gateway.Types.{
  Gateway, Adapter, Connection, Item, Message, Parsed, Response,
}
use node_red_contrib_pod_gat.Gateway.Send.{post, emit_metric}
use node_red_contrib_pod_gat.Gateway.Enqueue.{Caller, caller_of, context_of, reserve}
use node_red_contrib_pod_gat.Gateway.Receive.{kind_is}
use node_red_contrib_pod_gat.Gateway.Core.Frames.{core-post, core-hello}
use node_red_contrib_pod_gat.Gateway.Core.Parts.{
  core-reject, core-reject_invalid, core-answer_duplicate,
}
use node_red_contrib_pod_gat.Gateway.Queued.{Backend, Server, send_all, finish_replay}
use node_red_contrib_pod_gat.Gateway.Queued.Outcomes.{Reply-cases}
use node_red_contrib_pod_gat.Gateway.Queued.Requests.{
  Claimed, own, taken, unknown, claim, key_of, release, not_queued, is_queued, push_item, claimed,
  claim_and_push, validated, registered, enqueue,
}
use node_red_contrib_pod_gat.Gateway.Queued.Receive.{request, dispatch, parsed, receive}

module _ (b : Backend) where
  release-active :
      (s : Server b) (item : Item) → (release b s item).gateway.active ≡ s.gateway.active
  unfolding release
  release-active s item = elim (Option-cases (key_of b item.message)) [
    | inl e ↦ rw (e, release) refl
    | inr (key, e) ↦ rw (e, release) refl
  ]

  post-active : (g : Gateway) (ws : ℕ) (m : _) → (post g ws m).active ≡ g.active
  post-active g ws m = ap (λ c. c.active) (core-post g ws m)

  reserve-active :
      (g : Gateway) (key : Option String) (item : Item) → (reserve g key item).active ≡ g.active
  unfolding reserve
  reserve-active g none item = refl
  reserve-active g (some key) item = refl

  push_item-active :
      (s : Server b) (who : Caller) (item : Item)
      → (push_item b s who item).gateway.active ≡ s.gateway.active
  unfolding push_item not_queued is_queued emit_metric
  push_item-active s who item = elim (Reply-cases (b.enqueue s.store item).1) [
    | inl (e, h) ↦
        rw (h, push_item)
          (post-active _ who.ws _ ∙ release-active _ item ∙ reserve-active _ item.dedup_key item)
    | inr (id, h) ↦
        rw (h, push_item) (post-active _ who.ws _ ∙ reserve-active _ item.dedup_key item)
  ]

  claimed-active :
      (now : ℕ) (who : Caller) (id : String) (o : Operation) (a : Adapter) (m : Message)
      (x : Server b × Claimed)
      → (claimed b now who id o a m x).gateway.active ≡ x.0.gateway.active
  unfolding claimed
  claimed-active now who id o a m (s, own) = push_item-active s who _
  claimed-active now who id o a m (s, taken d) =
      ap (λ c. c.active) (core-answer_duplicate s.gateway who id o d)
  claimed-active now who id o a m (s, unknown e) =
      ap (λ c. c.active) (core-reject s.gateway who id o "IDEMPOTENCY_UNAVAILABLE" e.message true)

  claim-active :
      (s : Server b) (pod : String) (key : Option String) (id : String)
      → (claim b s pod key id).0.gateway.active ≡ s.gateway.active
  unfolding claim
  claim-active s pod none id = refl
  claim-active s pod (some key) id = refl

  registered-active :
      (s : Server b) (now : ℕ) (who : Caller) (id : String) (o : Operation) (a : Option Adapter)
      (m : Message)
      → (registered b s now who id o a m).gateway.active ≡ s.gateway.active
  unfolding registered validated claim_and_push
  registered-active s now who id o none m =
      ap (λ c. c.active) (core-reject s.gateway who id o _ _ _)
  registered-active s now who id o (some a) m =
      elim (validate_request m.payload m.request a.request_schema (context_of who id o))
        as (λ es. (validated b s now who id o a m es).gateway.active ≡ s.gateway.active) [
          | [] ↦
              claimed-active now who id o a m (claim b s who.pod_id (key_of b m) id)
              ∙ claim-active s who.pod_id (key_of b m) id
          | (e ∷ es) ↦
              ap (λ c. c.active)
                (core-reject_invalid s.gateway who id o a.request_schema m (e ∷ es))
        ]

  pub enqueue-active :
      (s : Server b) (now : ℕ) (who : Caller) (m : Message)
      → (enqueue b s now who m).gateway.active ≡ s.gateway.active
  unfolding enqueue
  enqueue-active s now who m = elim (Result-cases (parse_operation m.operation)) [
    | inl (e, h) ↦ rw (h, enqueue) refl
    | inr (o, h) ↦ rw (h, enqueue) (registered-active s now who _ o _ m)
  ]

  request-active :
      (s : Server b) (now ws : ℕ) (c : Connection) (m : Message)
      → (request b s now ws c m).gateway.active ≡ s.gateway.active
  unfolding request
  request-active s now ws c m =
      elim (Result-cases (validate_envelope m.kind m.request_id m.operation)) [
        | inl (e, h) ↦ rw (h, request) (post-active s.gateway ws _)
        | inr (o, h) ↦ rw (h, request) (enqueue-active s now (caller_of ws c) m)
      ]

  if-active :
      (n : ℕ) (t : Bool) (x y : Server b)
      → x.gateway.active ≡ n
      → y.gateway.active ≡ n
      → (if t then x else y).gateway.active ≡ n
  if-active n true x y h k = h
  if-active n false x y h k = k

  dispatch-active :
      (s : Server b) (now ws : ℕ) (c : Connection) (m : Message)
      → (dispatch b s now ws c m).gateway.active ≡ s.gateway.active
  unfolding dispatch
  dispatch-active s now ws c m =
      let n = s.gateway.active in
      if-active n (kind_is "hello" m.kind) _ _ (ap (λ k. k.active) (core-hello s.gateway ws c m)) (
        if-active n (kind_is "heartbeat" m.kind) _ _ (post-active s.gateway ws _) (
          if-active n (not c.authenticated) _ _ (post-active s.gateway ws _) (
            if-active n (not (is_request m.kind)) _ _ (post-active s.gateway ws _)
              (request-active s now ws c m))))

  -- A frame starts no handler and ends none.
  pub receive-active :
      (s : Server b) (now ws : ℕ) (c : Connection) (bytes : ℕ) (p : Parsed)
      → (receive b s now ws c bytes p).gateway.active ≡ s.gateway.active
  unfolding receive
  receive-active s now ws c bytes p =
      if-active s.gateway.active (ltb s.gateway.max_message_bytes bytes) _ _
        (post-active s.gateway ws _) (by_frame p)
    where
      by_frame : (p : Parsed) → (parsed b s now ws c p).gateway.active ≡ s.gateway.active
      by_frame Parsed.invalid = unfold parsed in post-active s.gateway ws _
      by_frame Parsed.null = unfold parsed in refl
      by_frame (Parsed.message m) = unfold parsed in dispatch-active s now ws c m

  send_all-active :
      (ws : ℕ) (rs : List Response) (g : Gateway) → (send_all b ws rs g).active ≡ g.active
  unfolding send_all
  send_all-active ws [] g = refl
  send_all-active ws (r ∷ rs) g = send_all-active ws rs _ ∙ post-active g ws _

  pub finish_replay-active :
      (s : Server b) (ws : ℕ) (pod : String) (found : b.Found)
      → (finish_replay b s ws pod found).gateway.active ≡ s.gateway.active
  unfolding finish_replay
  finish_replay-active s ws pod found =
      elim (Reply-cases (b.drop_pending_results s.store pod found).1) [
        | inl (e, h) ↦ rw (h, finish_replay) refl
        | inr (rs, h) ↦ rw (h, finish_replay) (send_all-active ws rs s.gateway)
      ]
