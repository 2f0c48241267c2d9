-- ===== src/Gateway/Core/Frames.antt =====
-- What the parts of the gateway's handlers do to the scheduler.
use node_red_contrib_pod_gat.Prelude.{
  ℕ, ◌≡◌, refl, ◌∙◌, inl, inr, Bool, false, Option, none, some, List, [], ◌∷◌, codes, ap, String,
  Text, arith, Bool-cases, Option-cases,
}
use node_red_contrib_pod_gat.Map.{get, values}
use node_red_contrib_pod_gat.Prelude.{string_eq}
use node_red_contrib_pod_gat.Gateway.Types.{
  truthy, Gateway, Item, Connection, Message, Response, Outgoing, Capability, Adapter,
}
use node_red_contrib_pod_gat.Gateway.Send.{
  send, post, broadcast_to, broadcast_capabilities, register_operation, unregister_operation,
  emit_metric, capability_list,
}
use node_red_contrib_pod_gat.Gateway.Finish.{
  Ending, store_pending, deliver_response, settle_idempotency, build_response, finish, send_to,
  find_connection,
}
use node_red_contrib_pod_gat.Gateway.Connect.{
  connect, post_all, replay_pending, hello, refuse, welcome, Verdict, accepts, refuses,
  authenticated, disconnect,
}
use node_red_contrib_pod_gat.Gateway.Core.{Core, core, done, release}

pub core-post : (g : Gateway) (ws : ℕ) (m : Outgoing) → core (post g ws m) ≡ core g
unfolding post send
core-post g ws m = ground arith

core-broadcast_to :
    (wss : List ℕ) (items : List Capability) (g : Gateway)
    → core (broadcast_to wss items g) ≡ core g
unfolding broadcast_to
core-broadcast_to [] items g = refl
core-broadcast_to (ws ∷ wss) items g = ground (
  arith,
  core-post g ws (Outgoing.capabilities items),
  core-broadcast_to wss items g,
  core-broadcast_to wss items (post g ws (Outgoing.capabilities items)),
)

pub core-broadcast_capabilities : (g : Gateway) → core (broadcast_capabilities g) ≡ core g
unfolding broadcast_capabilities
core-broadcast_capabilities g = ground (
  arith,
  core-broadcast_to g.connections (capability_list g.adapters)
      (record g { broadcast_pending = false }),
)

pub core-post_all : (g : Gateway) (ws : ℕ) (rs : List Response) → core (post_all g ws rs) ≡ core g
unfolding post_all
core-post_all g ws [] = refl
core-post_all g ws (r ∷ rs) =
    core-post_all (post g ws (Outgoing.result r)) ws rs ∙ core-post g ws (Outgoing.result r)

pub core-replay_pending :
    (g : Gateway) (ws : ℕ) (pod : String) → core (replay_pending g ws pod) ≡ core g
unfolding replay_pending
core-replay_pending g ws pod = elim (Option-cases (get g.pending_results pod)) [
  | inl e ↦ rw (e, replay_pending)
  | inr (m, e) ↦ rw (e, replay_pending) (core-post_all g ws (values m))
]

pub core-connect :
    (g : Gateway) (ws : ℕ) (id : String) (sends : Bool) → core (connect g ws id sends) ≡ core g
unfolding connect
core-connect g ws id sends = ground arith

pub core-hello :
    (g : Gateway) (ws : ℕ) (c : Connection) (m : Message) → core (hello g ws c m) ≡ core g
unfolding hello
core-hello g ws c m = ground (
  arith,
  core-post g ws (Outgoing.hello_error "UNSUPPORTED_PROTOCOL" (codes "Supported protocol is 1.0")),
)

core-welcome :
    (g : Gateway) (ws : ℕ) (c : Connection) (pod : String) (instance_id : Option String)
    → core (welcome g ws c pod instance_id) ≡ core g
unfolding welcome
core-welcome g ws c pod instance_id = core-replay_pending _ _ _ ∙ core-post _ _ _

pub core-authenticated :
    (g : Gateway) (ws : ℕ) (c : Connection) (m : Message) (v : Verdict)
    → core (authenticated g ws c m v) ≡ core g
unfolding authenticated
core-authenticated g ws c m (refuses code message) = unfold refuse in core-post _ _ _
core-authenticated g ws c m accepts = elim (Option-cases (truthy m.pod_id)) [
  | inl e ↦ rw (e, authenticated) (core-post _ _ _)
  | inr (pod, e) ↦ rw (e, authenticated) (core-welcome g ws c pod m.instance_id)
]

pub core-disconnect : (g : Gateway) (ws : ℕ) (c : Connection) → core (disconnect g ws c) ≡ core g
unfolding disconnect
core-disconnect g ws c = refl

pub core-register_operation :
    (g : Gateway) (t : Text) (a : Adapter) → core (register_operation g t a) ≡ core g
unfolding register_operation
core-register_operation g t a = ground arith

pub core-unregister_operation :
    (g : Gateway) (t : Text) → core (unregister_operation g t).0 ≡ core g
unfolding unregister_operation
core-unregister_operation g t = ground arith

core-send_to : (g : Gateway) (ws : Option ℕ) (r : Response) → core (send_to g ws r).0 ≡ core g
unfolding send_to send
core-send_to g none r = refl
core-send_to g (some ws) r = ground arith

core-store_pending :
    (g : Gateway) (pod id : String) (r : Response) → core (store_pending g pod id r) ≡ core g
unfolding store_pending
core-store_pending g pod id r = refl

core-settle_idempotency :
    (g : Gateway) (now : ℕ) (key : Option String) (r : Response)
    → core (settle_idempotency g now key r)
      ≡ record (core g) { claims = release g.inflight_idempotency key }
unfolding settle_idempotency
core-settle_idempotency g now none r = refl
core-settle_idempotency g now (some key) r = refl

core-deliver_response :
    (g : Gateway) (item : Item) (r : Response) → core (deliver_response g item r).0 ≡ core g
unfolding deliver_response
core-deliver_response g item r =
    let sent = send_to g (find_connection g item) r in
    let unsent = core-send_to g (find_connection g item) r in
    elim (Bool-cases sent.1) [
      | inl e ↦ rw (e, deliver_response) unsent
      | inr e ↦ rw (e, deliver_response) (core-store_pending g item.pod_id item.request_id r)
    ]

-- Whatever becomes of the response, `_finish` completes the item once and frees its key.
pub core-finish :
    (g : Gateway) (now : ℕ) (item : Item) (e : Ending) (status : Option ℕ)
    → core (finish g now item e status) ≡ done item (core g)
unfolding finish emit_metric
core-finish g now item e status =
    let r = build_response now item e status in
    let settled = settle_idempotency g now item.dedup_key r in
    ap (λ (c : Core). record c { completed = item.serial ∷ c.completed })
      (core-deliver_response settled item r ∙ core-settle_idempotency g now item.dedup_key r)
