-- ===== src/Gateway/Queued.antt =====
-- lib/gateway-server.js with a queue that other gateways share: the calls it makes of the queue, and
-- `_finish`, `_deliverResponse`, `_storePending` and `_replayPending` as they use it.
pub mod Handling
pub mod Outcomes
pub mod Endings
pub mod Requests
pub mod Receive
pub mod Runs
pub mod Redis
pub mod Answers
pub mod Admission
mod Examples
use node_red_contrib_pod_gat.Prelude.{
  ℕ, ◌≡◌, Bool, true, false, Option, none, some, List, [], ◌∷◌, String, string_eq, if◌then◌else◌,
}
use node_red_contrib_pod_gat.Map.{set, delete}
use node_red_contrib_pod_gat.Gateway.Types.{Gateway, Item, Response, Metric, truthy, result}
use node_red_contrib_pod_gat.Gateway.Send.{post, emit_metric, item_metric}
use node_red_contrib_pod_gat.Gateway.Finish.{
  Ending, ending_code, build_response, find_connection, send_to,
}
use node_red_contrib_pod_gat.StreamQueue.Store.{Reply, failed, replied}
use node_red_contrib_pod_gat.StreamQueue.Records.{Entry, Claim}

-- The queue object: what it keeps, and its methods, with the time where they read the clock.
-- `is_scheduled` and `pending` are what a later retry and a later connection would find, `entries` what
-- waits to be acknowledged. `takePendingResults` has two steps: `Found` is what the first one has read.
pub record Backend : Type 1 where
  pub Store : Type 0
  pub Entries : Type 0
  pub Found : Type 0
  pub enqueue : Store → Item → Store × Reply ℕ
  pub schedule_retry : Store → Item → ℕ → ℕ → Store × Reply ℕ
  pub claim_idempotency : Store → String → String → String → Store × Reply (Claim Response)
  pub release_idempotency : Store → String → String → String → Store × Reply Bool
  pub store_idempotency_result : Store → String → Option String → Response → Store
  pub get_idempotency_result : Store → String → String → Reply (Option (Entry Response))
  pub store_pending_result : Store → String → Response → Store × Reply Bool
  pub read_pending_results : Store → String → Reply Found
  pub drop_pending_results : Store → String → Found → Store × Reply (List Response)
  pub is_scheduled : Store → Item → Bool
  pub pending : Store → String → String → Option Response
  pub entries : Store → Entries

-- What the server relies on: a retry that was answered is there, and so is a result that was stored,
-- and neither touches the entries.
pub record BackendLaws (b : Backend) : Type 0 where
  pub schedule-is_scheduled :
      (s : b.Store) (item : Item) (wait now at : ℕ)
      → (b.schedule_retry s item wait now).1 ≡ replied at
      → b.is_scheduled (b.schedule_retry s item wait now).0 item ≡ true
  pub store-pending :
      (s : b.Store) (pod : String) (r : Response) (done : Bool)
      → (b.store_pending_result s pod r).1 ≡ replied done
      → b.pending (b.store_pending_result s pod r).0 pod r.request_id ≡ some r
  pub schedule-entries :
      (s : b.Store) (item : Item) (wait now : ℕ)
      → b.entries (b.schedule_retry s item wait now).0 ≡ b.entries s
  pub store-entries :
      (s : b.Store) (pod : String) (r : Response)
      → b.entries (b.store_pending_result s pod r).0 ≡ b.entries s
  pub record-entries :
      (s : b.Store) (pod : String) (key : Option String) (r : Response)
      → b.entries (b.store_idempotency_result s pod key r) ≡ b.entries s

-- A server and the queue it shares.
pub record Server (b : Backend) : Type 0 where
  pub gateway : Gateway
  pub store : b.Store

module _ (b : Backend) where
  unfoldable pub tell : Server b → Metric → Server b
  tell s m = record s { gateway = emit_metric s.gateway m }

  unfoldable pub keep_pending : Server b → Item → Response → Server b × Reply Bool
  keep_pending s item r =
      let (kept, reply) = b.store_pending_result s.store item.pod_id r in
      (record s { store = kept }, elim reply [ failed e ↦ failed e | replied _ ↦ replied false ])

  -- `_deliverResponse`: sent, or stored for the POD's next connection, which may throw.
  unfoldable pub deliver_response : Server b → Item → Response → Server b × Reply Bool
  deliver_response s item r =
      let (sent, delivered) = send_to s.gateway (find_connection s.gateway item) r in
      if delivered then (record s { gateway = sent }, replied true) else keep_pending s item r

  -- `_finish` up to the delivery. The write of the shared record is not waited for.
  unfoldable pub settle_idempotency : Server b → Item → Response → Server b
  settle_idempotency s item r = elim item.dedup_key [
    | none ↦ s
    | some key ↦ record s {
      gateway = record s.gateway {
        inflight_idempotency = delete s.gateway.inflight_idempotency key;
        idempotency_results = set s.gateway.idempotency_results key r;
      };
      store = b.store_idempotency_result s.store item.pod_id item.message.idempotency_key r;
    }
  ]

  unfoldable pub completed : Item → Ending → Server b × Reply Bool → Server b × Reply Bool
  completed item ending (s, failed e) = (s, failed e)
  completed item ending (s, replied delivered) =
      (tell s (item_metric "request.completed" item (ending_code ending)), replied delivered)

  unfoldable pub finish : Server b → ℕ → Item → Ending → Option ℕ → Server b × Reply Bool
  finish s now item ending status =
      let r = build_response now item ending status in
      completed item ending (deliver_response (settle_idempotency s item r) item r)

  unfoldable pub send_all : ℕ → List Response → Gateway → Gateway
  send_all ws [] g = g
  send_all ws (r ∷ rs) g = send_all ws rs (post g ws (result r))

  -- `_replayPending` behind the first step of `takePendingResults`. An error is only logged.
  unfoldable pub finish_replay : Server b → ℕ → String → b.Found → Server b
  finish_replay s ws pod_id found =
      let (left, reply) = b.drop_pending_results s.store pod_id found in
      elim reply [
        | failed e ↦ record s { store = left }
        | replied rs ↦ record s { gateway = send_all ws rs s.gateway; store = left }
      ]
