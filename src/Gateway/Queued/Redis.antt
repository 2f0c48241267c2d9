-- ===== src/Gateway/Queued/Redis.antt =====
-- The queue of lib/redis-stream-queue.js as the one that the server shares: a stream queue, the
-- idempotency records and the pending results, all in one Redis.
pub mod Safety
use node_red_contrib_pod_gat.Prelude.{
  ℕ, ◌≡◌, refl, ap, inl, inr, Bool, true, false, not, Option, none, some, List, [], ◌∷◌, String,
  Text, text_eq, string_eq, ◌==◌, is_some, if◌then◌else◌, Bool-cases, Option-cases, or_else, ◌∙◌,
  eq_iff, ◌+◌,
}
use node_red_contrib_pod_gat.Map.{Map}
use node_red_contrib_pod_gat.Json.{Value}
use node_red_contrib_pod_gat.Gateway.Types.{Item, Response, Failure}
use node_red_contrib_pod_gat.StreamQueue.Commands.{Commands, Laws}
use node_red_contrib_pod_gat.StreamQueue.Store
use node_red_contrib_pod_gat.StreamQueue.Store.{
  Task, Queue, Faults, Reply, failed, replied, is_bulk, retry_token, lane,
}
use node_red_contrib_pod_gat.StreamQueue.Store.Scripts.{schedule_retry}
use node_red_contrib_pod_gat.StreamQueue.Records
use node_red_contrib_pod_gat.StreamQueue.Records.{Strings, Codec, Entry, Claim}
use node_red_contrib_pod_gat.StreamQueue.Pending
use node_red_contrib_pod_gat.StreamQueue.Pending.{Hashes, HashLaws, Format}
use node_red_contrib_pod_gat.Gateway.Queued.{Backend}

-- JSON of what is stored, the fields of an item that the server does not read, the error of a command
-- that is sent while the connection is down, and what the commands of `enqueue` and those of
-- `releaseIdempotency` throw, if they do.
pub record Wire (s : Strings) (h : Hashes) : Type 0 where
  pub encode : Task → Text
  pub rest_of : Item → Value
  pub retries_of : Item → ℕ
  pub random_id : String
  pub offline : Failure
  pub faults : Faults
  pub unreleased : Option Failure
  pub records : Codec s Response
  pub results : Format h Response

pub record Shared (r : Commands) (s : Strings) (h : Hashes) : Type 0 where
  pub queue : Queue r
  pub strings : s.Keys
  pub hashes : h.Keys

module _ (r : Commands) (s : Strings) (h : Hashes) (w : Wire s h) where
  abbrev pub task_of : Item → Task
  task_of item = record {
    pod_id = some item.pod_id;
    request_id = some item.request_id;
    priority = item.message.priority;
    retry_sequence = w.retries_of item;
    last_queued_at = item.last_queued_at;
    queue_id = none;
    queue_stream = none;
    rest = w.rest_of item;
  }

  abbrev pub records_of : Shared r s h → Records.Records s
  records_of x = record { ready = x.queue.command_ready; keys = x.strings }

  abbrev with_records : Shared r s h → Records.Records s → Shared r s h
  with_records x q = record x { strings = q.keys }

  -- What a command answers while the connection is up.
  abbrev online {ℓ} : {A : Type ℓ} → Shared r s h → A → A → A
  online x up down = if x.queue.command_ready then up else down

  -- `releaseIdempotency`, where the error that its commands throw is given.
  abbrev pub release_unless :
      Option Failure → Shared r s h → Shared r s h → Shared r s h × Reply Bool
  release_unless none before freed = (freed, replied true)
  release_unless (some e) before freed = (before, failed e)

  abbrev pub member_of : Item → Text
  member_of item = retry_token (task_of item) (is_bulk (task_of item)) w.random_id

  abbrev pub read_result : Option h.Content → Option Response
  read_result none = none
  read_result (some v) = w.results.read v

  -- `RedisStreamQueue`, as the server calls it.
  abbrev pub redis : Backend
  redis = record {
    Store = Shared r s h;
    Entries = r.Stream × r.Stream;
    Found = Map String h.Content;
    enqueue = λ x item.
        let (q, reply) = Store.enqueue r w.encode x.queue (task_of item) w.faults in
        (record x { queue = q }, reply);
    schedule_retry = λ x item wait now.
        let (q, reply) =
          schedule_retry r w.encode x.queue (task_of item) w.random_id (some wait) now true in
        (record x { queue = q }, reply);
    claim_idempotency = λ x pod key id.
        let (q, reply) = Records.claim_idempotency s w.records (records_of x) pod (some key) id in
        (with_records x q, reply);
    release_idempotency = λ x pod key id.
        online x
          (release_unless w.unreleased x (
            with_records x
              (Records.release_idempotency s w.records (records_of x) pod (some key) id)))
          (x, failed w.offline);
    store_idempotency_result = λ x pod key response.
        online x
          (with_records x (
            Records.store_idempotency_result s w.records (records_of x) pod key response.request_id
              response))
          x;
    get_idempotency_result = λ x pod key.
        online x
          (replied (Records.get_idempotency_result s w.records (records_of x) pod (some key)))
          (failed w.offline);
    store_pending_result = λ x pod response.
        online x
          (
            record x {
              hashes =
                  Pending.store_pending_result h w.results x.hashes pod response.request_id
                    response;
            },
            replied true,
          )
          (x, failed w.offline);
    read_pending_results = λ x pod.
        online x (replied (Pending.read_pending_results h w.results x.hashes pod))
          (failed w.offline);
    drop_pending_results = λ x pod found. elim found [
      | [] ↦ (x, replied [])
      | (entry ∷ rest) ↦
          online x
            (
              record x {
                hashes = Pending.drop_pending_results h w.results x.hashes pod (entry ∷ rest);
              },
              replied (Pending.taken_results h w.results (entry ∷ rest)),
            )
            (x, failed w.offline)
    ];
    is_scheduled = λ x item.
        is_some (r.zscore (lane r x.queue (is_bulk (task_of item))).retry (member_of item));
    pending = λ x pod id. read_result (h.hget x.hashes (w.results.key_of pod) id);
    entries = λ x. (x.queue.normal.stream, x.queue.bulk.stream);
  }
