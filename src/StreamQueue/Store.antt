-- ===== src/StreamQueue/Store.antt =====
-- What the queue keeps in Redis, `enqueue`, and the delayed retries with their two scripts. Redis runs a
-- script as one step, so it is a function of the keys that it is given.
pub mod Adding
pub mod Scripts
pub mod Delays
pub mod Retries
use node_red_contrib_pod_gat.Prelude.{
  ℕ, suc, ◌+◌, Bool, true, false, not, ◌&&◌, ◌||◌, Option, none, some, List, [], ◌∷◌, ◌++◌, String,
  Text, string_eq, ◌==◌, codes, ltb, leb, is_some, if◌then◌else◌, or_else,
}
use node_red_contrib_pod_gat.Json.{Value}
use node_red_contrib_pod_gat.Gateway.Types.{Failure, truthy}
use node_red_contrib_pod_gat.Gateway.Send.{failure_of}
use node_red_contrib_pod_gat.StreamQueue.Commands.{Commands}

-- A queue item; `rest` has its other fields.
pub record Task : Type 0 where
  pub pod_id : Option String
  pub request_id : Option String
  pub priority : Option String
  pub retry_sequence : ℕ
  pub last_queued_at : ℕ
  pub queue_id : Option ℕ
  pub queue_stream : Option Bool
  pub rest : Value

-- What an operation returns, or the error that it throws.
pub data Reply {ℓ} (A : Type ℓ) : Type ℓ where
  failed : Failure → Reply A
  replied : A → Reply A

-- The errors that the commands of `enqueue` throw, if they do.
pub record Faults : Type 0 where
  pub incr : Option Failure
  pub xadd : Option Failure
  pub decr : Option Failure

pub record Counters : Type 0 where
  pub stream_xadd : ℕ
  pub delayed_scheduled : ℕ
  pub delayed_promoted : ℕ
  pub acknowledged : ℕ
  pub deleted : ℕ

-- The keys of one priority: its stream, the delayed retries and their payloads.
pub record Lane (r : Commands) : Type 0 where
  pub stream : r.Stream
  pub retry : r.SortedSet
  pub payloads : r.Hash

-- The keys in Redis, the state of the two connections, and what the gateway counts.
pub record Queue (r : Commands) : Type 0 where
  pub depth : r.Counter
  pub normal : Lane r
  pub bulk : Lane r
  pub client_ready : Bool
  pub command_ready : Bool
  pub max_queue_size : ℕ
  pub retry_batch_size : ℕ
  pub delete_on_ack : Bool
  pub counters : Counters

-- `item.request?.priority === 'bulk'`
unfoldable pub is_bulk : Task → Bool
is_bulk t = elim t.priority [ none ↦ false | some p ↦ p == "bulk" ]

unfoldable pub unavailable : Failure
unavailable = failure_of "QUEUE_UNAVAILABLE" (codes "Redis queue is unavailable") true

unfoldable pub queue_full : Failure
queue_full = failure_of "QUEUE_FULL" (codes "Gateway queue is full") true

-- `_retryToken`; a random ID stands for a request ID that is missing or empty.
unfoldable pub retry_token : Task → Bool → String → Text
retry_token t bulk random =
    codes (if bulk then "bulk:" else "normal:")
    ++ codes (or_else (truthy t.pod_id) "unknown")
    ++ codes ":"
    ++ codes (or_else (truthy t.request_id) random)

module _ (r : Commands) where
  abbrev pub lane : Queue r → Bool → Lane r
  lane q bulk = if bulk then q.bulk else q.normal

  unfoldable pub with_lane : Queue r → Bool → Lane r → Queue r
  with_lane q bulk l = record q {
    normal = if bulk then q.normal else l;
    bulk = if bulk then l else q.bulk;
  }

  -- `isReady`
  unfoldable pub is_ready : Queue r → Bool
  is_ready q = q.client_ready && q.command_ready

  -- `depth`
  unfoldable pub depth_of : Queue r → Option ℕ
  depth_of q = if q.command_ready then some (r.count q.depth) else none

  -- `xAdd` of a payload to a stream.
  unfoldable pub append : Queue r → Bool → Text → Queue r × ℕ
  append q bulk payload =
      let (id, grown) = r.xadd (lane q bulk).stream payload in
      (with_lane q bulk (record (lane q bulk) { stream = grown }), id)

  -- `DECR` of the depth that `INCR` has raised, which may throw.
  unfoldable pub give_back : Queue r → Option Failure → Queue r
  give_back taken none = record taken { depth = r.decr taken.depth }
  give_back taken (some e) = taken

  -- `enqueue`. Where `xAdd` throws the slot is given back, and an error of that `DECR` is ignored; where
  -- the queue is full the error of the `DECR` is thrown.
  unfoldable pub enqueue : (Task → Text) → Queue r → Task → Faults → Queue r × Reply ℕ
  enqueue encode q t faults =
      let taken : Queue r = record q { depth = r.incr q.depth } in
      if not q.command_ready then (q, failed unavailable) else elim faults.incr [
        | some e ↦ (q, failed e)
        | none ↦
            if ltb q.max_queue_size (r.count taken.depth)
            then (give_back taken faults.decr, failed (or_else faults.decr queue_full))
            else elim faults.xadd [
              | some e ↦ (give_back taken faults.decr, failed e)
              | none ↦
                  let (grown, id) = append taken (is_bulk t) (encode t) in
                  (
                    record grown {
                      counters = record q.counters { stream_xadd = suc q.counters.stream_xadd };
                    },
                    replied id,
                  )
            ]
      ]
