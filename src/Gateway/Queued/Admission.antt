-- ===== src/Gateway/Queued/Admission.antt =====
-- The idempotency key of a request that comes to a server which shares the queue in Redis.
use node_red_contrib_pod_gat.Prelude.{
  ℕ, suc, ◌≡◌, refl, ap, subst, ◌∙◌, ◌⊎◌, inl, inr, true, Option, none, some, ◌∷◌, String, text_eq,
  string_eq, nat_eq, ◌==◌, Bool-cases, Option-cases, if◌then◌else◌,
}
use node_red_contrib_pod_gat.Protocol.{Operation}
use node_red_contrib_pod_gat.Map.{get}
use node_red_contrib_pod_gat.Gateway.Types.{
  Item, Response, Failure, Adapter, Message, Outgoing, truthy,
}
use node_red_contrib_pod_gat.Gateway.Send.{is_open, emit_metric, item_metric}
use node_red_contrib_pod_gat.Gateway.Enqueue.{Caller, new_item, dedup_key_of, reserve}
use node_red_contrib_pod_gat.StreamQueue.Commands.{Commands, Laws}
use node_red_contrib_pod_gat.StreamQueue.Store
use node_red_contrib_pod_gat.StreamQueue.Store.{is_bulk}
use node_red_contrib_pod_gat.StreamQueue.Store.Adding.{
  enqueue-ready, IsAdded, HasSameEntries, enqueue-failed, enqueue-replied,
}
use node_red_contrib_pod_gat.StreamQueue.Records
use node_red_contrib_pod_gat.StreamQueue.Records.{Strings, StringLaws, Entry, Claim, is_of}
use node_red_contrib_pod_gat.StreamQueue.Records.Claims.{entry_of}
use node_red_contrib_pod_gat.StreamQueue.Records.Exclusion.{claims_free, claims_held}
use node_red_contrib_pod_gat.StreamQueue.Pending.{Hashes}
use node_red_contrib_pod_gat.Gateway.Queued.{Server}
use node_red_contrib_pod_gat.Gateway.Queued.Answers.{IsAnswer, answer_duplicate-sent}
use node_red_contrib_pod_gat.Gateway.Queued.Outcomes.{Reply-cases}
use node_red_contrib_pod_gat.Gateway.Queued.Requests.{
  claim, claimed, key_of, release, not_queued, is_queued, push_item, claim_and_push,
}
use node_red_contrib_pod_gat.Gateway.Queued.Redis.{Wire, Shared, redis, task_of, records_of}

truthy_again :
    (o : Option String) (key : String) → truthy o ≡ some key → truthy (some key) ≡ some key
truthy_again none key e = absurd (cc e)
truthy_again (some x) key e = elim (Bool-cases (x == "")) [
  | inl f ↦ absurd (cc (rw f at e))
  | inr f ↦
      let same : some x ≡ some key = rw f at e in
      let it : x ≡ key = cc same in subst (λ z. truthy (some z) ≡ some z) it (rw f refl)
]

module _ (r : Commands) (s : Strings) (h : Hashes) (w : Wire s h) where
  abbrev pub Holds : Shared r s h → String → String → String → Type 0
  Holds x pod key id =
      s.get_value x.strings (w.records.key_of pod key)
      ≡ some (w.records.write (entry_of s w.records id))

  abbrev pub IsFree : Shared r s h → String → String → Type 0
  IsFree x pod key = s.get_value x.strings (w.records.key_of pod key) ≡ none

  -- An entry was added for the item, and the request holds its key.
  abbrev pub IsQueued :
      Server (redis r s h w) → Server (redis r s h w) → String → String → Item → Type 0
  IsQueued y z key id item =
      IsAdded r y.store.queue z.store.queue (is_bulk (task_of r s h w item))
        (w.encode (task_of r s h w item))
      × Holds z.store item.pod_id key id

  -- The key was released, or the commands that should have released it have failed.
  abbrev pub IsReleased : Option Failure → Shared r s h → String → String → String → Type 0
  IsReleased none x pod key id = IsFree x pod key
  IsReleased (some e) x pod key id = Holds x pod key id

  abbrev pub IsRefused :
      Server (redis r s h w) → Server (redis r s h w) → String → String → Item → Type 0
  IsRefused y z key id item =
      HasSameEntries r y.store.queue z.store.queue
      × IsReleased w.unreleased z.store item.pod_id key id

module _ (r : Commands) (queue_laws : Laws r) (s : Strings) (laws : StringLaws s) (h : Hashes)
    (w : Wire s h)
    -- A record is read back from its JSON.
    (decoded : (e : Entry Response) → w.records.read (w.records.write e) ≡ some e) where
  release-IsReleased :
      (y : Server (redis r s h w)) (item : Item) (key : String)
      → y.store.queue.command_ready ≡ true
      → key_of (redis r s h w) item.message ≡ some key
      → truthy (some key) ≡ some key
      → Holds r s h w y.store item.pod_id key item.request_id
      → IsReleased r s h w w.unreleased
          (release (redis r s h w) y item).store
          item.pod_id
          key
          item.request_id
        × ((release (redis r s h w) y item).store.queue ≡ y.store.queue)
  unfolding release Records.release_idempotency
  release-IsReleased y item key up k t held =
      let full = w.records.key_of item.pod_id key in
      let owner : is_of s w.records item.request_id
            (Records.read_value s w.records (s.get_value y.store.strings full))
          ≡ true =
        rw (held, decoded (entry_of s w.records item.request_id))
          ((string_eq.beq_iff item.request_id item.request_id).1 refl) in
      elim (Option-cases w.unreleased) [
        | inr (e, fails) ↦ rw (k, release) (rw (up, fails) (held, refl))
        | inl works ↦
            rw (k, release)
              (rw (up, works, t, Records.release_idempotency, owner)
                (
                  laws.get-remove y.store.strings full full
                      ∙ rw ((text_eq.beq_iff full full).1 refl) refl,
                  refl,
                ))
      ]

  push_item-outcome :
      (y : Server (redis r s h w)) (who : Caller) (item : Item) (key : String)
      → y.store.queue.command_ready ≡ true
      → key_of (redis r s h w) item.message ≡ some key
      → truthy (some key) ≡ some key
      → Holds r s h w y.store item.pod_id key item.request_id
      → (let z = push_item (redis r s h w) y who item in
          IsQueued r s h w y z key item.request_id item
          ⊎ IsRefused r s h w y z key item.request_id item)
  unfolding push_item not_queued is_queued
  push_item-outcome y who item key up k t held =
      let task = task_of r s h w item in
      let q = Store.enqueue r w.encode y.store.queue task w.faults in
      elim (Reply-cases q.1) [
        | inr (n, f) ↦
            rw (f, push_item)
              (inl (enqueue-replied r queue_laws w.encode y.store.queue task w.faults n f, held))
        | inl (e, f) ↦
            let after : Server (redis r s h w) = record {
              gateway =
                  record (reserve (emit_metric y.gateway (item_metric "request.received" item ""))
                    item.dedup_key item) { next_serial = suc y.gateway.next_serial };
              store = record y.store { queue = q.0 };
            } in
            let (free, same) =
              release-IsReleased after item key
                (enqueue-ready r w.encode y.store.queue task w.faults ∙ up) k t held in
            let kept = enqueue-failed r queue_laws w.encode y.store.queue task w.faults e f in
            rw (f, push_item)
              (inr (
                (ap (λ p. p.normal.stream) same ∙ kept.0, ap (λ p. p.bulk.stream) same ∙ kept.1),
                free,
              ))
      ]

  pub claim_and_push-free :
      (y : Server (redis r s h w)) (now : ℕ) (who : Caller) (id : String) (o : Operation)
      (a : Adapter) (m : Message) (key : String)
      → y.store.queue.command_ready ≡ true
      → truthy m.idempotency_key ≡ some key
      → IsFree r s h w y.store who.pod_id key
      → (let z = claim_and_push (redis r s h w) y now who id o a m in
          let item =
            new_item y.gateway now who id o a m (dedup_key_of who.pod_id m.idempotency_key) in
          IsQueued r s h w y z key id item ⊎ IsRefused r s h w y z key id item)
  unfolding claim_and_push claim claimed new_item
  claim_and_push-free y now who id o a m key up k free =
      let b = redis r s h w in
      let full = w.records.key_of who.pod_id key in
      let t = truthy_again m.idempotency_key key k in
      let item = new_item y.gateway now who id o a m (dedup_key_of who.pod_id m.idempotency_key) in
      let taken_now =
        claims_free s laws w.records (records_of r s h w y.store) (some key) who.pod_id key id t up
          free in
      let after : Server b = record y {
        store = record y.store {
          strings = s.set_value y.store.strings full (w.records.write (entry_of s w.records id));
        };
      } in
      let held : Holds r s h w after.store who.pod_id key id =
        laws.get-set_value y.store.strings full full (w.records.write (entry_of s w.records id))
        ∙ rw ((text_eq.beq_iff full full).1 refl) refl in
      let done = push_item-outcome after who item key up k t held in rw (k, claim, taken_now) done

  -- A request comes with an idempotency key under which there is a record, and Redis is up. Then nothing is
  -- stored or added to the queue, and the request is answered, if its socket is open, by one message: the
  -- record's response under the request's own ID, or, if the record has no response, that it is a
  -- duplicate of the record's request.
  pub claim_and_push-held :
      (y : Server (redis r s h w)) (now : ℕ) (who : Caller) (id : String) (o : Operation)
      (a : Adapter) (m : Message) (key : String) (e : Entry Response)
      → y.store.queue.command_ready ≡ true
      → truthy m.idempotency_key ≡ some key
      → s.get_value y.store.strings (w.records.key_of who.pod_id key) ≡ some (w.records.write e)
      → (let z = claim_and_push (redis r s h w) y now who id o a m in
          (z.store ≡ y.store)
          × ((answer : Outgoing) × IsAnswer e id answer
              × (z.gateway.sent ≡ (
                  if is_open (get y.gateway.objects who.ws)
                  then (who.ws, answer) ∷ y.gateway.sent
                  else y.gateway.sent))))
  unfolding claim_and_push claim claimed
  claim_and_push-held y now who id o a m key e up k held =
      let t = truthy_again m.idempotency_key key k in
      let told =
        claims_held s laws w.records decoded (records_of r s h w y.store) (some key) who.pod_id key
          id e t up held in
      let (answer, fits, sent) = answer_duplicate-sent y.gateway who id o e in
      rw (k, claim, told) (refl, (answer, fits, sent))
