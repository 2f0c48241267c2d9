-- ===== src/StreamQueue/Records.antt =====
-- The idempotency records of lib/redis-stream-queue.js: strings in Redis that hold a JSON object. The
-- commands, the hash of a key and JSON are parameters. That a key expires is a step.
pub mod Claims
pub mod Exclusion
pub mod Maps
mod Examples
use node_red_contrib_pod_gat.Prelude.{
  ◌≡◌, Bool, true, false, not, ◌&&◌, Option, none, some, List, [], ◌∷◌, String, Text, text_eq,
  string_eq, ◌==◌, if◌then◌else◌,
}
use node_red_contrib_pod_gat.Gateway.Types.{truthy}
use node_red_contrib_pod_gat.StreamQueue.Store.{Reply, failed, replied, unavailable}

-- The strings that are stored, `GET`, `SET`, `SET` with `NX` and whether it answers `OK`, and `DEL`.
pub record Strings : Type 1 where
  pub Content : Type 0
  pub Keys : Type 0
  pub get_value : Keys → Text → Option Content
  pub set_value : Keys → Text → Content → Keys
  pub set_new : Keys → Text → Content → Keys × Bool
  pub remove : Keys → Text → Keys

pub record StringLaws (s : Strings) : Type 0 where
  pub get-set_value :
      (ks : s.Keys) (k j : Text) (v : s.Content)
      → s.get_value (s.set_value ks k v) j ≡ (if k == j then some v else s.get_value ks j)
  pub get-remove :
      (ks : s.Keys) (k j : Text)
      → s.get_value (s.remove ks k) j ≡ (if k == j then none else s.get_value ks j)
  pub set_new-free :
      (ks : s.Keys) (k : Text) (v : s.Content)
      → s.get_value ks k ≡ none
      → s.set_new ks k v ≡ (s.set_value ks k v, true)
  pub set_new-taken :
      (ks : s.Keys) (k : Text) (v old : s.Content)
      → s.get_value ks k ≡ some old
      → s.set_new ks k v ≡ (ks, false)

-- A record: the request that has claimed the key, and its response when it is done.
pub record Entry (R : Type 0) : Type 0 where
  pub request_id : Option String
  pub response : Option R

-- JSON of an entry, and the key of a POD's idempotency key, behind its hash.
pub record Codec (s : Strings) (R : Type 0) : Type 0 where
  pub write : Entry R → s.Content
  pub read : s.Content → Option (Entry R)
  pub key_of : String → String → Text

-- What `claimIdempotency` answers.
pub record Claim (R : Type 0) : Type 0 where
  pub claimed : Bool
  pub request_id : Option String
  pub response : Option R

-- The keys, and whether the connection is up.
pub record Records (s : Strings) : Type 0 where
  pub ready : Bool
  pub keys : s.Keys

module _ {R : Type 0} (s : Strings) (c : Codec s R) where
  abbrev pub own_claim : Claim R
  own_claim = record { claimed = true; request_id = none; response = none }

  abbrev pub other_claim : Option (Entry R) → Claim R
  other_claim none = record { claimed = false; request_id = none; response = none }
  other_claim (some e) = record {
    claimed = false;
    request_id = e.request_id;
    response = e.response;
  }

  abbrev pub read_value : Option s.Content → Option (Entry R)
  read_value none = none
  read_value (some v) = c.read v

  -- `claimIdempotency`
  unfoldable pub claim_idempotency :
      Records s → String → Option String → String → Records s × Reply (Claim R)
  claim_idempotency q pod key id = elim (truthy key) [
    | none ↦ (q, replied own_claim)
    | some name ↦
        let full = c.key_of pod name in
        let (ks, created) =
          s.set_new q.keys full (c.write (record { request_id = some id; response = none })) in
        if not q.ready
        then (q, failed unavailable)
        else if created
        then (record q { keys = ks }, replied own_claim)
        else (record q { keys = ks }, replied (other_claim (read_value (s.get_value ks full))))
  ]

  abbrev pub is_of : String → Option (Entry R) → Bool
  is_of id none = false
  is_of id (some e) = elim e.request_id [ none ↦ false | some owner ↦ owner == id ]

  -- `releaseIdempotency`
  unfoldable pub release_idempotency : Records s → String → Option String → String → Records s
  release_idempotency q pod key id = elim (truthy key) [
    | none ↦ q
    | some name ↦
        let full = c.key_of pod name in
        if is_of id (read_value (s.get_value q.keys full))
        then record q { keys = s.remove q.keys full }
        else q
  ]

  -- `storeIdempotencyResult`
  unfoldable pub store_idempotency_result :
      Records s → String → Option String → String → R → Records s
  store_idempotency_result q pod key id response = elim (truthy key) [
    | none ↦ q
    | some name ↦ record q {
      keys =
          s.set_value q.keys (c.key_of pod name)
            (c.write (record { request_id = some id; response = some response }));
    }
  ]

  -- `getIdempotencyResult`
  unfoldable pub get_idempotency_result : Records s → String → Option String → Option (Entry R)
  get_idempotency_result q pod key = elim (truthy key) [
    | none ↦ none
    | some name ↦ read_value (s.get_value q.keys (c.key_of pod name))
  ]
