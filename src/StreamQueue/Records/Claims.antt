-- ===== src/StreamQueue/Records/Claims.antt =====
-- The claim of an idempotency key while other requests come.
use node_red_contrib_pod_gat.Prelude.{
  ◌≡◌, true, false, not, ◌&&◌, Option, none, some, List, [], ◌∷◌, String, Text, text_eq, string_eq,
  ◌==◌, Bool-cases, Option-cases, inl, inr,
}
use node_red_contrib_pod_gat.Gateway.Types.{truthy}
use node_red_contrib_pod_gat.StreamQueue.Records.{
  Strings, StringLaws, Entry, Codec, Records, read_value, is_of, claim_idempotency,
  release_idempotency, store_idempotency_result,
}

-- What other requests, the server and time do to the records.
pub data Event (R : Type 0) : Type 0 where
  claims releases : String → Option String → String → Event R
  stores : String → Option String → String → R → Event R
  expires : Text → Event R

module _ {R : Type 0} (s : Strings) (c : Codec s R) where
  unfoldable pub step : Records s → Event R → Records s
  step q (claims pod key id) = (claim_idempotency s c q pod key id).0
  step q (releases pod key id) = release_idempotency s c q pod key id
  step q (stores pod key id response) = store_idempotency_result s c q pod key id response
  step q (expires k) = record q { keys = s.remove q.keys k }

  unfoldable pub run : Records s → List (Event R) → Records s
  run q [] = q
  run q (e ∷ es) = run (step q e) es

  -- The event is no end of the claim of `owner` on the key `k`.
  abbrev pub IsForeign : Text → String → Event R → Type 0
  IsForeign k owner (claims pod key id) = Unit {0}
  IsForeign k owner (releases pod key id) =
      (name : String) → truthy key ≡ some name → (c.key_of pod name == k && owner == id) ≡ false
  IsForeign k owner (stores pod key id response) =
      (name : String) → truthy key ≡ some name → (c.key_of pod name == k) ≡ false
  IsForeign k owner (expires j) = (j == k) ≡ false

  unfoldable pub IsForeignRun : Text → String → List (Event R) → Type 0
  IsForeignRun k owner [] = Unit {0}
  IsForeignRun k owner (e ∷ es) = IsForeign k owner e × IsForeignRun k owner es

  abbrev pub entry_of : String → Entry R
  entry_of owner = record { request_id = some owner; response = none }

  -- The key `k` holds the claim of `owner`.
  abbrev pub IsHeld : Records s → Text → String → Type 0
  IsHeld q k owner = s.get_value q.keys k ≡ some (c.write (entry_of owner))

module _ {R : Type 0} (s : Strings) (laws : StringLaws s) (c : Codec s R) where
  -- Setting a key only if it is free leaves every other value, and a value that is there.
  kept-set_new :
      (ks : s.Keys) (k j : Text) (v old : s.Content)
      → s.get_value ks j ≡ some old
      → s.get_value (s.set_new ks k v).0 j ≡ some old
  kept-set_new ks k j v old h = elim (Option-cases (s.get_value ks k)) [
    | inr (other, e) ↦ rw (laws.set_new-taken ks k v other e) h
    | inl e ↦ elim (Bool-cases (k == j)) [
      | inl t ↦ let same = (text_eq.beq_iff k j).0 t in absurd (cc (rw same at e, h))
      | inr t ↦ rw (laws.set_new-free ks k v e, laws.get-set_value ks k j v, t) h
    ]
  ]

  claim-IsHeld :
      (q : Records s) (k : Text) (owner pod : String) (key : Option String) (id : String)
      → IsHeld s c q k owner
      → IsHeld s c (claim_idempotency s c q pod key id).0 k owner
  unfolding claim_idempotency
  claim-IsHeld q k owner pod key id h = elim (Option-cases (truthy key)) [
    | inl e ↦ rw (e, claim_idempotency) h
    | inr (name, e) ↦
        let full = c.key_of pod name in
        let text = c.write (entry_of s c id) in
        let kept = kept-set_new q.keys full k text (c.write (entry_of s c owner)) h in
        elim (Bool-cases (not q.ready)) [
          | inl f ↦ rw (e, claim_idempotency, f) h
          | inr f ↦ elim (Bool-cases (s.set_new q.keys full text).1) [
            | inl g ↦ rw (e, claim_idempotency, f, g) kept
            | inr g ↦ rw (e, claim_idempotency, f, g) kept
          ]
        ]
  ]

  release-IsHeld :
      (decoded : (e : Entry R) → c.read (c.write e) ≡ some e) (q : Records s) (k : Text)
      (owner pod : String) (key : Option String) (id : String)
      → IsForeign s c k owner (releases pod key id)
      → IsHeld s c q k owner
      → IsHeld s c (release_idempotency s c q pod key id) k owner
  unfolding release_idempotency
  release-IsHeld decoded q k owner pod key id foreign h = elim (Option-cases (truthy key)) [
    | inl e ↦ rw (e, release_idempotency) h
    | inr (name, e) ↦
        let full = c.key_of pod name in
        elim (Bool-cases (is_of s c id (read_value s c (s.get_value q.keys full)))) [
          | inr f ↦ rw (e, release_idempotency, f) h
          | inl f ↦
              rw (e, release_idempotency, f)
                (rw (laws.get-remove q.keys full k, other full (foreign name e) f) h)
        ]
  ]
    where
      -- Whose claim is released is the owner of the key.
      other :
          (full : Text)
          → (full == k && owner == id) ≡ false
          → is_of s c id (read_value s c (s.get_value q.keys full)) ≡ true
          → (full == k) ≡ false
      other full d f = elim (Bool-cases (full == k)) [
        | inr t ↦ t
        | inl t ↦
            let same = (text_eq.beq_iff full k).0 t in
            let mine : (owner == id) ≡ true = rw (same, h, decoded (entry_of s c owner)) at f in
            absurd (cc (rw (t, mine) at d))
      ]

  step-IsHeld :
      (decoded : (e : Entry R) → c.read (c.write e) ≡ some e) (q : Records s) (k : Text)
      (owner : String) (e : Event R)
      → IsForeign s c k owner e
      → IsHeld s c q k owner
      → IsHeld s c (step s c q e) k owner
  unfolding step store_idempotency_result
  step-IsHeld decoded q k owner (claims pod key id) f h = claim-IsHeld q k owner pod key id h
  step-IsHeld decoded q k owner (releases pod key id) f h =
      release-IsHeld decoded q k owner pod key id f h
  step-IsHeld decoded q k owner (stores pod key id response) f h =
      elim (Option-cases (truthy key)) [
        | inl e ↦ rw (e, store_idempotency_result) h
        | inr (name, e) ↦
            rw (e, store_idempotency_result)
              (rw (laws.get-set_value q.keys (c.key_of pod name) k _, f name e) h)
      ]
  step-IsHeld decoded q k owner (expires j) f h = rw (laws.get-remove q.keys j k, f) h

  pub run-IsHeld :
      (decoded : (e : Entry R) → c.read (c.write e) ≡ some e) (k : Text) (owner : String)
      (es : List (Event R)) (q : Records s)
      → IsForeignRun s c k owner es
      → IsHeld s c q k owner
      → IsHeld s c (run s c q es) k owner
  unfolding run IsForeignRun
  run-IsHeld decoded k owner [] q f h = h
  run-IsHeld decoded k owner (e ∷ es) q f h =
      run-IsHeld decoded k owner es (step s c q e) f.1 (step-IsHeld decoded q k owner e f.0 h)
