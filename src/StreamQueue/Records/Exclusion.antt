-- ===== src/StreamQueue/Records/Exclusion.antt =====
-- What the requests of one idempotency key are told.
use node_red_contrib_pod_gat.Prelude.{
  ◌≡◌, refl, ap, ◌∙◌, true, false, not, Option, none, some, List, [], ◌∷◌, String, text_eq,
  string_eq, Bool-cases, Option-cases, inl, inr,
}
use node_red_contrib_pod_gat.Gateway.Types.{truthy}
use node_red_contrib_pod_gat.StreamQueue.Store.{replied}
use node_red_contrib_pod_gat.StreamQueue.Records.{
  Strings, StringLaws, Entry, Codec, Records, own_claim, other_claim, read_value, claim_idempotency,
  release_idempotency, store_idempotency_result, get_idempotency_result, is_of,
}
use node_red_contrib_pod_gat.StreamQueue.Records.Claims.{
  Event, claims, releases, stores, expires, step, run, IsForeignRun, IsHeld, entry_of, run-IsHeld,
}

module _ {R : Type 0} (s : Strings) (laws : StringLaws s) (c : Codec s R) where
  -- The connection stays up.
  ready-claim :
      (q : Records s) (pod : String) (key : Option String) (id : String)
      → (claim_idempotency s c q pod key id).0.ready ≡ q.ready
  unfolding claim_idempotency
  ready-claim q pod key id = elim (Option-cases (truthy key)) [
    | inl e ↦ rw (e, claim_idempotency) refl
    | inr (name, e) ↦
        let full = c.key_of pod name in
        elim (Bool-cases (not q.ready)) [
          | inl f ↦ rw (e, claim_idempotency, f) refl
          | inr f ↦ elim (Bool-cases (s.set_new q.keys full (c.write (entry_of s c id))).1) [
            | inl g ↦ rw (e, claim_idempotency, f, g) refl
            | inr g ↦ rw (e, claim_idempotency, f, g) refl
          ]
        ]
  ]

  ready-release :
      (q : Records s) (pod : String) (key : Option String) (id : String)
      → (release_idempotency s c q pod key id).ready ≡ q.ready
  unfolding release_idempotency
  ready-release q pod key id = elim (Option-cases (truthy key)) [
    | inl e ↦ rw (e, release_idempotency) refl
    | inr (name, e) ↦
        elim (Bool-cases (is_of s c id (read_value s c (s.get_value q.keys (c.key_of pod name))))) [
          | inl f ↦ rw (e, release_idempotency, f) refl
          | inr f ↦ rw (e, release_idempotency, f) refl
        ]
  ]

  ready-step : (q : Records s) (e : Event R) → (step s c q e).ready ≡ q.ready
  unfolding step store_idempotency_result
  ready-step q (claims pod key id) = ready-claim q pod key id
  ready-step q (releases pod key id) = ready-release q pod key id
  ready-step q (stores pod key id response) = elim (Option-cases (truthy key)) [
    | inl e ↦ rw (e, store_idempotency_result) refl
    | inr (name, e) ↦ rw (e, store_idempotency_result) refl
  ]
  ready-step q (expires j) = refl

  ready-run : (es : List (Event R)) (q : Records s) → (run s c q es).ready ≡ q.ready
  unfolding run
  ready-run [] q = refl
  ready-run (e ∷ es) q = ready-run es (step s c q e) ∙ ready-step q e

  pub claims_free :
      (q : Records s) (key : Option String) (pod name id : String)
      → truthy key ≡ some name
      → q.ready ≡ true
      → s.get_value q.keys (c.key_of pod name) ≡ none
      → claim_idempotency s c q pod key id ≡ (
        record q { keys = s.set_value q.keys (c.key_of pod name) (c.write (entry_of s c id)) },
        replied (own_claim s c),
      )
  unfolding claim_idempotency
  claims_free q key pod name id t ready free =
      let open_now : not q.ready ≡ false = ap not ready in
      let new = laws.set_new-free q.keys (c.key_of pod name) (c.write (entry_of s c id)) free in
      rw (t, claim_idempotency, open_now, new) refl

  pub claims_held :
      (decoded : (e : Entry R) → c.read (c.write e) ≡ some e) (q : Records s) (key : Option String)
      (pod name id : String) (e : Entry R)
      → truthy key ≡ some name
      → q.ready ≡ true
      → s.get_value q.keys (c.key_of pod name) ≡ some (c.write e)
      → claim_idempotency s c q pod key id ≡ (q, replied (other_claim s c (some e)))
  unfolding claim_idempotency
  claims_held decoded q key pod name id e t ready held =
      let open_now : not q.ready ≡ false = ap not ready in
      let old =
        laws.set_new-taken q.keys (c.key_of pod name) (c.write (entry_of s c id)) (c.write e)
          held in
      rw (t, claim_idempotency, open_now, old, held, decoded e) refl

  -- A request claims a free idempotency key. Whatever other requests claim, release or store then, as long
  -- as the key does not expire and nobody stores a result under it or releases it in the name of that
  -- request: every further claim of the key is refused and names that request.
  pub claim-exclusive :
      (decoded : (e : Entry R) → c.read (c.write e) ≡ some e) (q : Records s) (key : Option String)
      (pod name id other : String) (es : List (Event R))
      → truthy key ≡ some name
      → q.ready ≡ true
      → s.get_value q.keys (c.key_of pod name) ≡ none
      → IsForeignRun s c (c.key_of pod name) id es
      → (let first = claim_idempotency s c q pod key id in
          let later = run s c first.0 es in
          (first.1 ≡ replied (own_claim s c))
          × (claim_idempotency s c later pod key other
              ≡ (later, replied (other_claim s c (some (entry_of s c id))))))
  claim-exclusive decoded q key pod name id other es t ready free foreign =
      let full = c.key_of pod name in
      let first = claim_idempotency s c q pod key id in
      let claimed = claims_free q key pod name id t ready free in
      let held : IsHeld s c first.0 full id =
        ap (λ x. s.get_value x.0.keys full) claimed
        ∙ laws.get-set_value q.keys full full (c.write (entry_of s c id))
        ∙ rw ((text_eq.beq_iff full full).1 refl) refl in
      let up : first.0.ready ≡ true = ap (λ x. x.0.ready) claimed ∙ ready in
      (
        ap (λ x. x.1) claimed,
        claims_held decoded (run s c first.0 es) key pod name other (entry_of s c id) t
            (ready-run es first.0 ∙ up)
            (run-IsHeld s laws c decoded full id es first.0 foreign held),
      )

  -- When the result of a request has been stored under an idempotency key, the key's result is read back as
  -- it was stored, and a claim of the key is refused with that result.
  pub store-claim :
      (decoded : (e : Entry R) → c.read (c.write e) ≡ some e) (q : Records s) (key : Option String)
      (pod name id other : String) (response : R)
      → truthy key ≡ some name
      → q.ready ≡ true
      → (let stored = store_idempotency_result s c q pod key id response in
          let done : Entry R = record { request_id = some id; response = some response } in
          (get_idempotency_result s c stored pod key ≡ some done)
          × (claim_idempotency s c stored pod key other
              ≡ (stored, replied (other_claim s c (some done)))))
  unfolding store_idempotency_result get_idempotency_result
  store-claim decoded q key pod name id other response t ready =
      let full = c.key_of pod name in
      let done : Entry R = record { request_id = some id; response = some response } in
      let stored : Records s = record q { keys = s.set_value q.keys full (c.write done) } in
      let written : s.get_value stored.keys full ≡ some (c.write done) =
        laws.get-set_value q.keys full full (c.write done)
        ∙ rw ((text_eq.beq_iff full full).1 refl) refl in
      rw (t, store_idempotency_result)
        (
          rw (t, get_idempotency_result, written) (decoded done),
          claims_held decoded stored key pod name other done t ready written,
        )
