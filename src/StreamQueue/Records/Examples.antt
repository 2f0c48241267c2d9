-- ===== src/StreamQueue/Records/Examples.antt =====
-- The theorems about the idempotency records, applied to strings that are kept in a map.
use node_red_contrib_pod_gat.Prelude.{
  ℕ, ◌≡◌, refl, true, false, ◌&&◌, none, some, List, [], ◌∷◌, String, text_eq, string_eq, ◌==◌,
  codes,
}
use node_red_contrib_pod_gat.Map.{get}
use node_red_contrib_pod_gat.StreamQueue.Store.{replied}
use node_red_contrib_pod_gat.StreamQueue.Records.{
  Entry, Records, own_claim, other_claim, claim_idempotency, store_idempotency_result,
  get_idempotency_result,
}
use node_red_contrib_pod_gat.StreamQueue.Records.Maps.{strings, strings-laws, codec}
use node_red_contrib_pod_gat.StreamQueue.Records.Claims.{
  Event as RecordEvent, claims, releases, expires, run as run_records, IsForeignRun, entry_of,
}
use node_red_contrib_pod_gat.StreamQueue.Records.Exclusion.{claim-exclusive, store-claim}

abbrev no_records : Records (strings ℕ)
no_records = record { ready = true; keys = [] }

free_key : (strings ℕ).get_value no_records.keys (codes "pod-1:k") ≡ none
unfolding get
free_key = refl

-- Another request claims the key and gives up, and the key of another POD expires.
abbrev others : List (RecordEvent ℕ)
others =
    claims "pod-1" (some "k") "r2"
    ∷ releases "pod-1" (some "k") "r2"
    ∷ expires (codes "pod-2:k")
    ∷ []

some-injective : (x y : String) → some x ≡ some y → x ≡ y
some-injective x y e = cc e

abbrev first_id : String
first_id = "r1"

abbrev second_id : String
second_id = "r2"

-- The name is that of the release, whose request is not the owner.
other_request :
    (name : String)
    → some "k" ≡ some name
    → ((codec ℕ).key_of "pod-1" name == codes "pod-1:k" && first_id == second_id) ≡ false
other_request name e = rw (← some-injective "k" name e) refl

foreign : IsForeignRun (strings ℕ) (codec ℕ) (codes "pod-1:k") "r1" others
unfolding IsForeignRun
foreign = (tt, (other_request, (refl, tt)))

claim-exclusive_example :
    (let first = claim_idempotency (strings ℕ) (codec ℕ) no_records "pod-1" (some "k") "r1" in
      let later = run_records (strings ℕ) (codec ℕ) first.0 others in
      (first.1 ≡ replied (own_claim (strings ℕ) (codec ℕ)))
      × (claim_idempotency (strings ℕ) (codec ℕ) later "pod-1" (some "k") "r3" ≡ (
        later,
        replied (other_claim (strings ℕ) (codec ℕ) (some (entry_of (strings ℕ) (codec ℕ) "r1"))),
      )))
claim-exclusive_example =
    claim-exclusive (strings ℕ) (strings-laws ℕ) (codec ℕ) (λ e. refl) no_records (some "k") "pod-1"
      "k" "r1" "r3" others refl refl free_key foreign

store-claim_example :
    (let stored =
        store_idempotency_result (strings ℕ) (codec ℕ) no_records "pod-1" (some "k") "r1" 42 in
      let done : Entry ℕ = record { request_id = some "r1"; response = some 42 } in
      (get_idempotency_result (strings ℕ) (codec ℕ) stored "pod-1" (some "k") ≡ some done)
      × (claim_idempotency (strings ℕ) (codec ℕ) stored "pod-1" (some "k") "r3"
          ≡ (stored, replied (other_claim (strings ℕ) (codec ℕ) (some done)))))
store-claim_example =
    store-claim (strings ℕ) (strings-laws ℕ) (codec ℕ) (λ e. refl) no_records (some "k") "pod-1" "k"
      "r1" "r3" 42 refl refl
