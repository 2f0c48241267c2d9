-- ===== src/StreamQueue/Pending.antt =====
-- The results that wait for a POD, of lib/redis-stream-queue.js: a hash for each POD. The commands, the
-- hash of a key and JSON are parameters. `takePendingResults` sends two commands, each of which is a step.
pub mod Taken
pub mod Maps
mod Examples
use node_red_contrib_pod_gat.Prelude.{
  ℕ, zero, suc, ◌<◌, ◌≡◌, Bool, true, false, ◌&&◌, Option, none, some, List, [], ◌∷◌, String, Text,
  text_eq, string_eq, ◌==◌, if◌then◌else◌, arith,
}
use node_red_contrib_pod_gat.Map.{Map, get, values}

-- `HGET`, `HSET`, `HDEL`, `HGETALL` and `DEL` of a key.
pub record Hashes : Type 1 where
  pub Content : Type 0
  pub Keys : Type 0
  pub hget : Keys → Text → String → Option Content
  pub hset : Keys → Text → String → Content → Keys
  pub hdel : Keys → Text → String → Keys
  pub hget_all : Keys → Text → Map String Content
  pub del : Keys → Text → Keys
  -- `EXPIRE` in so many seconds.
  pub expire : Keys → Text → ℕ → Keys

pub record HashLaws (s : Hashes) : Type 0 where
  pub hget-hset :
      (ks : s.Keys) (k j : Text) (f g : String) (v : s.Content)
      → s.hget (s.hset ks k f v) j g ≡ (if k == j && f == g then some v else s.hget ks j g)
  pub hget-hdel :
      (ks : s.Keys) (k j : Text) (f g : String)
      → s.hget (s.hdel ks k f) j g ≡ (if k == j && f == g then none else s.hget ks j g)
  pub get-hget_all : (ks : s.Keys) (k : Text) (f : String) → get (s.hget_all ks k) f ≡ s.hget ks k f
  pub hget_all-del : (ks : s.Keys) (k : Text) → s.hget_all (s.del ks k) k ≡ []
  pub hget-del :
      (ks : s.Keys) (k j : Text) (f : String)
      → (k == j) ≡ false
      → s.hget (s.del ks k) j f ≡ s.hget ks j f
  -- A key that expires later is there still.
  pub hget-expire :
      (ks : s.Keys) (k j : Text) (f : String) (n : ℕ)
      → 0 < n
      → s.hget (s.expire ks k n) j f ≡ s.hget ks j f

-- `positiveInteger(options.resultTtlSeconds, 3600)` of a whole number.
unfoldable pub result_ttl_of : Option ℕ → ℕ
result_ttl_of none = 3600
result_ttl_of (some zero) = 3600
result_ttl_of (some (suc n)) = suc n

pub result_ttl_of-positive : (o : Option ℕ) → 0 < result_ttl_of o
unfolding result_ttl_of
result_ttl_of-positive none = omega arith
result_ttl_of-positive (some zero) = omega arith
result_ttl_of-positive (some (suc n)) = omega arith

-- A response, its JSON, the key of a POD, and the option `resultTtlSeconds`.
pub record Format (s : Hashes) (R : Type 0) : Type 0 where
  pub write : R → s.Content
  pub read : s.Content → Option R
  pub key_of : String → Text
  pub ttl_seconds : Option ℕ

-- The values that are JSON.
unfoldable pub readable {ℓ κ} : {C : Type ℓ} {R : Type κ} → (C → Option R) → List C → List R
readable read [] = []
readable read (v ∷ vs) =
    let rest = readable read vs in elim (read v) [ none ↦ rest | some x ↦ x ∷ rest ]

module _ {R : Type 0} (s : Hashes) (c : Format s R) where
  unfoldable pub store_pending_result : s.Keys → String → String → R → s.Keys
  store_pending_result ks pod id response =
      s.expire (s.hset ks (c.key_of pod) id (c.write response)) (c.key_of pod)
        (result_ttl_of c.ttl_seconds)

  unfoldable pub remove_pending_result : s.Keys → String → String → s.Keys
  remove_pending_result ks pod id = s.hdel ks (c.key_of pod) id

  -- `HGETALL` of `takePendingResults`.
  unfoldable pub read_pending_results : s.Keys → String → Map String s.Content
  read_pending_results ks pod = s.hget_all ks (c.key_of pod)

  -- The `DEL` behind it, which is sent if something was found.
  unfoldable pub drop_pending_results : s.Keys → String → Map String s.Content → s.Keys
  drop_pending_results ks pod [] = ks
  drop_pending_results ks pod (entry ∷ rest) = s.del ks (c.key_of pod)

  -- What is returned then.
  unfoldable pub taken_results : Map String s.Content → List R
  taken_results found = readable c.read (values found)

-- What others do: results are stored and removed, all results of a POD are deleted by one who takes
-- them, and the time of a key runs out.
pub data Event (R : Type 0) : Type 0 where
  stores : String → String → R → Event R
  removes : String → String → Event R
  drops : String → Event R
  lapses : Text → Event R

module _ {R : Type 0} (s : Hashes) (c : Format s R) where
  unfoldable pub step : s.Keys → Event R → s.Keys
  step ks (stores pod id response) = store_pending_result s c ks pod id response
  step ks (removes pod id) = remove_pending_result s c ks pod id
  step ks (drops pod) = s.del ks (c.key_of pod)
  step ks (lapses k) = s.del ks k

  unfoldable pub run : s.Keys → List (Event R) → s.Keys
  run ks [] = ks
  run ks (e ∷ es) = run (step ks e) es

  -- The event is about another result.
  abbrev pub IsOther : Text → String → Event R → Type 0
  IsOther k id (stores pod other response) = (c.key_of pod == k && other == id) ≡ false
  IsOther k id (removes pod other) = (c.key_of pod == k && other == id) ≡ false
  IsOther k id (drops pod) = (c.key_of pod == k) ≡ false
  IsOther k id (lapses j) = (j == k) ≡ false

  unfoldable pub IsOtherRun : Text → String → List (Event R) → Type 0
  IsOtherRun k id [] = Unit {0}
  IsOtherRun k id (e ∷ es) = IsOther k id e × IsOtherRun k id es
