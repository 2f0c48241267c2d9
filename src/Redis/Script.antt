-- ===== src/Redis/Script.antt =====
-- `GCRA_SCRIPT` of lib/redis-rate-limiter.js, the Lua script that decides a call over several buckets
-- at once, and `allow` around it. Redis runs a script as one step, so it is a function of the stored
-- times. As in RateLimit, a bucket's times are multiplied by its rate; `now` is in milliseconds. The
-- hashes' expiry times are not modelled.
pub mod Agreement
use node_red_contrib_pod_gat.Prelude.{
  ℕ, ◌+◌, ◌-◌, ◌*◌, Bool, true, false, Option, none, some, List, [], ◌∷◌, ◌++◌, max, leb, eqb, Text,
  codes, if◌then◌else◌,
}
use node_red_contrib_pod_gat.Result.{Result, ok, throws}
use node_red_contrib_pod_gat.RateLimit.{
  Limit, Limits, Selected, Decision, tolerance, arrival, ceil_div, selected_limit,
}

-- One of the script's keys: its limit, and the `tat` that is stored for it.
pub record Bucket : Type 0 where
  pub limit : Limit
  pub tat : Option ℕ

abbrev new_tat : ℕ → ℕ → Bucket → ℕ
new_tat cost now b = arrival b.limit b.tat now + 1000 * cost

-- The whole milliseconds until the bucket has room: 0 if it has room now.
unfoldable pub bucket_wait : ℕ → ℕ → Bucket → ℕ
bucket_wait cost now b =
    ceil_div (new_tat cost now b - tolerance b.limit - now * b.limit.rate) b.limit.rate

-- The first loop: the longest wait, or `none` at a bucket whose rate is 0.
unfoldable pub worst_wait : ℕ → ℕ → List Bucket → Option ℕ
worst_wait cost now [] = some 0
worst_wait cost now (b ∷ bs) =
    let rest = worst_wait cost now bs in
    if eqb b.limit.rate 0
    then none
    else elim rest [ none ↦ none | some wait ↦ some (max (bucket_wait cost now b) wait) ]

-- The second loop.
unfoldable pub store_all : ℕ → ℕ → List Bucket → List Bucket
store_all cost now [] = []
store_all cost now (b ∷ bs) = record b { tat = some (new_tat cost now b) } ∷ store_all cost now bs

-- The script: the buckets after it, and its answer.
unfoldable pub gcra_script : ℕ → ℕ → List Bucket → List Bucket × Decision
gcra_script cost now buckets = elim (worst_wait cost now buckets) [
  | none ↦ (buckets, record { allowed = false; retry_after_ms = 0 })
  | some wait ↦
      if eqb wait 0
      then (store_all cost now buckets, record { allowed = true; retry_after_ms = 0 })
      else (buckets, record { allowed = false; retry_after_ms = wait })
]

-- What `allow` asks of Redis: nothing, if no limit applies; else the script for the bucket's key.
pub data Ask : Type 0 where
  admit : Ask
  run_script : Text → Limit → Ask

unfoldable pub script_key : Text → Text → Text
script_key prefix bucket = prefix ++ (codes ":{" ++ (bucket ++ codes "}:g"))

-- `allow` up to `client.eval`.
unfoldable pub ask_for : Text → Bool → Selected → Result Ask
ask_for prefix ready s = elim s.config [
  | none ↦ ok admit
  | some l ↦
      if eqb l.rate 0
      then ok admit
      else if ready
      then ok (run_script (script_key prefix s.bucket) l)
      else throws (codes "Redis rate limiter is unavailable")
]

unfoldable pub redis_allow : Limits → Text → Bool → Text → Text → Option Limit → Result Ask
redis_allow limits prefix ready service operation own =
    ask_for prefix ready (selected_limit limits service operation own)
