-- ===== src/Redis/Examples.antt =====
-- The theorems about the Redis connections at concrete inputs.
use node_red_contrib_pod_gat.Prelude.{
  map, ◌≡◌, refl, ◌↔◌, true, some, none, [], ◌∷◌, All, codes, arith, if◌then◌else◌, text_eq,
}
use node_red_contrib_pod_gat.Result.{ok}
use node_red_contrib_pod_gat.Protocol.Text.{trim, is_space}
use node_red_contrib_pod_gat.RateLimit.{decide}
use node_red_contrib_pod_gat.Redis.Script.{Bucket, gcra_script}
use node_red_contrib_pod_gat.Redis.Script.Agreement.{
  charged, HasRoom, gcra_script-room, gcra_script-decide,
}
use node_red_contrib_pod_gat.Redis.Url.{
  starts_with, has_scheme, is_redis_scheme, with_scheme, normalize_redis_url,
}

abbrev empty_bucket : Bucket
empty_bucket = record { limit = record { rate = 2; burst = some 2 }; tat = none }

abbrev full_bucket : Bucket
full_bucket = record { limit = record { rate = 2; burst = none }; tat = some 3000 }

gcra_script-room_example :
    (((gcra_script 1 1000 (empty_bucket ∷ full_bucket ∷ [])).1.allowed ≡ true)
      ↔ All (HasRoom 1 1000) (empty_bucket ∷ full_bucket ∷ []))
    × ((gcra_script 1 1000 (empty_bucket ∷ full_bucket ∷ [])).0 ≡ (
        if (gcra_script 1 1000 (empty_bucket ∷ full_bucket ∷ [])).1.allowed
        then map (charged 1 1000) (empty_bucket ∷ full_bucket ∷ [])
        else (empty_bucket ∷ full_bucket ∷ [])))
gcra_script-room_example =
    gcra_script-room 1 1000 (empty_bucket ∷ full_bucket ∷ []) (omega arith, (omega arith, tt))

gcra_script-decide_example :
    ((gcra_script 1 1000 (full_bucket ∷ [])).1
      ≡ (decide full_bucket.limit 1 1000 full_bucket.tat).1)
    × ((gcra_script 1 1000 (full_bucket ∷ [])).0
        ≡ record full_bucket { tat = (decide full_bucket.limit 1 1000 full_bucket.tat).0 } ∷ [])
gcra_script-decide_example = gcra_script-decide 1 1000 full_bucket (omega arith)

host_test : normalize_redis_url (codes " cache:6379 ") ≡ ok (codes "redis://cache:6379")
unfolding normalize_redis_url with_scheme has_scheme starts_with is_redis_scheme trim is_space
host_test = refl
