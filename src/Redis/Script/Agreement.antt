-- ===== src/Redis/Script/Agreement.antt =====
-- The script of lib/redis-rate-limiter.js decides over one bucket as lib/in-memory-rate-limiter.js
-- does, and over several it admits a call exactly if each of them has room.
use node_red_contrib_pod_gat.Prelude.{
  ℕ, ◌+◌, ◌-◌, ◌*◌, ◌≤◌, ◌<◌, ◌≡◌, refl, ap, map, true, false, some, List, [], ◌∷◌, All, max, eqb,
  arith, ◌↔◌, inl, inr, Bool-cases, if◌then◌else◌,
}
use node_red_contrib_pod_gat.RateLimit.{tolerance, arrival, decide}
use node_red_contrib_pod_gat.RateLimit.Admission.{ceil_div_iff}
use node_red_contrib_pod_gat.Redis.Script.{
  Bucket, bucket_wait, worst_wait, store_all, gcra_script, new_tat,
}

-- The bucket has room for the call.
abbrev pub HasRoom : ℕ → ℕ → Bucket → Type 0
HasRoom cost now b =
    arrival b.limit b.tat now + 1000 * cost ≤ now * b.limit.rate + tolerance b.limit

bucket_wait-zero :
    (cost now : ℕ) (b : Bucket)
    → 0 < b.limit.rate
    → (bucket_wait cost now b ≡ 0) ↔ HasRoom cost now b
unfolding bucket_wait
bucket_wait-zero cost now b h =
    let excess : ℕ = new_tat cost now b - tolerance b.limit - now * b.limit.rate in
    let fits = ceil_div_iff excess b.limit.rate 0 h in
    (
      λ e. omega (arith, fits.0 (omega (arith, e))),
      λ room. omega (arith, fits.1 (omega (arith, room))),
    )

abbrev Limited : List Bucket → Type 0
Limited bs = All (λ b. 0 < b.limit.rate) bs

worst_wait-room :
    (cost now : ℕ) (bs : List Bucket)
    → Limited bs
    → (wait : ℕ) × (worst_wait cost now bs ≡ some wait) × ((wait ≡ 0) ↔ All (HasRoom cost now) bs)
unfolding worst_wait
worst_wait-room cost now [] h = (0, refl, (λ e. tt, λ t. refl))
worst_wait-room cost now (b ∷ bs) h =
    let (wait, e, fits) = worst_wait-room cost now bs h.1 in
    let room = bucket_wait-zero cost now b h.0 in
    let positive : eqb b.limit.rate 0 ≡ false = ground (arith, h.0) in
    (
      max (bucket_wait cost now b) wait,
      rw (positive, e, worst_wait) refl,
      (
        λ z. (room.0 (omega (arith, z)), fits.0 (omega (arith, z))),
        λ all. omega (arith, room.1 all.0, fits.1 all.1),
      ),
    )

-- The bucket with the call charged to it.
abbrev pub charged : ℕ → ℕ → Bucket → Bucket
charged cost now b = record b { tat = some (arrival b.limit b.tat now + 1000 * cost) }

store_all-map :
    (cost now : ℕ) (bs : List Bucket) → store_all cost now bs ≡ map (charged cost now) bs
unfolding store_all
store_all-map cost now [] = refl
store_all-map cost now (b ∷ bs) = ap (λ xs. charged cost now b ∷ xs) (store_all-map cost now bs)

-- Over buckets with positive rates the script admits a call exactly if each bucket has room for it,
-- and then it charges each of them, with the cost behind the time that the bucket was at or behind
-- now; it leaves all of them as they are otherwise.
pub gcra_script-room :
    (cost now : ℕ) (bs : List Bucket)
    → All (λ b. 0 < b.limit.rate) bs
    → (((gcra_script cost now bs).1.allowed ≡ true) ↔ All (HasRoom cost now) bs)
      × ((gcra_script cost now bs).0
          ≡ (if (gcra_script cost now bs).1.allowed then map (charged cost now) bs else bs))
unfolding gcra_script
gcra_script-room cost now bs h =
    let (wait, e, fits) = worst_wait-room cost now bs h in
    elim (Bool-cases (eqb wait 0)) [
      | inl z ↦
          rw (e, gcra_script)
            (rw z ((λ t. fits.0 (ground arith), λ all. refl), store_all-map cost now bs))
      | inr z ↦
          rw (e, gcra_script)
            (rw z ((λ f. absurd (cc f), λ all. absurd (ground (arith, fits.1 all, z))), refl))
    ]

-- For one bucket with a positive rate, the script answers as the limiter in memory does and stores
-- the same time.
pub gcra_script-decide :
    (cost now : ℕ) (b : Bucket)
    → 0 < b.limit.rate
    → ((gcra_script cost now (b ∷ [])).1 ≡ (decide b.limit cost now b.tat).1)
      × ((gcra_script cost now (b ∷ [])).0
          ≡ record b { tat = (decide b.limit cost now b.tat).0 } ∷ [])
unfolding gcra_script worst_wait bucket_wait store_all decide
gcra_script-decide cost now b h = ground (arith, bucket_wait-zero cost now b h)
