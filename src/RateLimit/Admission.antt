-- ===== src/RateLimit/Admission.antt =====
-- The GCRA budget: how many calls one bucket admits in a stretch of time, and when a refused call
-- may come again.
use native.Mathlib.Nat.{div-add-mod, mod-lt}
use node_red_contrib_pod_gat.Prelude.{
  ℕ, suc, ◌+◌, ◌-◌, ◌*◌, ◌/◌, ◌≤◌, ◌<◌, ◌≡◌, Bool, true, false, Option, List, [], ◌∷◌, max, All,
  leb, or_else, arith, ◌↔◌, ◌⊎◌, inl, inr, Bool-cases,
}
use node_red_contrib_pod_gat.RateLimit.{Limit, decide, tolerance, arrival, ceil_div}

abbrev one_if : Bool → ℕ
one_if true = 1
one_if false = 0

-- How many of the calls at these times are admitted, each of cost 1.
unfoldable pub admitted : Limit → Option ℕ → List ℕ → ℕ
admitted l tat [] = 0
admitted l tat (now ∷ times) =
    one_if (decide l 1 now tat).1.allowed + admitted l (decide l 1 now tat).0 times

scale_mono : (r a b : ℕ) → a ≤ b → a * r ≤ b * r
scale_mono r a b h = grind arith

-- An admitted call moves `tat` on by its cost and leaves it within the tolerance.
decide_step :
    (l : Limit) (tat : Option ℕ) (now : ℕ)
    → ((decide l 1 now tat).1.allowed ≡ true)
        × (or_else (decide l 1 now tat).0 0 ≡ max (or_else tat 0) (now * l.rate) + 1000)
        × (max (or_else tat 0) (now * l.rate) + 1000 ≤ now * l.rate + tolerance l)
      ⊎ ((decide l 1 now tat).1.allowed ≡ false) × ((decide l 1 now tat).0 ≡ tat)
unfolding decide
decide_step l tat now = ground arith

admitted_room :
    (l : Limit) (tat : Option ℕ) (start stop : ℕ) (times : List ℕ)
    → All (λ t. (start ≤ t) × (t ≤ stop)) times
    → 0 < admitted l tat times
    → max (or_else tat 0) (start * l.rate) + 1000 * admitted l tat times
      ≤ stop * l.rate + tolerance l
unfolding admitted
admitted_room l tat start stop [] h n = absurd (omega arith)
admitted_room l tat start stop (now ∷ times) h n = ground (
  arith,
  decide_step l tat now,
  scale_mono l.rate start now h.0.0,
  scale_mono l.rate now stop h.0.1,
  admitted_room l (decide l 1 now tat).0 start stop times h.1,
)

span : (r start stop : ℕ) → start ≤ stop → stop * r ≡ start * r + r * (stop - start)
span r start stop h = grind arith

-- Whatever the bucket held before, the calls admitted between two times number at most the burst
-- and what the rate gives for that time.
pub admitted_budget :
    (l : Limit) (tat : Option ℕ) (start stop : ℕ) (times : List ℕ)
    → start ≤ stop
    → All (λ t. (start ≤ t) × (t ≤ stop)) times
    → 1000 * admitted l tat times ≤ l.rate * (stop - start) + tolerance l
admitted_budget l tat start stop times le h =
    ground (arith, span l.rate start stop le, admitted_room l tat start stop times h)

pub ceil_div_iff : (a r d : ℕ) → 0 < r → (ceil_div a r ≤ d) ↔ (a ≤ d * r)
ceil_div_iff a r d h =
    let q : ℕ = (a + (r - 1)) / r in
    (
      λ le. omega (arith, div-add-mod (a + (r - 1)) r, mod-lt (a + (r - 1)) h, scale_mono r q d le),
      λ le. elim (Bool-cases (leb q d)) [
        | inl e ↦ ground arith
        | inr e ↦
            absurd
              (omega (arith, div-add-mod (a + (r - 1)) r, scale_mono r (suc d) q (ground arith)))
      ],
    )

-- What exceeds the tolerance.
abbrev excess : Limit → ℕ → ℕ → Option ℕ → ℕ
excess l cost now tat = arrival l tat now + 1000 * cost - tolerance l - now * l.rate

allowed_iff :
    (l : Limit) (cost now : ℕ) (tat : Option ℕ)
    → ((decide l cost now tat).1.allowed ≡ true)
      ↔ (arrival l tat now + 1000 * cost ≤ now * l.rate + tolerance l)
unfolding decide
allowed_iff l cost now tat = ground arith

refused_delay :
    (l : Limit) (cost now : ℕ) (tat : Option ℕ)
    → (decide l cost now tat).1.allowed ≡ false
    → ((decide l cost now tat).1.retry_after_ms ≡ ceil_div (excess l cost now tat) l.rate)
      × (now * l.rate + tolerance l < arrival l tat now + 1000 * cost)
unfolding decide
refused_delay l cost now tat h = ground arith

add_scale : (r a b : ℕ) → (a + b) * r ≡ a * r + b * r
add_scale r a b = grind arith

-- The excess fits into a delay exactly if the call fits at the end of the delay.
excess_iff :
    (x m tol cost k : ℕ)
    → cost ≤ tol
    → m + tol < max x m + cost
    → (max x (m + k) + cost ≤ m + k + tol) ↔ (max x m + cost - tol - m ≤ k)
excess_iff x m tol cost k h j = ground arith

-- A refused call is told the least delay after which it is admitted, if no other call comes first
-- and the burst covers its cost: it is admitted after a delay exactly if that delay is at least
-- the one that it was told.
pub retry_after_exact :
    (l : Limit) (cost now delay : ℕ) (tat : Option ℕ)
    → 0 < l.rate
    → 1000 * cost ≤ tolerance l
    → (decide l cost now tat).1.allowed ≡ false
    → ((decide l cost (now + delay) tat).1.allowed ≡ true)
      ↔ ((decide l cost now tat).1.retry_after_ms ≤ delay)
retry_after_exact l cost now delay tat r c h =
    let refused = refused_delay l cost now tat h in
    let fits = ceil_div_iff (excess l cost now tat) l.rate delay r in
    let later = allowed_iff l cost (now + delay) tat in
    let same =
      excess_iff (or_else tat 0) (now * l.rate) (tolerance l) (1000 * cost) (delay * l.rate) c
        refused.1 in
    (
      λ e. rw refused.0 (fits.1 (same.0 (rw (add_scale l.rate now delay) at (later.0 e)))),
      λ e. later.1 (rw (add_scale l.rate now delay) (same.1 (fits.0 (rw refused.0 at e)))),
    )
