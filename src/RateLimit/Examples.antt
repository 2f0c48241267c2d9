-- ===== src/RateLimit/Examples.antt =====
-- The rate limiter's theorems at concrete calls.
use node_red_contrib_pod_gat.Prelude.{
  ◌+◌, ◌-◌, ◌*◌, ◌≤◌, ◌≡◌, refl, true, false, some, none, [], ◌∷◌, arith, ◌↔◌,
}
use node_red_contrib_pod_gat.RateLimit.{Limit, decide, tolerance}
use node_red_contrib_pod_gat.RateLimit.Admission.{admitted, admitted_budget, retry_after_exact}

-- Two calls a second, and two at once.
abbrev limit : Limit
limit = record { rate = 2; burst = some 2 }

-- Of four calls within 600 ms three are admitted: two at once, and one more half a second later.
admitted_test : admitted limit none (0 ∷ 0 ∷ 100 ∷ 600 ∷ []) ≡ 3
unfolding admitted decide
admitted_test = refl

admitted_budget_example :
    1000 * admitted limit none (0 ∷ 0 ∷ 100 ∷ 600 ∷ []) ≤ limit.rate * (600 - 0) + tolerance limit
admitted_budget_example = admitted_budget limit none 0 600 (0 ∷ 0 ∷ 100 ∷ 600 ∷ []) (omega arith) (
  (omega arith, omega arith),
  ((omega arith, omega arith), ((omega arith, omega arith), ((omega arith, omega arith), tt))),
)

refused_test : (decide limit 1 100 (some 2000)).1.allowed ≡ false
unfolding decide
refused_test = refl

retry_after_exact_example :
    ((decide limit 1 (100 + 400) (some 2000)).1.allowed ≡ true)
    ↔ ((decide limit 1 100 (some 2000)).1.retry_after_ms ≤ 400)
retry_after_exact_example =
    retry_after_exact limit 1 100 400 (some 2000) (omega arith) (omega arith) refused_test
