-- ===== src/Gateway/Health.antt =====
-- `_health` and `_checkClaimIdleMargin`: what the server reports and warns of. They change nothing of
-- the scheduler.
pub mod Reports
use node_red_contrib_pod_gat.Prelude.{
  ℕ, Bool, true, false, not, ◌&&◌, ◌||◌, Option, none, some, List, [], ◌∷◌, String, Text, string_eq,
  text_eq, ◌==◌, any, length, leb, eqb, if◌then◌else◌,
}
use node_red_contrib_pod_gat.Gateway.Types.{Gateway}

-- The status and the body of an answer. `rate_limiter_ready` is there if there is a limiter.
pub data Report : Type 0 where
  not_found : Report
  report :
      (status : ℕ) (ok : Bool) (queue_depth active : ℕ) (rate_limiter_ready : Option Bool) → Report

-- `isReady !== false` of the limiter's client; there may be no limiter.
abbrev pub limiter_ready : Option Bool → Bool
limiter_ready none = true
limiter_ready (some ready) = ready

-- `_health` with no Redis queue.
unfoldable pub health : Gateway → String → Option Bool → Report
health g url limiter =
    if not (url == "/healthz" || url == "/readyz")
    then not_found
    else let ready = g.started && limiter_ready limiter in
      report (if ready then 200 else 503) ready (length g.memory_queue) g.active limiter

-- `_checkClaimIdleMargin`: the operations that were warned of, and whether this call warns. The
-- queue's `claimIdleMs` may be missing.
unfoldable pub check_claim_idle_margin : Option ℕ → List Text → Text → ℕ → List Text × Bool
check_claim_idle_margin none warned operation timeout_ms = (warned, false)
check_claim_idle_margin (some idle_ms) warned operation timeout_ms =
    if eqb idle_ms 0 || leb timeout_ms idle_ms || any (λ o. o == operation) warned
    then (warned, false)
    else (operation ∷ warned, true)
