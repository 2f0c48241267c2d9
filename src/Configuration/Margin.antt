-- ===== src/Configuration/Margin.antt =====
-- The numbers that nodes/gateway-server-config.js derives, over the whole numbers, and the upstream
-- timeout of the server that is given them.
use node_red_contrib_pod_gat.Prelude.{
  ℕ, ◌+◌, ◌≤◌, ◌≡◌, true, false, Option, none, some, List, Text, text_eq, max, leb, eqb, arith,
  Bool-cases, Option-cases, inl, inr,
}
use node_red_contrib_pod_gat.Gateway.Types.{Config, Item}
use node_red_contrib_pod_gat.Gateway.Timing.{or_number, execution_timeout}
use node_red_contrib_pod_gat.Gateway.Health.{check_claim_idle_margin}

abbrev pub claim_idle_margin_ms : ℕ
claim_idle_margin_ms = 30000

abbrev pub default_claim_idle_ms : ℕ
default_claim_idle_ms = 120000

-- `Number(config.upstreamTimeoutMs || 60000)`
abbrev pub upstream_timeout_of : Option ℕ → ℕ
upstream_timeout_of configured = or_number configured 60000

-- `claimIdleMs`
unfoldable pub claim_idle_of : Option ℕ → ℕ
claim_idle_of configured =
    max default_claim_idle_ms (upstream_timeout_of configured + claim_idle_margin_ms)

-- The timeout of a request, its own or the server's.
chosen-le :
    (own : Option ℕ) (server configured : ℕ)
    → server ≡ configured
    → or_number own 0 ≤ 120000
    → max 1 (or_number own server) ≤ max 120000 (configured + 30000)
chosen-le none server configured same h = omega (arith, same)
chosen-le (some n) server configured same h = elim (Bool-cases (eqb n 0)) [
  | inl e ↦ rw e (omega (arith, same))
  | inr e ↦ let bound : n ≤ 120000 = rw e at h in rw e (omega (arith, bound))
]

timeout-le :
    (c : Config) (configured : Option ℕ) (item : Item) (now : ℕ)
    → c.upstream_timeout_ms ≡ upstream_timeout_of configured
    → or_number item.message.upstream_timeout_ms 0 ≤ 120000
    → execution_timeout c item now ≤ claim_idle_of configured
unfolding execution_timeout claim_idle_of
timeout-le c configured item now same own =
    let bound =
      chosen-le item.message.upstream_timeout_ms c.upstream_timeout_ms
        (upstream_timeout_of configured) same own in
    elim (Option-cases item.message.deadline_at) [
      | inl e ↦ rw (e, execution_timeout) bound
      | inr (t, e) ↦ rw (e, execution_timeout) (omega (arith, bound))
    ]

-- The server has the upstream timeout that its node was configured with, and the request brings no
-- timeout of its own above two minutes. Then the timeout of the call, whatever its deadline is, is at most
-- the `claimIdleMs` that the node derives, and `_checkClaimIdleMargin` does not warn of the call, whatever
-- was warned of before.
pub claim_idle_of-quiet :
    (c : Config) (configured : Option ℕ) (item : Item) (now : ℕ) (warned : List Text)
    → c.upstream_timeout_ms ≡ upstream_timeout_of configured
    → or_number item.message.upstream_timeout_ms 0 ≤ 120000
    → (execution_timeout c item now ≤ claim_idle_of configured)
      × (check_claim_idle_margin
            (some (claim_idle_of configured))
            warned
            item.operation.value
            (execution_timeout c item now)
          ≡ (warned, false))
unfolding check_claim_idle_margin
claim_idle_of-quiet c configured item now warned same own =
    let bound = timeout-le c configured item now same own in
    let within : leb (execution_timeout c item now) (claim_idle_of configured) ≡ true =
      ground (arith, bound) in
    (bound, ground (arith, bound, within))
