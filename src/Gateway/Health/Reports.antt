-- ===== src/Gateway/Health/Reports.antt =====
-- A warning of `_checkClaimIdleMargin` comes once for an operation.
use node_red_contrib_pod_gat.Prelude.{
  ℕ, ◌≡◌, refl, true, false, Option, none, some, List, Text, text_eq, text_beq_iff, arith,
}
use node_red_contrib_pod_gat.Gateway.Health.{check_claim_idle_margin}

-- A second call about an operation does not warn if the first one did, whatever the timeouts are.
pub check_claim_idle_margin-once :
    (idle : Option ℕ) (warned : List Text) (operation : Text) (first second : ℕ)
    → (check_claim_idle_margin idle warned operation first).1 ≡ true
    → (check_claim_idle_margin idle
        (check_claim_idle_margin idle warned operation first).0
        operation
        second).1
      ≡ false
unfolding check_claim_idle_margin
check_claim_idle_margin-once none warned operation first second h = refl
check_claim_idle_margin-once (some idle) warned operation first second h =
    ground (arith, text_beq_iff operation operation)
