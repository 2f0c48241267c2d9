-- ===== src/HttpAdapter/Examples.antt =====
-- The headers of lib/http-adapter.js at concrete headers.
use node_red_contrib_pod_gat.Prelude.{◌≡◌, refl, false, some, [], ◌∷◌, List, Text, codes, text_eq}
use node_red_contrib_pod_gat.Map.{set}
use node_red_contrib_pod_gat.HttpAdapter.{spread, merged_headers, upstream_headers}

abbrev configured : List (Text × Text)
configured = (codes "X-Key", codes "secret") ∷ []

-- Names are told apart by case: a caller's `Connection` stays beside the adapter's `connection`.
two_connections :
    upstream_headers
      (codes "Idempotency-Key")
      (some (codes "k1"))
      false
      configured
      ((codes "Connection", codes "keep-alive") ∷ [])
    ≡ (codes "accept", codes "application/json")
      ∷ (codes "content-type", codes "application/json")
      ∷ (codes "X-Key", codes "secret")
      ∷ (codes "Connection", codes "keep-alive")
      ∷ (codes "Idempotency-Key", codes "k1")
      ∷ (codes "connection", codes "close")
      ∷ []
unfolding upstream_headers merged_headers spread set
two_connections = refl
