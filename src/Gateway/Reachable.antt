-- ===== src/Gateway/Reachable.antt =====
-- What holds of the server of lib/gateway-server.js in every state that it reaches, whatever the
-- frames, the rate limiter's answers, the adapters' results, the timers and their order.
use node_red_contrib_pod_gat.Prelude.{
  ℕ, ◌+◌, ◌≡◌, refl, false, List, [], ◌∷◌, String, Text, text_eq, arith, string_eq, is_some, ltb,
}
use node_red_contrib_pod_gat.Map.{Map, get}
use node_red_contrib_pod_gat.Gateway.Types.{Gateway, Config, Adapter}
use node_red_contrib_pod_gat.Gateway.Steps.{Event, step, run, init}
use node_red_contrib_pod_gat.Gateway.Core.{Core, core, Move}
use node_red_contrib_pod_gat.Gateway.Core.Requests.{step-Refines}
use node_red_contrib_pod_gat.Gateway.Core.Counting.{live, one_if}
use node_red_contrib_pod_gat.Gateway.Core.Tally.{
  has_serial, has_key, times, IsTallied, IsKeyed, Move-IsTallied, Move-IsKeyed,
}
use node_red_contrib_pod_gat.Gateway.Core.Capacity.{IsBusy, Move-IsBusy, stalled, Move-stalled}
use node_red_contrib_pod_gat.Gateway.Core.Attempts.{IsBounded, Move-IsBounded}

-- What every move keeps holds along a run.
run-keeps :
    (P : Core → Type 0)
    → ((c d : Core) → Move c d → P c → P d)
    → (g : Gateway) (es : List (ℕ × Event)) → P (core g)
    → P (core (run g es))
unfolding run
run-keeps P keeps g [] p = p
run-keeps P keeps g ((now, e) ∷ es) p =
    run-keeps P keeps (step g now e) es
      (keeps (core g) (core (step g now e)) (step-Refines g now e).move p)

-- The server after a run from its start.
abbrev pub reached : Config → Map Text Adapter → List (ℕ × Event) → Gateway
reached c adapters es = run (init c adapters) es

-- After any run, a serial number is carried by exactly one unfinished request or stands exactly once
-- among the completed ones if it was given to an accepted request, and neither if it was not.
pub nothing_lost :
    (c : Config) (adapters : Map Text Adapter) (es : List (ℕ × Event)) (n : ℕ)
    → live (has_serial n) (core (reached c adapters es))
        + times n (core (reached c adapters es)).completed
      ≡ one_if (ltb n (reached c adapters es).next_serial)
nothing_lost c adapters es n =
    run-keeps IsTallied Move-IsTallied (init c adapters) es (λ m. ground arith) n

-- After any run, as many unfinished requests carry an idempotency key as `inflightIdempotency` has
-- entries for it: one if the key is claimed, none if it is free.
pub one_per_key :
    (c : Config) (adapters : Map Text Adapter) (es : List (ℕ × Event)) (key : String)
    → live (has_key key) (core (reached c adapters es))
      ≡ one_if (is_some (get (reached c adapters es).inflight_idempotency key))
unfolding get
one_per_key c adapters es key = run-keeps IsKeyed Move-IsKeyed (init c adapters) es (λ k. refl) key

-- After any run, `active` counts the executing and the settling requests, and with the request that
-- waits for the rate limiter it is at most the concurrency.
pub within_concurrency :
    (c : Config) (adapters : Map Text Adapter) (es : List (ℕ × Event))
    → IsBusy (core (reached c adapters es))
within_concurrency c adapters es =
    run-keeps IsBusy Move-IsBusy (init c adapters) es
      (record { counted = refl; within = omega arith })

-- After any run, a queued request with a free slot is going to be taken: the pump turns or waits for
-- the rate limiter, or its timer is set.
pub never_stalled :
    (c : Config) (adapters : Map Text Adapter) (es : List (ℕ × Event))
    → stalled (core (reached c adapters es)) ≡ false
never_stalled c adapters es =
    run-keeps (λ d. stalled d ≡ false) Move-stalled (init c adapters) es refl

-- After any run, a request that waits was tried at most `maxAttempts` times, and one that executes at
-- most once more.
pub attempts-IsBounded :
    (c : Config) (adapters : Map Text Adapter) (es : List (ℕ × Event))
    → IsBounded (core (reached c adapters es))
attempts-IsBounded c adapters es =
    run-keeps IsBounded Move-IsBounded (init c adapters) es
      (record { queued = tt; held = tt; executed = tt; waiting = tt })
