-- ===== src/Redis/Reconnect.antt =====
-- lib/redis-reconnect.js: the delay before a connection is tried again, and the throttled log.
use node_red_contrib_pod_gat.Prelude.{
  ℕ, ◌+◌, ◌-◌, ◌*◌, ◌≤◌, ◌<◌, ◌≡◌, ◌⊎◌, inl, inr, refl, Bool-cases, Bool, true, false, not, ◌&&◌,
  codes, min, ltb, leb, arith, List, ◌∷◌, if◌then◌else◌,
}
use node_red_contrib_pod_gat.Result.{Result, ok, throws}

-- The options of `createReconnectStrategy`.
pub record Options : Type 0 where
  pub max_delay_ms : ℕ
  pub step_ms : ℕ
  pub max_initial_retries : ℕ

abbrev pub default_options : Options
default_options = record { max_delay_ms = 5000; step_ms = 200; max_initial_retries = 2 }

-- The strategy after this many retries: the delay, or the error that ends the retries.
unfoldable pub reconnect : Options → Bool → ℕ → Result ℕ
reconnect o ever_ready retries =
    if not ever_ready && ltb o.max_initial_retries retries
    then throws (codes "Redis connection failed")
    else ok (min (retries * o.step_ms) o.max_delay_ms)

-- What `attachErrorLogger` keeps for a client, with the strategy's `everReady`. Lines are the log,
-- the latest first.
pub data Line : Type 0 where
  failing restored : Line

pub record Watch : Type 0 where
  pub last_logged_at : ℕ
  pub down : Bool
  pub ever_ready : Bool
  pub lines : List (ℕ × Line)

-- The client's `error` event.
unfoldable pub on_error : ℕ → ℕ → Watch → Watch
on_error throttle_ms now w =
    if leb throttle_ms (now - w.last_logged_at)
    then record w { down = true; last_logged_at = now; lines = (now, failing) ∷ w.lines }
    else record w { down = true }

-- The client's `ready` event.
unfoldable pub on_ready : ℕ → Watch → Watch
on_ready now w =
    if w.down
    then record w { ever_ready = true; down = false; lines = (now, restored) ∷ w.lines }
    else record w { ever_ready = true }

-- The strategy gives up exactly if the client was never ready and the retries exceed the first ones;
-- otherwise its delay is at most the configured one, and a later retry has no shorter delay.
pub reconnect-delay :
    (o : Options) (ever_ready : Bool) (retries : ℕ)
    → ((ever_ready ≡ false)
        × (o.max_initial_retries < retries)
        × (reconnect o ever_ready retries ≡ throws (codes "Redis connection failed")))
      ⊎ ((delay : ℕ) × (reconnect o ever_ready retries ≡ ok delay)
          × (delay ≤ o.max_delay_ms)
          × ((more : ℕ) → delay ≤ min ((retries + more) * o.step_ms) o.max_delay_ms))
unfolding reconnect
reconnect-delay o ever_ready retries =
    elim (Bool-cases (not ever_ready && ltb o.max_initial_retries retries)) [
      | inl e ↦ inl (ground arith, ground arith, rw e refl)
      | inr e ↦
          inr
            (min (retries * o.step_ms) o.max_delay_ms, rw e refl, omega arith, λ more. grind arith)
    ]

-- After an error that was logged, an error within the throttle time is not logged.
pub on_error-throttle :
    (throttle_ms now later : ℕ) (w : Watch)
    → leb throttle_ms (now - w.last_logged_at) ≡ true
    → now ≤ later
    → later < now + throttle_ms
    → (on_error throttle_ms later (on_error throttle_ms now w)).lines
      ≡ (on_error throttle_ms now w).lines
unfolding on_error
on_error-throttle throttle_ms now later w h j k = ground arith
