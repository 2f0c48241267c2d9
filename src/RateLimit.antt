-- ===== src/RateLimit.antt =====
-- lib/in-memory-rate-limiter.js and lib/redis-rate-limiter.js: which limit applies to a call, and
-- the generic cell rate algorithm (GCRA) that decides it.
-- A rate is a positive whole number of calls per second. The code counts in milliseconds and spends
-- 1000 / rate of them on a call; here every such time is multiplied by the rate, so that all of them
-- are whole numbers and the arithmetic is exact: `tat` stands for rate * tat.
pub mod Admission
pub mod Examples
use node_red_contrib_pod_gat.Prelude.{
  ℕ, ◌+◌, ◌-◌, ◌*◌, ◌/◌, Bool, true, false, not, ◌&&◌, Option, none, some, max, nonempty, Text,
  text_eq, codes, ltb, eqb, or_else, if◌then◌else◌,
}
use node_red_contrib_pod_gat.Map.{Map, get, set}
use node_red_contrib_pod_gat.Protocol.Text.{trim}

pub record Limit : Type 0 where
  pub rate : ℕ
  pub burst : Option ℕ

pub record Selected : Type 0 where
  pub config : Option Limit
  pub bucket : Text

pub record Decision : Type 0 where
  pub allowed : Bool
  pub retry_after_ms : ℕ

abbrev pub Limits : Type 0
Limits = Map Text Limit

or_text : Text → Text → Text
or_text a b = if nonempty a then a else b

default_limit : Limits → Text → Text → Selected
unfolding or_text get
default_limit limits operation service = elim (get limits (codes "default")) [
  | some l ↦ record { config = some l; bucket = codes "default" }
  | none ↦ record { config = none; bucket = or_text service operation }
]

-- The configured limit of a key that is not empty.
own_limit : Limits → Text → Option Limit
unfolding get
own_limit limits key = if nonempty key then get limits key else none

-- `selectLimit`: the operation's limit, else the service's, else the default.
unfoldable pub select_limit : Limits → Text → Text → Selected
unfolding trim own_limit default_limit
select_limit limits service operation =
    let operation_key = trim operation in
    let service_key = trim service in
    elim (own_limit limits operation_key) [
      | some l ↦ record { config = some l; bucket = operation_key }
      | none ↦ elim (own_limit limits service_key) [
        | some l ↦ record { config = some l; bucket = service_key }
        | none ↦ default_limit limits operation_key service_key
      ]
    ]

-- The limit of a call: the operation's own one comes first.
unfoldable pub selected_limit : Limits → Text → Text → Option Limit → Selected
unfolding select_limit or_text
selected_limit limits service operation (some l) = record {
  config = some l;
  bucket = trim (or_text operation service);
}
selected_limit limits service operation none = select_limit limits service operation

-- `Math.ceil(a / b)`
abbrev pub ceil_div : ℕ → ℕ → ℕ
ceil_div a b = (a + (b - 1)) / b

abbrev pub tolerance : Limit → ℕ
tolerance l = 1000 * or_else l.burst 1

-- `tat` of the call, moved up to now.
abbrev pub arrival : Limit → Option ℕ → ℕ → ℕ
arrival l tat now = max (or_else tat 0) (now * l.rate)

-- One decision: the stored `tat` after it, and the answer.
unfoldable pub decide : Limit → ℕ → ℕ → Option ℕ → Option ℕ × Decision
decide l cost now tat =
    let new_tat = arrival l tat now + 1000 * cost in
    if ltb (now * l.rate + tolerance l) new_tat
    then (
      tat,
      record {
        allowed = false;
        retry_after_ms = ceil_div (new_tat - tolerance l - now * l.rate) l.rate;
      },
    )
    else (some new_tat, record { allowed = true; retry_after_ms = 0 })

-- The limiter's state: a `tat` for each bucket.
abbrev pub Tats : Type 0
Tats = Map Text ℕ

store : Tats → Text → Option ℕ → Tats
unfolding set
store tats bucket none = tats
store tats bucket (some tat) = set tats bucket tat

-- `allow` of InMemoryGcraRateLimiter for a selected limit: no limit, or one of rate 0, admits.
unfoldable pub allow_selected : Text → Selected → ℕ → ℕ → Tats → Tats × Decision
unfolding decide store get or_text
allow_selected service s cost now tats = elim s.config [
  | none ↦ (tats, record { allowed = true; retry_after_ms = 0 })
  | some l ↦
      if eqb l.rate 0
      then (tats, record { allowed = true; retry_after_ms = 0 })
      else let bucket = or_text s.bucket service in
        let (tat, decision) = decide l cost now (get tats bucket) in
        (store tats bucket tat, decision)
]

unfoldable pub allow : Limits → Text → ℕ → Text → Option Limit → ℕ → Tats → Tats × Decision
unfolding allow_selected selected_limit
allow limits service cost operation own now tats =
    allow_selected service (selected_limit limits service operation own) cost now tats
