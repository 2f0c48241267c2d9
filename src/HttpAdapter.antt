-- ===== src/HttpAdapter.antt =====
-- lib/http-adapter.js: the headers of the upstream request, and what the adapter makes of the
-- upstream's answer. `fetch` is not modelled: what it gives is an input. The hooks `buildUrl`,
-- `buildBody` and `mapResponse` are left out.
pub mod Credentials
pub mod Examples
use node_red_contrib_pod_gat.Prelude.{
  ℕ, ◌-◌, Bool, true, false, not, ◌||◌, Option, none, some, List, [], ◌∷◌, ◌++◌, String, Text,
  text_eq, nat_eq, codes, eqb, ◌&&◌, nonempty, or_else, ◌==◌, if◌then◌else◌,
}
use Prim.Native.String.{◌++◌ as ◌<>◌}
use node_red_contrib_pod_gat.Map.{Map, set}
use node_red_contrib_pod_gat.Result.{Result, ok, throws}
use node_red_contrib_pod_gat.Json.{Value, null, str}
use node_red_contrib_pod_gat.Request.{Request, method_uses_body}
use node_red_contrib_pod_gat.Gateway.Types.{Failure}
use node_red_contrib_pod_gat.Gateway.Finish.{Ending, returned, raised}

-- A `retry-after` header as `Number` or `Date.parse` reads it: seconds in milliseconds, rounded up, or
-- a date.
pub data RetryAfter : Type 0 where
  absent unreadable : RetryAfter
  delay date : ℕ → RetryAfter

unfoldable pub parse_retry_after : ℕ → RetryAfter → Option ℕ
parse_retry_after now absent = none
parse_retry_after now unreadable = none
parse_retry_after now (delay ms) = some ms
parse_retry_after now (date t) = some (t - now)

-- `new UpstreamError(code, message, options)`
abbrev pub upstream_error : String → Text → Bool → Option ℕ → Option ℕ → Failure
upstream_error code message retryable retry_after_ms status = record {
  code = code;
  message = message;
  retryable = retryable;
  retry_after_ms = retry_after_ms;
  details = none;
  status = status;
  response_body = none;
}

-- A response of `fetch`: its status, its `ok`, whether its content type includes "json", the body as
-- text, and what `json()` gives or throws. `digits` is the status as text.
pub record Response : Type 0 where
  pub status : ℕ
  pub digits : String
  pub is_ok : Bool
  pub is_json : Bool
  pub text : Text
  pub json : Result Value
  pub retry_after : RetryAfter

-- How `fetch` ends.
pub data Fetched : Type 0 where
  aborted : Fetched
  network_error : Text → Fetched
  response : Response → Fetched

unfoldable pub is_retryable : ℕ → Bool
is_retryable status = eqb status 429 || eqb status 502 || eqb status 503 || eqb status 504

-- The body that the adapter reads.
unfoldable pub read_body : Text → Response → Result Value
read_body method r =
    if method == codes "HEAD" then ok null else if r.is_json then r.json else ok (str r.text)

abbrev pub http_error : ℕ → Response → Value → Failure
http_error now r body =
    record (upstream_error (◌<>◌ "UPSTREAM_HTTP_" r.digits)
      (codes "External API returned HTTP " ++ codes r.digits) (is_retryable r.status)
      (parse_retry_after now r.retry_after) (some r.status)) { response_body = some body }

-- The end of the adapter's call for a response. The error of `json()` has no code.
unfoldable pub answer : ℕ → Response → Result Value → Ending
answer now r (throws message) = raised (upstream_error "" message false none none)
answer now r (ok body) = if r.is_ok then returned body else raised (http_error now r body)

unfoldable pub call_ending : Text → ℕ → Fetched → Ending
call_ending method now aborted =
    raised
      (upstream_error "UPSTREAM_TIMEOUT" (codes "External API request timed out") true none none)
call_ending method now (network_error message) =
    raised (upstream_error "UPSTREAM_NETWORK_ERROR" message true none none)
call_ending method now (response r) = answer now r (read_body method r)

-- `{ ...a, ...b }`
unfoldable pub spread {ℓ} : {V : Type ℓ} → Map Text V → List (Text × V) → Map Text V
spread a [] = a
spread a ((key, value) ∷ b) = spread (set a key value) b

-- The headers of the upstream request: the defaults, the configured ones and the caller's.
unfoldable pub merged_headers : List (Text × Text) → List (Text × Text) → Map Text Text
merged_headers configured caller =
    spread
      (spread
        ((codes "accept", codes "application/json")
          ∷ (codes "content-type", codes "application/json")
          ∷ [])
        configured)
      caller

abbrev pub with_key : Text → Option Text → Map Text Text → Map Text Text
with_key header none headers = headers
with_key header (some key) headers =
    if nonempty header && nonempty key then set headers header key else headers

-- The headers that `fetch` gets: the merged ones, the idempotency key under the header that the
-- adapter has for it, and `connection: close` where connections are not kept.
unfoldable pub upstream_headers :
    Text → Option Text → Bool → List (Text × Text) → List (Text × Text) → Map Text Text
upstream_headers idempotency_header idempotency_key keep_alive configured caller =
    let headers = with_key idempotency_header idempotency_key (merged_headers configured caller) in
    if keep_alive then headers else set headers (codes "connection") (codes "close")

-- The body that `fetch` gets, before `JSON.stringify`, without the hook `buildBody`.
unfoldable pub default_body : Text → Request → Value → Value
default_body method request payload =
    if method_uses_body method then or_else request.body payload else payload

unfoldable pub sent_body : Text → Request → Value → Option Value
sent_body method request payload =
    if method == codes "GET" || method == codes "HEAD"
    then none
    else some (default_body method request payload)
