-- ===== src/Request.antt =====
-- lib/request-contract.js: what a caller may put into `_request`, and the envelope of a result.
pub mod Validation
pub mod Outgoing
pub mod Normal
pub mod Examples
use node_red_contrib_pod_gat.Prelude.{
  ℕ, ◌+◌, ◌-◌, Bool, true, false, not, ◌&&◌, ◌||◌, Option, none, some, List, [], ◌∷◌, ◌++◌, map,
  nonempty, any, leb, Text, text_eq, codes, ◌==◌, is_some, or_else, if◌then◌else◌,
}
use node_red_contrib_pod_gat.Result.{Result, ok, throws, ◌>>=◌, caught}
use node_red_contrib_pod_gat.Json.{
  Value, null, bool, num, str, arr, obj, Items, Fields, end, field, items, entries, lookup,
  is_composite, to_text,
}
use node_red_contrib_pod_gat.Template.{
  Scope, url, header, has_url_template, has_line_break, resolve_template,
}

-- `String.prototype.toLowerCase` and `toUpperCase` on ASCII.
abbrev lower_char : ℕ → ℕ
lower_char c = if leb b'A' c && leb c b'Z' then c + 32 else c

abbrev upper_char : ℕ → ℕ
upper_char c = if leb b'a' c && leb c b'z' then c - 32 else c

unfoldable pub lower : Text → Text
lower = map lower_char

unfoldable pub upper : Text → Text
upper = map upper_char

unfoldable pub member : Text → List Text → Bool
member t ts = any (λ u. u == t) ts

abbrev pub http_methods : List Text
http_methods =
    codes "GET" ∷ codes "POST" ∷ codes "PUT" ∷ codes "PATCH" ∷ codes "DELETE" ∷ codes "HEAD" ∷ []

abbrev pub body_methods : List Text
body_methods = codes "POST" ∷ codes "PUT" ∷ codes "PATCH" ∷ codes "DELETE" ∷ []

abbrev pub request_keys : List Text
request_keys =
    codes "params"
    ∷ codes "query"
    ∷ codes "headers"
    ∷ codes "body"
    ∷ codes "method"
    ∷ codes "payload"
    ∷ []

abbrev pub protected_headers : List Text
protected_headers =
    codes "authorization"
    ∷ codes "cookie"
    ∷ codes "host"
    ∷ codes "content-length"
    ∷ codes "proxy-authorization"
    ∷ codes "x-api-key"
    ∷ codes "x-auth-token"
    ∷ codes "x-rapidapi-key"
    ∷ codes "api-key"
    ∷ []

add_names : List Text → List Text
unfolding lower
add_names [] = []
add_names (name ∷ names) =
    let rest = add_names names in if nonempty name then lower name ∷ rest else rest

unfoldable pub protected_header_set : List Text → List Text
unfolding add_names
protected_header_set extra = protected_headers ++ add_names extra

-- The result of `requestSource`.
pub record Source : Type 0 where
  pub source : Fields
  pub envelope : Bool
  pub error : Option Text

from_input : Fields → Option Value → Source
from_input fs none = record { source = fs; envelope = false; error = none }
from_input fs (some (obj input)) = record { source = input; envelope = true; error = none }
from_input fs (some _) = record {
  source = end;
  envelope = true;
  error = some (codes "_request.input must be an object");
}

unfoldable pub request_source : Option Value → Source
unfolding from_input lookup
request_source none = record { source = end; envelope = false; error = none }
request_source (some (obj fs)) = from_input fs (lookup (codes "input") fs)
request_source (some _) = record {
  source = end;
  envelope = false;
  error = some (codes "_request must be an object");
}

-- The canonical transport options.
pub record Request : Type 0 where
  pub params : Option Value
  pub query : Option Value
  pub headers : Option Value
  pub body : Option Value

unfoldable pub normalize_request : Option Value → Request
unfolding request_source lookup
normalize_request value =
    let source = (request_source value).source in
    record {
      params = lookup (codes "params") source;
      query = lookup (codes "query") source;
      headers = lookup (codes "headers") source;
      body = lookup (codes "body") source;
    }

add_field : Text → Option Value → Fields → Fields
add_field key none fs = fs
add_field key (some v) fs = field key v fs

-- The request as an object, which is what is stored in the item and sent back.
unfoldable pub request_fields : Request → Fields
unfolding add_field
request_fields r = add_field (codes "params") r.params (
    add_field (codes "query") r.query
      (add_field (codes "headers") r.headers (add_field (codes "body") r.body end)))

-- `requestSchema(method, template)`, with the credential headers of the adapter.
pub record Schema : Type 0 where
  pub method : Text
  pub template : Text
  pub body : Bool
  pub protected : List Text

unfoldable pub method_uses_body : Text → Bool
unfolding upper member
method_uses_body method = member (upper method) body_methods

unsupported : Text → Text
unsupported method =
    codes "Unsupported HTTP method "
    ++ (method ++ codes "; use GET, POST, PUT, PATCH, DELETE or HEAD")

unfoldable pub request_schema : Text → Text → Result Schema
unfolding method_uses_body unsupported
request_schema method template =
    let normalized = upper (if nonempty method then method else codes "POST") in
    if member normalized http_methods
    then ok (record {
      method = normalized;
      template = template;
      body = method_uses_body normalized;
      protected = [];
    })
    else throws (unsupported normalized)

-- A header's text, with its templates resolved.
unfoldable pub resolve_header : Scope → Text → Result Text
resolve_header scope text =
    if has_url_template text then resolve_template header scope text else ok text
