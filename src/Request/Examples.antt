-- ===== src/Request/Examples.antt =====
-- The theorems about lib/request-contract.js at concrete requests.
use node_red_contrib_pod_gat.Prelude.{◌≡◌, refl, Option, some, none, [], ◌∷◌, All, codes, text_eq}
use node_red_contrib_pod_gat.Result.{ok}
use node_red_contrib_pod_gat.Json.{Value, num, str, obj, end, field, lookup}
use node_red_contrib_pod_gat.Template.{Scope, has_url_template, match_template, has_line_break}
use node_red_contrib_pod_gat.Request.{
  lower, member, protected_header_set, normalize_request, request_fields, resolve_header,
  request_source, from_input, add_field,
}
use node_red_contrib_pod_gat.Request.Outgoing.{request_headers}
use node_red_contrib_pod_gat.Request.Outgoing.Headers.{IsSafe, request_headers-IsSafe}
use node_red_contrib_pod_gat.Request.Validation.{validate_request}
use node_red_contrib_pod_gat.Request.Validation.Canonical.{validate_request-stored}

abbrev pub scope : Scope
scope = record { payload = num (codes "1"); request = end; context = end; globals = end }

-- The adapter protects X-Key; a caller sends it, a cookie and a language.
abbrev pub headers : Value
headers = obj (
    field (codes "x-key") (str (codes "k"))
      (field (codes "Cookie") (str (codes "c")) (field (codes "Lang") (str (codes "en")) end)))

pub headers_test :
    request_headers (some headers) scope (codes "X-Key" ∷ []) ≡ ok ((codes "Lang", codes "en") ∷ [])
unfolding request_headers lower member protected_header_set resolve_header has_url_template
    match_template has_line_break
headers_test = refl

request_headers-IsSafe_example :
    All (IsSafe (protected_header_set (codes "X-Key" ∷ []))) ((codes "Lang", codes "en") ∷ [])
request_headers-IsSafe_example =
    request_headers-IsSafe (some headers) scope (codes "X-Key" ∷ [])
      ((codes "Lang", codes "en") ∷ []) headers_test

abbrev greeting : Option Value
greeting =
    some (obj (field (codes "headers") (obj (field (codes "Lang") (str (codes "en")) end)) end))

valid_test : validate_request (num (codes "1")) greeting none end ≡ []
unfolding validate_request lower member protected_header_set resolve_header has_url_template
    match_template has_line_break normalize_request request_source request_fields from_input
    add_field lookup
valid_test = refl

validate_request-stored_example :
    validate_request
      (num (codes "1"))
      (some (obj (request_fields (normalize_request greeting))))
      none
      end
    ≡ []
validate_request-stored_example =
    validate_request-stored (num (codes "1")) greeting none end valid_test
