-- ===== src/Request/Outgoing.antt =====
-- `requestHeaders` of lib/request-contract.js.
pub mod Headers
use node_red_contrib_pod_gat.Prelude.{
  ℕ, ◌+◌, ◌-◌, Bool, true, false, not, ◌&&◌, ◌||◌, Option, none, some, List, [], ◌∷◌, ◌++◌, map,
  nonempty, any, leb, Text, text_eq, codes, ◌==◌, is_some, or_else, if◌then◌else◌,
}
use node_red_contrib_pod_gat.Result.{Result, ok, throws, ◌>>=◌, caught}
use node_red_contrib_pod_gat.Json.{
  Value, null, bool, num, str, arr, obj, Items, Fields, end, field, items, entries, lookup,
  is_composite, to_text,
}
use node_red_contrib_pod_gat.Template.{
  Scope, url, header, has_url_template, has_line_break, resolve_template,
}
use node_red_contrib_pod_gat.Request.{
  lower, upper, member, http_methods, body_methods, request_keys, protected_headers,
  protected_header_set, Source, request_source, Request, normalize_request, request_fields, Schema,
  resolve_header, unsupported,
}

header_value : Scope → Value → Result Text
unfolding resolve_header
header_value scope (str text) = resolve_header scope text
header_value scope v = ok (to_text v)

abbrev is_dropped : List Text → Text → Value → Bool
is_dropped guarded key null = true
is_dropped guarded key v = member (lower key) guarded || is_composite v

checked_header : Text → Text → Result Text
checked_header key resolved =
    if has_line_break resolved
    then throws (codes "Header " ++ (key ++ codes " contains an invalid line break"))
    else ok resolved

header_entries : List Text → Scope → List (Text × Value) → Result (List (Text × Text))
unfolding lower member header_value checked_header
header_entries guarded scope [] = ok []
header_entries guarded scope ((key, v) ∷ fs) =
    let rest = header_entries guarded scope fs in
    if is_dropped guarded key v then rest else do
      resolved ← header_value scope v
      value ← checked_header key resolved
      others ← rest
      ok ((key, value) ∷ others)

-- `requestHeaders`: the headers that the caller's `_request.headers` adds to the upstream request.
unfoldable pub request_headers : Option Value → Scope → List Text → Result (List (Text × Text))
unfolding header_entries protected_header_set
request_headers (some (obj fs)) scope extra =
    header_entries (protected_header_set extra) scope (entries fs)
request_headers _ scope extra = ok []
