-- ===== src/Request/Validation.antt =====
-- `validateRequest` and `validationError` of lib/request-contract.js. The errors are a list, in the
-- order in which the code pushes them.
pub mod Canonical
use node_red_contrib_pod_gat.Prelude.{
  Bool, true, false, not, ◌&&◌, ◌||◌, Option, none, some, List, [], ◌∷◌, ◌++◌, nonempty, any, Text,
  text_eq, codes, ◌==◌, is_some, if◌then◌else◌,
}
use node_red_contrib_pod_gat.Result.{Result, ok, throws, caught}
use node_red_contrib_pod_gat.Json.{
  Value, str, arr, obj, Fields, end, items, entries, lookup, is_composite,
}
use node_red_contrib_pod_gat.Template.{
  Scope, url, has_url_template, has_line_break, resolve_template,
}
use node_red_contrib_pod_gat.Request.{
  lower, upper, member, http_methods, request_keys, protected_header_set, Source, request_source,
  Request, normalize_request, request_fields, Schema, resolve_header, unsupported,
}

abbrev when : Bool → Text → List Text
when true e = e ∷ []
when false e = []

-- _request.<name><text>
about : Text → Text → Text
about name text = codes "_request." ++ (name ++ text)

check_keys : Bool → List (Text × Value) → List Text
unfolding member about
check_keys envelope [] = []
check_keys envelope ((key, v) ∷ fs) =
    when (not (member key request_keys) || key == codes "payload" && not envelope)
      (about key (codes " is not supported; use params, query, headers or body"))
    ++ check_keys envelope fs

check_schema_method : Option Schema → Text → List Text
unfolding upper
check_schema_method none method = []
check_schema_method (some schema) method =
    when (not (upper schema.method == method)) (codes "_request.method must be " ++ schema.method)

check_method : Option Schema → Option Value → List Text
unfolding upper member unsupported check_schema_method
check_method schema none = []
check_method schema (some (str method)) =
    if member (upper method) http_methods
    then check_schema_method schema (upper method)
    else unsupported (upper method) ∷ []
check_method schema (some _) = codes "_request.method must be a string" ∷ []

-- `isPlainObject`
unfoldable pub is_plain_object : Value → Bool
is_plain_object (obj fs) = true
is_plain_object _ = false

check_object : Text → Option Value → List Text
unfolding about is_plain_object
check_object name none = []
check_object name (some v) =
    when (not (is_plain_object v)) (about name (codes " must be an object"))

check_param_values : List (Text × Value) → List Text
unfolding about
check_param_values [] = []
check_param_values ((key, v) ∷ fs) =
    when (is_composite v) (about (codes "params." ++ key) (codes " must be a scalar value"))
    ++ check_param_values fs

check_params : Option Value → List Text
unfolding check_param_values
check_params (some (obj fs)) = check_param_values (entries fs)
check_params _ = []

-- `Array.isArray(value) ? value : [value]`
abbrev alternatives : Value → List Value
alternatives (arr vs) = items vs
alternatives v = v ∷ []

check_query_values : List (Text × Value) → List Text
unfolding about
check_query_values [] = []
check_query_values ((key, v) ∷ fs) =
    when (any is_composite (alternatives v))
      (about (codes "query." ++ key) (codes " must contain scalar values"))
    ++ check_query_values fs

check_query : Option Value → List Text
unfolding check_query_values
check_query (some (obj fs)) = check_query_values (entries fs)
check_query _ = []

check_resolved : Text → Result Text → List Text
unfolding about
check_resolved key (ok resolved) =
    when (has_line_break resolved)
      (about (codes "headers." ++ key) (codes " contains an invalid line break"))
check_resolved key (throws e) = e ∷ []

check_header_value : Scope → Text → Value → List Text
unfolding about check_resolved resolve_header
check_header_value scope key (str text) = check_resolved key (resolve_header scope text)
check_header_value scope key v =
    when (is_composite v) (about (codes "headers." ++ key) (codes " must be a scalar value"))

check_header_fields : List Text → Scope → List (Text × Value) → List Text
unfolding about lower member check_header_value
check_header_fields guarded scope [] = []
check_header_fields guarded scope ((key, v) ∷ fs) =
    when (member (lower key) guarded)
      (about (codes "headers." ++ key) (codes " is managed by the Gateway API Config"))
    ++ (check_header_value scope key v ++ check_header_fields guarded scope fs)

abbrev protected_of : Option Schema → List Text
protected_of none = []
protected_of (some schema) = schema.protected

check_headers : Option Schema → Scope → Option Value → List Text
unfolding check_header_fields protected_header_set
check_headers schema scope (some (obj fs)) =
    check_header_fields (protected_header_set (protected_of schema)) scope (entries fs)
check_headers schema scope _ = []

check_body : Option Schema → Option Value → List Text
check_body none body = []
check_body (some schema) body =
    when (not schema.body && is_some body)
      (schema.method ++ codes " requests must use _request.query instead of _request.body")

check_template : Option Schema → Scope → List Text
check_template none scope = []
check_template (some schema) scope =
    if nonempty schema.template && has_url_template schema.template
    then caught (resolve_template url scope schema.template)
    else []

check_source : Source → List Text
unfolding check_keys
check_source s = elim s.error [ some e ↦ e ∷ [] | none ↦ check_keys s.envelope (entries s.source) ]

-- What templates read while a request is validated: `{ ...context, request }`.
abbrev pub validation_scope : Value → Request → Fields → Scope
unfolding request_fields
validation_scope payload request context = record {
  payload = payload;
  request = request_fields request;
  context = context;
  globals = end;
}

-- The errors of `validateRequest`, in the order in which they are pushed.
unfoldable pub validate_request : Value → Option Value → Option Schema → Fields → List Text
unfolding request_source normalize_request check_source check_method check_object check_params
    check_query check_headers check_body check_template
validate_request payload value schema context =
    let source = request_source value in
    let request = normalize_request value in
    let scope = validation_scope payload request context in
    check_source source
    ++ (check_method schema (lookup (codes "method") source.source)
        ++ (check_object (codes "params") request.params
            ++ (check_object (codes "query") request.query
                ++ (check_object (codes "headers") request.headers
                    ++ (check_params request.params
                        ++ (check_query request.query
                            ++ (check_headers schema scope request.headers
                                ++ (check_body schema request.body
                                    ++ check_template schema scope))))))))

-- `errors.join('; ')`
unfoldable pub join_errors : List Text → Text
join_errors [] = []
join_errors (e ∷ []) = e
join_errors (e ∷ es) = e ++ (codes "; " ++ join_errors es)
