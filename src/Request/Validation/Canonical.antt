-- ===== src/Request/Validation/Canonical.antt =====
-- `validateRequest` of a request that was normalized before.
use node_red_contrib_pod_gat.Prelude.{
  ◌≡◌, refl, sym, ◌∙◌, Option, none, some, List, [], ◌∷◌, ◌++◌, Text, text_eq, codes,
}
use node_red_contrib_pod_gat.Json.{Value, obj, lookup, Fields}
use node_red_contrib_pod_gat.Request.{
  Request, Schema, request_source, from_input, add_field, normalize_request, request_fields,
}
use node_red_contrib_pod_gat.Request.Normal.{normalize_request-stored}
use node_red_contrib_pod_gat.Request.Validation.{
  validate_request, validation_scope, check_source, check_keys, check_method, check_object,
  check_params, check_query, check_headers, check_body, check_template, member,
}

-- What is left of two lists that are empty.
append-empty {ℓ} : {A : Type ℓ} (xs ys : List A) → xs ++ ys ≡ [] → (xs ≡ []) × (ys ≡ [])
append-empty [] ys h = (refl, h)
append-empty (x ∷ xs) ys h = absurd (cc h)

abbrev stored : Request → Option Value
stored r = some (obj (request_fields r))

-- The checks of a request's parts.
part_errors : Value → Request → Option Schema → Fields → List Text
part_errors payload request schema context =
    let scope = validation_scope payload request context in
    check_object (codes "params") request.params
    ++ (check_object (codes "query") request.query
        ++ (check_object (codes "headers") request.headers
            ++ (check_params request.params
                ++ (check_query request.query
                    ++ (check_headers schema scope request.headers
                        ++ (check_body schema request.body ++ check_template schema scope))))))

fields-clean :
    (p q h b : Option Value)
    → (let s = request_source (stored (record { params = p; query = q; headers = h; body = b })) in
        (check_source s ≡ []) × (lookup (codes "method") s.source ≡ none))
unfolding check_source check_keys request_source from_input request_fields add_field lookup member
fields-clean none none none none = (refl, refl)
fields-clean none none none (some b) = (refl, refl)
fields-clean none none (some h) none = (refl, refl)
fields-clean none none (some h) (some b) = (refl, refl)
fields-clean none (some q) none none = (refl, refl)
fields-clean none (some q) none (some b) = (refl, refl)
fields-clean none (some q) (some h) none = (refl, refl)
fields-clean none (some q) (some h) (some b) = (refl, refl)
fields-clean (some p) none none none = (refl, refl)
fields-clean (some p) none none (some b) = (refl, refl)
fields-clean (some p) none (some h) none = (refl, refl)
fields-clean (some p) none (some h) (some b) = (refl, refl)
fields-clean (some p) (some q) none none = (refl, refl)
fields-clean (some p) (some q) none (some b) = (refl, refl)
fields-clean (some p) (some q) (some h) none = (refl, refl)
fields-clean (some p) (some q) (some h) (some b) = (refl, refl)

validate_request-parts :
    (payload : Value) (value : Option Value) (schema : Option Schema) (context : Fields)
    → validate_request payload value schema context
      ≡ check_source (request_source value)
        ++ (check_method schema (lookup (codes "method") (request_source value).source)
            ++ part_errors payload (normalize_request value) schema context)
unfolding validate_request part_errors
validate_request-parts payload value schema context = refl

no_method : (schema : Option Schema) → check_method schema none ≡ []
unfolding check_method
no_method schema = refl

-- A request that is valid is valid when it is sent in its normalized form.
pub validate_request-stored :
    (payload : Value) (value : Option Value) (schema : Option Schema) (context : Fields)
    → validate_request payload value schema context ≡ []
    → validate_request payload
        (some (obj (request_fields (normalize_request value))))
        schema
        context
      ≡ []
validate_request-stored payload value schema context h =
    let r = normalize_request value in
    let (source, method) = fields-clean r.params r.query r.headers r.body in
    let (_, behind) =
      append-empty (check_source (request_source value)) _
        (sym (validate_request-parts payload value schema context) ∙ h) in
    let (_, parts) =
      append-empty (check_method schema (lookup (codes "method") (request_source value).source)) _
        behind in
    rw
      (
        validate_request-parts payload (stored r) schema context,
        source,
        method,
        no_method schema,
        normalize_request-stored r,
      )
      parts
