-- ===== src/Request/Normal.antt =====
-- The canonical form of `_request`: `normalizeRequest` keeps what it returns.
use node_red_contrib_pod_gat.Prelude.{◌≡◌, refl, Option, none, some, text_eq}
use node_red_contrib_pod_gat.Json.{Value, obj, lookup}
use node_red_contrib_pod_gat.Request.{
  Request, request_source, from_input, add_field, normalize_request, request_fields,
}

abbrev stored : Request → Value
stored r = obj (request_fields r)

request_fields-lookup :
    (p q h b : Option Value)
    → normalize_request (some (stored (record { params = p; query = q; headers = h; body = b })))
      ≡ record { params = p; query = q; headers = h; body = b }
unfolding normalize_request request_source from_input request_fields add_field lookup
request_fields-lookup none none none none = refl
request_fields-lookup none none none (some b) = refl
request_fields-lookup none none (some h) none = refl
request_fields-lookup none none (some h) (some b) = refl
request_fields-lookup none (some q) none none = refl
request_fields-lookup none (some q) none (some b) = refl
request_fields-lookup none (some q) (some h) none = refl
request_fields-lookup none (some q) (some h) (some b) = refl
request_fields-lookup (some p) none none none = refl
request_fields-lookup (some p) none none (some b) = refl
request_fields-lookup (some p) none (some h) none = refl
request_fields-lookup (some p) none (some h) (some b) = refl
request_fields-lookup (some p) (some q) none none = refl
request_fields-lookup (some p) (some q) none (some b) = refl
request_fields-lookup (some p) (some q) (some h) none = refl
request_fields-lookup (some p) (some q) (some h) (some b) = refl

-- A normalized request that is stored as an object and normalized again, as it is when its result is
-- built, is the same request.
pub normalize_request-stored : (r : Request) → normalize_request (some (obj (request_fields r))) ≡ r
normalize_request-stored r = request_fields-lookup r.params r.query r.headers r.body
