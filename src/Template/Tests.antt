-- ===== src/Template/Tests.antt =====
-- Templates on small inputs.
use node_red_contrib_pod_gat.Prelude.{◌≡◌, refl, codes, true}
use node_red_contrib_pod_gat.Result.{ok, throws}
use node_red_contrib_pod_gat.Json.{str, num, obj, arr, cons, nil, field, end}
use node_red_contrib_pod_gat.Template.{Scope, url, header, resolve_template, has_url_template}

abbrev scope : Scope
scope = record {
  payload = obj (
      field (codes "city") (str (codes "Kyiv/1"))
        (field (codes "ids") (arr (cons (num (codes "7")) nil)) end));
  request = end;
  context = end;
  globals = field (codes "token") (str (codes "abc")) end;
}

resolves_url :
    resolve_template url scope (codes "/w/{{ payload.city }}?x={{msg.payload['ids'][0]}}")
    ≡ ok (codes "/w/Kyiv%2F1?x=7")
unfolding resolve_template
resolves_url = refl

resolves_header :
    resolve_template header scope (codes "Bearer {{{global.token}}") ≡ ok (codes "Bearer {abc")
unfolding resolve_template
resolves_header = refl

missing_value :
    resolve_template header scope (codes "{{payload.a}}")
    ≡ throws (codes "Header template variable \"payload.a\" is missing")
unfolding resolve_template
missing_value = refl

detects : has_url_template (codes "a{{ b }}") ≡ true
unfolding has_url_template
detects = refl
