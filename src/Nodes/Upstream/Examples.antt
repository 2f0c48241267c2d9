-- ===== src/Nodes/Upstream/Examples.antt =====
-- The nodes of an upstream API at a concrete configuration.
use node_red_contrib_pod_gat.Prelude.{◌≡◌, refl, true, none, some, [], ◌∷◌, Text, text_eq, codes}
use node_red_contrib_pod_gat.Map.{Map, get, set}
use node_red_contrib_pod_gat.Result.{ok}
use node_red_contrib_pod_gat.Json.{null, str, obj, end, to_text}
use node_red_contrib_pod_gat.Protocol.Text.{trim, is_space}
use node_red_contrib_pod_gat.Template.{has_url_template, match_template, has_line_break}
use node_red_contrib_pod_gat.Request.{
  lower, upper, member, protected_header_set, method_uses_body, request_schema, resolve_header,
}
use node_red_contrib_pod_gat.Request.Outgoing.{request_headers}
use node_red_contrib_pod_gat.Request.Examples.{scope, headers}
use node_red_contrib_pod_gat.HttpAdapter.{spread, merged_headers, upstream_headers}
use node_red_contrib_pod_gat.ApiConfig.{
  HeaderSource, ApiSettings, parse_headers, request_options, join_url, strip_slashes,
  strip_slashes_end, expand_fields,
}
use node_red_contrib_pod_gat.Nodes.Upstream.{
  ApiNode, AdapterConfig, AdapterOptions, fixed, api_node, adapter_options, target_of, api_target,
  path_target, build_request_options, configured_headers, call_headers,
}
use node_red_contrib_pod_gat.Nodes.Upstream.Credential.{call_headers-credential}

abbrev settings : ApiSettings
settings = record {
  base_url = codes "https://a.io/";
  headers = end;
  api_key_header = codes "X-Key";
  api_key_prefix = codes "Key ";
  api_key = codes "secret";
}

abbrev api : ApiNode
api = record { settings = settings; config_error = none }

api_test : api_node (λ _. ok null) (λ _. true) [] settings (HeaderSource.text []) ≡ api
unfolding api_node parse_headers request_options join_url trim is_space spread set
api_test = refl

abbrev config : AdapterConfig
config = record {
  method = codes "post";
  url = [];
  path = codes "/p";
  headers = HeaderSource.object (obj end);
  idempotency_header = [];
  keep_alive = true;
}

abbrev options : AdapterOptions
options = record {
  target = fixed (codes "https://a.io/p");
  headers = (codes "X-Key", str (codes "Key secret")) ∷ [];
  idempotency_header = [];
  keep_alive = true;
  schema = record {
    method = codes "POST";
    template = codes "/p";
    body = true;
    protected = codes "X-Key" ∷ [];
  };
  protected = codes "X-Key" ∷ [];
}

options_test :
    adapter_options (λ _. ok null) (λ _. true) [] (some api) config (ok true) ≡ ok options
unfolding adapter_options parse_headers expand_fields target_of api_target path_target
    build_request_options request_options join_url strip_slashes strip_slashes_end trim is_space
    spread set has_url_template match_template request_schema upper member method_uses_body
options_test = refl

abbrev sent : Map Text Text
sent =
    (codes "accept", codes "application/json")
    ∷ (codes "content-type", codes "application/json")
    ∷ (codes "X-Key", codes "Key secret")
    ∷ (codes "Lang", codes "en")
    ∷ []

sent_test : call_headers to_text options scope none (some headers) ≡ ok sent
unfolding call_headers configured_headers request_headers upstream_headers merged_headers spread set
    lower member protected_header_set resolve_header has_url_template match_template has_line_break
sent_test = refl

call_headers-credential_example :
    (plain : Map Text Text) × (call_headers to_text options scope none none ≡ ok plain)
    × (get sent (codes "X-Key") ≡ get plain (codes "X-Key"))
call_headers-credential_example =
    call_headers-credential (λ _. ok null) (λ _. true) [] api config (ok true) options to_text scope
      none (some headers) (codes "X-Key") sent options_test refl refl sent_test
