-- ===== src/Nodes/Upstream.antt =====
-- nodes/gateway-api-config.js and nodes/gateway-adapter.js: what the nodes make of their configuration,
-- and the headers and the URL that the adapter has for one call. The rate limit is an input, and so is
-- `String(value)` of a header's value.
pub mod Credential
mod Examples
use node_red_contrib_pod_gat.Prelude.{
  Bool, true, false, Option, none, some, List, [], ◌∷◌, Text, any, map, nonempty, codes, or_else,
  if◌then◌else◌,
}
use node_red_contrib_pod_gat.Map.{Map}
use node_red_contrib_pod_gat.Result.{Result, ok, throws, ◌>>=◌}
use node_red_contrib_pod_gat.Json.{Value, Fields, end, entries}
use node_red_contrib_pod_gat.Template.{Scope, url, has_url_template, resolve_template}
use node_red_contrib_pod_gat.Request.{Schema, request_schema, resolve_header}
use node_red_contrib_pod_gat.Request.Outgoing.{request_headers}
use node_red_contrib_pod_gat.HttpAdapter.{upstream_headers}
use node_red_contrib_pod_gat.ApiConfig.{HeaderSource, ApiSettings, parse_headers, request_options}

-- An API configuration node. An error of its configuration is kept, and then it has no headers or those
-- that were read.
pub record ApiNode : Type 0 where
  pub settings : ApiSettings
  pub config_error : Option Text

-- What the adapter node is configured with. Without a method it is POST.
pub record AdapterConfig : Type 0 where
  pub method : Text
  pub url : Text
  pub path : Text
  pub headers : HeaderSource
  pub idempotency_header : Text
  pub keep_alive : Bool

-- The URL of the calls: a fixed one, a template, or a template of the path behind the API's base URL.
pub data Target : Type 0 where
  fixed : Text → Target
  template : Text → Target
  path_template : ApiNode → Text → Target

-- What the node passes to `createJsonHttpAdapter`, and the schema it registers.
pub record AdapterOptions : Type 0 where
  pub target : Target
  pub headers : Map Text Value
  pub idempotency_header : Text
  pub keep_alive : Bool
  pub schema : Schema
  pub protected : List Text

module _ (json_parse : Text → Result Value) (is_url : Text → Bool) (env : Map Text Text) where
  abbrev api_headers : ApiSettings → Fields → ApiSettings
  api_headers s headers = record s { headers = headers }

  abbrev early_check : ApiSettings → Result (Text × Map Text Value) → ApiNode
  early_check s (ok options) = record { settings = s; config_error = none }
  early_check s (throws message) = record { settings = s; config_error = some message }

  abbrev with_headers : ApiSettings → Result Fields → ApiNode
  with_headers s (throws message) = record {
    settings = api_headers s end;
    config_error = some message;
  }
  with_headers s (ok headers) =
      early_check (api_headers s headers) (request_options is_url (api_headers s headers) [] end)

  -- `GatewayApiConfigNode`: the settings without the headers, and the headers' source.
  unfoldable pub api_node : ApiSettings → HeaderSource → ApiNode
  api_node s source = with_headers s (parse_headers json_parse env source)

  -- `node.buildRequestOptions(path, extraHeaders)`
  abbrev checked_options :
      Option Text → Result (Text × Map Text Value) → Result (Text × Map Text Value)
  checked_options none options = options
  checked_options (some message) options = throws message

  unfoldable pub build_request_options : ApiNode → Text → Fields → Result (Text × Map Text Value)
  build_request_options api path extra_headers =
      checked_options api.config_error (request_options is_url api.settings path extra_headers)

  unfoldable pub path_target : ApiNode → Text → Fields → Result Target
  path_target api path headers =
      if has_url_template path
      then ok (path_template api path)
      else build_request_options api path headers >>= λ options. ok (fixed options.0)

  -- The target and the headers behind an API: the headers do not depend on the path.
  unfoldable pub api_target : ApiNode → Text → Fields → Result (Target × Map Text Value)
  api_target api path headers = do
    options ← build_request_options api [] headers
    target ← path_target api path headers
    ok (target, options.1)

  -- The target of an adapter without an API.
  unfoldable pub direct_target : Text → Fields → Result (Target × Map Text Value)
  direct_target address headers =
      if nonempty address
      then ok
          ((if has_url_template address then template address else fixed address), entries headers)
      else throws (codes "Gateway API Config or direct upstream URL is required")

  abbrev pub api_key_headers : Option ApiNode → List Text
  api_key_headers none = []
  api_key_headers (some api) =
      if nonempty api.settings.api_key_header then api.settings.api_key_header ∷ [] else []

  unfoldable pub target_of :
      Option ApiNode → AdapterConfig → Fields → Result (Target × Map Text Value)
  target_of none c headers = direct_target c.url headers
  target_of (some api) c headers = api_target api c.path headers

  abbrev pub template_of : Option ApiNode → AdapterConfig → Text
  template_of none c = c.url
  template_of (some api) c = c.path

  abbrev options_of :
      Option ApiNode → AdapterConfig → Target × Map Text Value → Schema → AdapterOptions
  options_of api c found schema = record {
    target = found.0;
    headers = found.1;
    idempotency_header = c.idempotency_header;
    keep_alive = c.keep_alive;
    schema = record schema { protected = api_key_headers api };
    protected = api_key_headers api;
  }

  -- `GatewayAdapterNode`, up to the registration: `rate` is what `parseRateLimit` gives or throws.
  unfoldable pub adapter_options :
      {R : Type 0} → Option ApiNode → AdapterConfig → (rate : Result R) → Result AdapterOptions
  adapter_options api c rate = do
    headers ← parse_headers json_parse env c.headers
    limit ← rate
    found ← target_of api c headers
    schema ← request_schema c.method (template_of api c)
    ok (options_of api c found schema)

  -- The URL of one call.
  unfoldable pub target_url : Target → Scope → Result Text
  target_url (fixed address) scope = ok address
  target_url (template address) scope = resolve_template url scope address
  target_url (path_template api path) scope = do
    resolved ← resolve_template url scope path
    options ← build_request_options api resolved end
    ok options.0

abbrev is_template : Text × Value → Bool
is_template (key, Value.str text) = has_url_template text
is_template (key, _) = false

abbrev config_header : Scope → Value → Result Value
config_header scope (Value.str text) =
    resolve_header scope text >>= λ resolved. ok (Value.str resolved)
config_header scope value = ok value

-- `resolveConfigHeaders`
unfoldable pub resolve_config_headers : Scope → List (Text × Value) → Result (List (Text × Value))
resolve_config_headers scope [] = ok []
resolve_config_headers scope ((key, value) ∷ headers) =
    let rest = resolve_config_headers scope headers in
    do resolved ← config_header scope value; others ← rest; ok ((key, resolved) ∷ others)

unfoldable pub configured_headers : Map Text Value → Scope → Result (List (Text × Value))
configured_headers headers scope =
    if any is_template headers then resolve_config_headers scope headers else ok headers

-- The headers of one call, with those that the caller's `_request.headers` brings.
unfoldable pub call_headers :
    (to_string : Value → Text)
    → AdapterOptions
    → Scope
    → Option Text
    → Option Value
    → Result (Map Text Text)
call_headers to_string o scope idempotency_key headers = do
  configured ← configured_headers o.headers scope
  caller ← request_headers headers scope o.protected
  ok (
      upstream_headers o.idempotency_header idempotency_key o.keep_alive
        (map (λ h. (h.0, to_string h.1)) configured) caller)
