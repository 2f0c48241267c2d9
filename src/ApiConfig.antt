-- ===== src/ApiConfig.antt =====
-- lib/api-config.js: headers with environment variables, and the URL and the headers of an upstream
-- request. `JSON.parse` and whether `new URL` takes a text are parameters.
pub mod Variables
pub mod Joining
mod Examples
use mathlib.Core.List.{reverse}
use node_red_contrib_pod_gat.Prelude.{
  ℕ, Bool, true, false, not, ◌&&◌, Option, none, some, List, [], ◌∷◌, ◌++◌, Text, text_eq, eqb,
  codes, nonempty, or_else, if◌then◌else◌,
}
use node_red_contrib_pod_gat.Map.{Map, get, set}
use node_red_contrib_pod_gat.Result.{Result, ok, throws, ◌>>=◌}
use node_red_contrib_pod_gat.Json.{Value, Items, Fields, entries}
use node_red_contrib_pod_gat.Protocol.Text.{trim}
use node_red_contrib_pod_gat.Configuration.Env.{is_name_start, is_name_part}
use node_red_contrib_pod_gat.HttpAdapter.{spread}

abbrev pub dollar : ℕ
dollar = 36

-- What `${` and a name has matched so far: nothing, a dollar sign, the brace too, or a part of the name
-- too, its latest character first.
pub data Scan : Type 0 where
  outside after_dollar after_brace : Scan
  in_name : Text → Scan

abbrev pub matched : Scan → Text
matched outside = []
matched after_dollar = dollar ∷ []
matched after_brace = dollar ∷ b'{' ∷ []
matched (in_name name) = dollar ∷ b'{' ∷ reverse name

-- The character goes on with the match.
abbrev pub goes_on : Scan → ℕ → Bool
goes_on outside c = eqb c dollar
goes_on after_dollar c = eqb c b'{'
goes_on after_brace c = is_name_start c
goes_on (in_name name) c = is_name_part c

abbrev pub advance : Scan → ℕ → Scan
advance outside c = after_dollar
advance after_dollar c = after_brace
advance after_brace c = in_name (c ∷ [])
advance (in_name name) c = in_name (c ∷ name)

-- The name that the character ends.
abbrev pub named : Scan → ℕ → Option Text
named (in_name name) c = if eqb c b'}' then some (reverse name) else none
named _ c = none

-- `process.env[name] || ''`
unfoldable pub variable : Map Text Text → Text → Text
variable env name = or_else (get env name) []

abbrev pub emit : Map Text Text → Option Text → Text → Text → Text
emit env (some name) rest broken = variable env name ++ rest
emit env none rest broken = broken

-- A match that breaks off starts anew at the character that broke it: the ones before are no dollar
-- signs.
unfoldable pub expand_from : Map Text Text → Scan → Text → Text
expand_from env scan [] = matched scan
expand_from env scan (c ∷ s) =
    let further = expand_from env (advance scan c) s in
    let opened = expand_from env after_dollar s in
    let rest = expand_from env outside s in
    if goes_on scan c
    then further
    else emit env (named scan c) rest (matched scan ++ (if eqb c dollar then opened else c ∷ rest))

-- `value.replace(/\$\{([A-Za-z_][A-Za-z0-9_]*)\}/g, ...)`
unfoldable pub expand_text : Map Text Text → Text → Text
expand_text env s = expand_from env outside s

unfoldable mutual
  pub expand_environment : Map Text Text → Value → Value
  expand_environment env (Value.str t) = Value.str (expand_text env t)
  expand_environment env (Value.arr vs) = Value.arr (expand_items env vs)
  expand_environment env (Value.obj fs) = Value.obj (expand_fields env fs)
  expand_environment env Value.null = Value.null
  expand_environment env (Value.bool b) = Value.bool b
  expand_environment env (Value.num n) = Value.num n

  pub expand_items : Map Text Text → Items → Items
  expand_items env Items.nil = Items.nil
  expand_items env (Items.cons v vs) = Items.cons (expand_environment env v) (expand_items env vs)

  pub expand_fields : Map Text Text → Fields → Fields
  expand_fields env Fields.end = Fields.end
  expand_fields env (Fields.field k v fs) =
      Fields.field k (expand_environment env v) (expand_fields env fs)

-- A header field of a node's configuration: a text, or an object already.
pub data HeaderSource : Type 0 where
  absent : HeaderSource
  text : Text → HeaderSource
  object : Value → HeaderSource

abbrev pub checked_headers : Map Text Text → Value → Result Fields
checked_headers env (Value.obj fs) = ok (expand_fields env fs)
checked_headers env _ = throws (codes "Headers must be a JSON object")

unfoldable pub parse_headers :
    (json_parse : Text → Result Value) → Map Text Text → HeaderSource → Result Fields
parse_headers json_parse env absent = ok Fields.end
parse_headers json_parse env (text []) = ok Fields.end
parse_headers json_parse env (text (c ∷ s)) = json_parse (c ∷ s) >>= checked_headers env
parse_headers json_parse env (object value) = checked_headers env value

abbrev pub slash : ℕ
slash = b'/'

-- `s.replace(/^\/+/, '')`
unfoldable pub strip_slashes : Text → Text
strip_slashes [] = []
strip_slashes (c ∷ s) = let rest = strip_slashes s in if eqb c slash then rest else c ∷ s

-- `s.replace(/\/+$/, '')`
unfoldable pub strip_slashes_end : Text → Text
strip_slashes_end s = reverse (strip_slashes (reverse s))

unfoldable pub join_url : (is_url : Text → Bool) → Text → Text → Result Text
join_url is_url base_url path =
    let base = trim base_url in
    if not (nonempty base)
    then throws (codes "API base URL is required")
    else if not (is_url base)
    then throws (codes "Invalid API base URL: " ++ base)
    else if nonempty path
    then ok (strip_slashes_end base ++ slash ∷ strip_slashes path)
    else ok base

-- What the API configuration node holds.
pub record ApiSettings : Type 0 where
  pub base_url : Text
  pub headers : Fields
  pub api_key_header : Text
  pub api_key_prefix : Text
  pub api_key : Text

abbrev pub with_api_key : ApiSettings → Map Text Value → Map Text Value
with_api_key s headers =
    if nonempty s.api_key_header && nonempty s.api_key
    then set headers s.api_key_header (Value.str (s.api_key_prefix ++ s.api_key))
    else headers

-- `requestOptions`: the URL, and the headers of the configuration, the credential and the extra ones.
unfoldable pub request_options :
    (is_url : Text → Bool) → ApiSettings → Text → Fields → Result (Text × Map Text Value)
request_options is_url s path extra_headers =
    let headers = spread (with_api_key s (spread [] (entries s.headers))) (entries extra_headers) in
    join_url is_url s.base_url path >>= λ url. ok (url, headers)
