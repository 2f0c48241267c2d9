-- ===== src/Template.antt =====
-- lib/url-template.js: {{ path }} placeholders in URLs and header values. The regular expressions
-- are scanners over code units; `global` holds the properties of Node-RED's global context.
pub mod Uri
mod Tests
use node_red_contrib_pod_gat.Prelude.{
  ℕ, zero, suc, ◌+◌, ◌-◌, ◌*◌, ◌/◌, ◌%◌, Bool, true, false, not, ◌&&◌, ◌||◌, Option, none, some,
  List, [], ◌∷◌, ◌++◌, length, nonempty, all, any, leb, ltb, eqb, Text, codes, text_eq, ◌==◌,
  if◌then◌else◌,
}
use node_red_contrib_pod_gat.Result.{Result, ok, throws, ◌>>=◌, ◌>>◌}
use node_red_contrib_pod_gat.Json.{
  Value, null, bool, num, str, arr, obj, Items, nil, cons, Fields, end, field, lookup, to_text,
}
use node_red_contrib_pod_gat.Protocol.Text.{trim}
use Uri.{encode_uri_component}

-- Where a template stands: it selects the error code, its label and the encoding.
pub data Place : Type 0 where
  url header : Place

abbrev pub label : Place → Text
label url = codes "URL"
label header = codes "Header"

-- What the roots of a path name.
pub record Scope : Type 0 where
  pub payload : Value
  pub request : Fields
  pub context : Fields
  pub globals : Fields

-- The longest prefix without a brace, and what follows it.
take_run : Text → Text × Text
take_run [] = ([], [])
take_run (c ∷ s) =
    let (run, rest) = take_run s in
    if eqb c b'{' || eqb c b'}' then ([], c ∷ s) else (c ∷ run, rest)

close_match : Text × Text → Option (Text × Text)
close_match (c ∷ run, x ∷ y ∷ rest) =
    if eqb x b'}' && eqb y b'}' then some (c ∷ run, rest) else none
close_match _ = none

-- {{\s*([^{}]+?)\s*}} at the start of a text: the expression and the rest.
unfoldable pub match_template : Text → Option (Text × Text)
unfolding take_run close_match
match_template (a ∷ b ∷ s) = if eqb a b'{' && eqb b b'{' then close_match (take_run s) else none
match_template _ = none

has_match : Option (Text × Text) → Bool
has_match none = false
has_match (some m) = true

unfoldable pub has_url_template : Text → Bool
unfolding has_match match_template
has_url_template [] = false
has_url_template (c ∷ s) = has_match (match_template (c ∷ s)) || has_url_template s

is_quote : ℕ → Bool
is_quote c = eqb c b'"' || eqb c 39

-- [^'"\]]+ and what follows it.
take_key : Text → Text × Text
unfolding is_quote
take_key [] = ([], [])
take_key (c ∷ s) =
    let (key, rest) = take_key s in
    if is_quote c || eqb c b']' then ([], c ∷ s) else (c ∷ key, rest)

close_bracket : Text × Text → Option (Text × Text)
close_bracket (c ∷ key, x ∷ rest) = if eqb x b']' then some (c ∷ key, rest) else none
close_bracket _ = none

close_quoted : ℕ → Text × Text → Option (Text × Text)
close_quoted q (c ∷ key, x ∷ y ∷ rest) =
    if eqb x q && eqb y b']' then some (c ∷ key, rest) else none
close_quoted q _ = none

-- \[(['"]?)([^'"\]]+)\1\] after its opening bracket: the key and the rest.
match_bracket : Text → Option (Text × Text)
unfolding is_quote take_key close_bracket close_quoted
match_bracket [] = none
match_bracket (c ∷ s) =
    if is_quote c then close_quoted c (take_key s) else close_bracket (take_key (c ∷ s))

-- `expression.replace(…, '.$2')`, on fuel of at least the text's length.
normalize_path : ℕ → Text → Text
unfolding match_bracket
normalize_path zero s = s
normalize_path (suc n) [] = []
normalize_path (suc n) (c ∷ s) = elim (if eqb c b'[' then match_bracket s else none) [
  | none ↦ c ∷ normalize_path n s
  | some (key, rest) ↦ b'.' ∷ (key ++ normalize_path n rest)
]

extend_first : ℕ → List Text → List Text
extend_first c [] = []
extend_first c (t ∷ ts) = if eqb c b'.' then [] ∷ t ∷ ts else (c ∷ t) ∷ ts

-- `s.split('.')`
split_dot : Text → List Text
unfolding extend_first
split_dot [] = [] ∷ []
split_dot (c ∷ s) = extend_first c (split_dot s)

-- `.map(value => value.trim()).filter(Boolean)`
trim_segments : List Text → List Text
unfolding trim
trim_segments [] = []
trim_segments (t ∷ ts) =
    let rest = trim_segments ts in if nonempty (trim t) then trim t ∷ rest else rest

is_letter : ℕ → Bool
is_letter c = leb b'A' c && leb c b'Z' || leb b'a' c && leb c b'z'

is_digit : ℕ → Bool
is_digit c = leb b'0' c && leb c b'9'

is_first_char : ℕ → Bool
unfolding is_letter
is_first_char c = is_letter c || eqb c b'_' || eqb c b'$'

-- ^[A-Za-z_$][A-Za-z0-9_$-]*$ or ^\d+$
is_segment : Text → Bool
unfolding is_first_char is_letter is_digit
is_segment [] = false
is_segment (c ∷ s) =
    is_first_char c && all (λ d. is_first_char d || is_digit d || eqb d b'-') s
    || all is_digit (c ∷ s)

quoted : Text → Text → Text → Text → Text
quoted name before value after = name ++ (before ++ (b'"' ∷ (value ++ (b'"' ∷ after))))

unfoldable pub parse_path : Text → Place → Result (List Text)
unfolding trim trim_segments split_dot normalize_path is_segment quoted
parse_path expression p =
    let segments = trim_segments (split_dot (normalize_path (length expression) expression)) in
    if nonempty segments && all is_segment segments
    then ok segments
    else throws (quoted (label p) (codes " template path ") expression (codes " is invalid"))

unfoldable pub is_unsafe_key : Text → Bool
is_unsafe_key key =
    key == codes "__proto__" || key == codes "prototype" || key == codes "constructor"

-- The decimal digits of a number, on fuel.
decimal_digits : ℕ → ℕ → Text → Text
decimal_digits zero n rest = rest
decimal_digits (suc f) n rest =
    let more = decimal_digits f (n / 10) ((b'0' + n % 10) ∷ rest) in
    if ltb n 10 then (b'0' + n) ∷ rest else more

abbrev pub decimal : ℕ → Text
unfolding decimal_digits
decimal n = decimal_digits (suc n) n []

count_items : Items → ℕ
count_items nil = 0
count_items (cons v vs) = suc (count_items vs)

item_at : ℕ → Text → Items → Option Value
item_at i key nil = none
item_at i key (cons v vs) = if decimal i == key then some v else item_at (suc i) key vs

char_at : ℕ → Text → Text → Option Value
char_at i key [] = none
char_at i key (c ∷ s) = if decimal i == key then some (str (c ∷ [])) else char_at (suc i) key s

-- `Object(value)[segment]`, of own properties.
unfoldable pub property : Value → Text → Option Value
unfolding lookup decimal count_items item_at char_at
property (obj fs) key = lookup key fs
property (arr vs) key =
    if key == codes "length" then some (num (decimal (count_items vs))) else item_at 0 key vs
property (str s) key =
    if key == codes "length" then some (num (decimal (length s))) else char_at 0 key s
property _ key = none

-- The loop of `readValue` over the segments behind the root. `undefined` is `none`.
unfoldable pub walk : Place → List Text → Option Value → Result (Option Value)
unfolding is_unsafe_key quoted property
walk p [] value = ok value
walk p (segment ∷ segments) value =
    let next = walk p segments (elim value [ none ↦ none | some v ↦ property v segment ]) in
    if is_unsafe_key segment
    then throws (quoted (label p) (codes " template property ") segment (codes " is not allowed"))
    else elim value [ none ↦ ok none | some null ↦ ok none | some _ ↦ next ]

abbrev message_of : Scope → Value
message_of s =
    obj (field (codes "payload") s.payload (field (codes "_request") (obj s.request) end))

unfoldable pub root_value : Scope → Text → Option Value
root_value s root =
    if root == codes "payload"
    then some s.payload
    else if root == codes "request" || root == codes "_request"
    then some (obj s.request)
    else if root == codes "msg"
    then some (message_of s)
    else if root == codes "context" || root == codes "gateway"
    then some (obj s.context)
    else if root == codes "global"
    then some (obj s.globals)
    else none

from_root : Place → Scope → List Text → Result (Option Value)
unfolding walk root_value quoted
from_root p s [] = ok none
from_root p s (root ∷ segments) = elim (root_value s root) [
  | none ↦ throws (
      quoted (label p) (codes " template root ") root
        (codes " is not supported; use payload, request, msg.payload, gateway, or global"))
  | some v ↦ walk p segments (some v)
]

unfoldable pub read_value : Place → Scope → Text → Result (Option Value)
unfolding from_root parse_path
read_value p s expression = do segments ← parse_path expression p; from_root p s segments

unfoldable pub has_line_break : Text → Bool
has_line_break = any λ c. eqb c 13 || eqb c 10

-- The text that one placeholder is replaced by.
substitute : Place → Text → Option Value → Result Text
unfolding encode_uri_component has_line_break quoted
substitute p name none =
    throws (quoted (label p) (codes " template variable ") name (codes " is missing"))
substitute p name (some null) =
    throws (quoted (label p) (codes " template variable ") name (codes " is missing"))
substitute p name (some (arr vs)) =
    throws (quoted (label p) (codes " template variable ") name (codes " must be a scalar value"))
substitute p name (some (obj fs)) =
    throws (quoted (label p) (codes " template variable ") name (codes " must be a scalar value"))
substitute url name (some v) = encode_uri_component (to_text v)
substitute header name (some v) =
    if has_line_break (to_text v)
    then throws (
        quoted (label header) (codes " template variable ") name
          (codes " contains an invalid line break"))
    else ok (to_text v)

unfoldable pub placeholder : Place → Scope → Text → Result Text
unfolding substitute read_value trim
placeholder p s expression = do
  value ← read_value p s (trim expression)
  substitute p (trim expression) value

-- `source.replace(TEMPLATE_RE, …)`, on fuel of at least the text's length.
unfoldable pub replace_all : Place → Scope → ℕ → Text → Result Text
unfolding match_template placeholder
replace_all p s zero source = ok source
replace_all p s (suc n) [] = ok []
replace_all p s (suc n) (c ∷ source) = elim (match_template (c ∷ source)) [
  | none ↦ do rest ← replace_all p s n source; ok (c ∷ rest)
  | some (expression, after) ↦ do
    value ← placeholder p s expression
    rest ← replace_all p s n after
    ok (value ++ rest)
]

unfoldable pub resolve_template : Place → Scope → Text → Result Text
unfolding replace_all
resolve_template p s template = replace_all p s (length template) template
