-- ===== src/Configuration/Runtime.antt =====
-- lib/runtime-config.js. `Number` of a JSON value is a parameter, and so is `JSON.parse`; a number that
-- is not finite is `none`, and -0 is a number below 1. A text of the environment stands as a JSON string.
pub mod Numbers
pub mod Settings
use node_red_contrib_pod_gat.Prelude.{
  ℕ, ◌%◌, ◌^◌, ◌||◌, eqb, ltb, Bool, true, false, not, Option, none, some, List, [], ◌∷◌, ◌++◌,
  Text, text_eq, ◌==◌, codes, nonempty, first_some, if◌then◌else◌,
}
use mathlib.Core.Option
use node_red_contrib_pod_gat.Map.{Map, get}
use node_red_contrib_pod_gat.Result.{Result, ok, throws, ◌>>=◌}
use node_red_contrib_pod_gat.Json.{
  Value, null, bool, num, str, arr, obj, Fields, end, lookup, to_text,
}
use node_red_contrib_pod_gat.Configuration.Env.{load_dot_env}

-- `value === ''`
abbrev pub is_blank : Value → Bool
is_blank (str t) = not (nonempty t)
is_blank _ = false

-- `value || next` of a JSON value.
abbrev pub is_truthy : Value → Bool
is_truthy null = false
is_truthy (bool b) = b
is_truthy (num t) = not (t == codes "0")
is_truthy (str t) = nonempty t
is_truthy (arr vs) = true
is_truthy (obj fs) = true

abbrev pub truthy_value : Option Value → Option Value
truthy_value none = none
truthy_value (some v) = if is_truthy v then some v else none

abbrev pub or_value : Option Value → Value → Value
or_value none d = d
or_value (some v) d = v

-- `envValue ?? fileValue`
abbrev pub setting : Option Text → Option Value → Option Value
setting none file = file
setting (some t) file = some (str t)

-- `process.env.NAME || section.key || default`
unfoldable pub text_setting : Option Text → Option Value → Text → Value
text_setting env file fallback =
    or_value (truthy_value (Option.map str env)) (or_value (truthy_value file) (str fallback))

unfoldable pub boolean : Option Text → Option Value → Bool → Result Bool
boolean env file fallback = elim (setting env file) [ none ↦ ok fallback | some v ↦ read v ]
  where
    refuse : Value → Result Bool
    refuse v = throws (codes "Expected a boolean, received " ++ to_text v)

    read_text : Text → Result Bool
    read_text t =
        if not (nonempty t)
        then ok fallback
        else if t == codes "true"
        then ok true
        else if t == codes "1"
        then ok true
        else if t == codes "false"
        then ok false
        else if t == codes "0"
        then ok false
        else refuse (str t)

    read_number : Text → Result Bool
    read_number t =
        if t == codes "1" then ok true else if t == codes "0" then ok false else refuse (num t)

    read : Value → Result Bool
    read (bool b) = ok b
    read (str t) = read_text t
    read (num t) = read_number t
    read v = refuse v

-- The properties of a section of the file; what is no object has none.
abbrev pub section : Option Value → Fields
section (some (obj fs)) = fs
section _ = end

unfoldable pub object_of : Text → Value → Result Fields
object_of label (obj fs) = ok fs
object_of label v = throws (codes "Invalid " ++ label ++ codes ": must be a JSON object")

module _ (parse : Text → Result Value) where
  -- The error of `JSON.parse`, with what was parsed.
  abbrev parsed : Text → Text → Result Value
  parsed label t = elim (parse t) [
    | throws e ↦ throws (codes "Invalid " ++ label ++ codes ": " ++ e)
    | ok v ↦ ok v
  ]

  unfoldable pub parse_json_object : Option Value → Fields → Text → Result Fields
  parse_json_object none fallback label = ok fallback
  parse_json_object (some null) fallback label = ok fallback
  parse_json_object (some (str t)) fallback label =
      if nonempty t then parsed label t >>= object_of label else ok fallback
  parse_json_object (some v) fallback label = object_of label v

  unfoldable pub load_json_env : Option Text → Fields → Result Fields
  load_json_env none fallback = ok fallback
  load_json_env (some t) fallback =
      if nonempty t
      then parse_json_object (some (str t)) fallback (codes "GATEWAY_RATE_LIMITS JSON")
      else ok fallback

  -- `readJsonIfPresent`, of the file's content if there is a file.
  unfoldable pub read_json_if_present : Text → Option Text → Result Fields
  read_json_if_present file none = ok end
  read_json_if_present file (some content) = elim (parse content) [
    | throws e ↦ throws (codes "Invalid gateway config " ++ file ++ codes ": " ++ e)
    | ok (obj fs) ↦ ok fs
    | ok v ↦ throws (codes "Gateway config " ++ file ++ codes " must contain a JSON object")
  ]

-- A finite number of JavaScript: it is `mantissa` divided by a power of 2, with a sign.
pub record Number : Type 0 where
  pub negative : Bool
  pub mantissa : ℕ
  pub exponent : ℕ

abbrev pub whole : ℕ → Number
whole n = record { negative = false; mantissa = n; exponent = 0 }

-- `Number.isInteger(n)`
unfoldable pub is_integer : Number → Bool
is_integer n = eqb (n.mantissa % 2 ^ n.exponent) 0

-- `n < 1`
unfoldable pub below_one : Number → Bool
below_one n = n.negative || ltb n.mantissa (2 ^ n.exponent)

module _ (to_number : Value → Option Number) where
  unfoldable pub number : Option Text → Option Value → Number → Result Number
  number env file fallback = elim (setting env file) [
    | none ↦ ok fallback
    | some v ↦ if is_blank v then ok fallback else elim (to_number v) [
      | none ↦ throws (codes "Expected a number, received " ++ to_text v)
      | some n ↦ ok n
    ]
  ]

  unfoldable pub positive_integer : Option Text → Option Value → Number → Result Number
  positive_integer env file fallback = number env file fallback >>= λ n.
      if not (is_integer n) || below_one n
      then throws (codes "Expected a positive integer")
      else ok n
