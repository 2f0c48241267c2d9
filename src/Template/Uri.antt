-- ===== src/Template/Uri.antt =====
-- `encodeURIComponent` over UTF-16 code units.
use node_red_contrib_pod_gat.Prelude.{
  ℕ, ◌+◌, ◌-◌, ◌*◌, ◌/◌, ◌%◌, Bool, ◌&&◌, ◌||◌, [], ◌∷◌, ◌++◌, leb, ltb, eqb, Text, codes,
  if◌then◌else◌,
}
use node_red_contrib_pod_gat.Result.{Result, ok, throws, ◌>>=◌}

-- A-Z a-z 0-9 - _ . ! ~ * ' ( )
unfoldable pub is_unreserved : ℕ → Bool
is_unreserved c =
    leb b'A' c && leb c b'Z'
    || leb b'a' c && leb c b'z'
    || leb b'0' c && leb c b'9'
    || eqb c b'-'
    || eqb c b'_'
    || eqb c b'.'
    || eqb c b'!'
    || eqb c b'~'
    || eqb c b'*'
    || eqb c 39
    || eqb c b'('
    || eqb c b')'

hex_digit : ℕ → ℕ
hex_digit d = if ltb d 10 then b'0' + d else b'A' + (d - 10)

-- One byte as %XX.
percent : ℕ → Text
unfolding hex_digit
percent b = b'%' ∷ hex_digit (b / 16 % 16) ∷ hex_digit (b % 16) ∷ []

-- The UTF-8 bytes of a code point, each as %XX.
utf8 : ℕ → Text
unfolding percent
utf8 p =
    if ltb p 128
    then percent p
    else if ltb p 2048
    then percent (192 + p / 64) ++ percent (128 + p % 64)
    else if ltb p 65536
    then percent (224 + p / 4096) ++ (percent (128 + p / 64 % 64) ++ percent (128 + p % 64))
    else percent (240 + p / 262144)
      ++ (percent (128 + p / 4096 % 64) ++ (percent (128 + p / 64 % 64) ++ percent (128 + p % 64)))

is_high : ℕ → Bool
is_high c = leb 55296 c && leb c 56319

is_low : ℕ → Bool
is_low c = leb 56320 c && leb c 57343

-- A lone surrogate is a URIError.
unfoldable pub encode_uri_component : Text → Result Text
unfolding is_unreserved utf8 is_high is_low
encode_uri_component [] = ok []
encode_uri_component (c ∷ []) =
    if is_unreserved c
    then ok (c ∷ [])
    else if is_high c || is_low c
    then throws (codes "URI malformed")
    else ok (utf8 c)
encode_uri_component (c ∷ d ∷ s) =
    let paired = (do
      rest ← encode_uri_component s
      ok (utf8 (65536 + (c - 55296) * 1024 + (d - 56320)) ++ rest)) in
    let single = encode_uri_component (d ∷ s) in
    if is_unreserved c
    then (do rest ← single; ok (c ∷ rest))
    else if is_high c && is_low d
    then paired
    else if is_high c || is_low c
    then throws (codes "URI malformed")
    else (do rest ← single; ok (utf8 c ++ rest))
