-- ===== src/ApiConfig/Joining.antt =====
-- The URL that lib/api-config.js joins.
use mathlib.Core.List.{reverse, reverse-reverse}
use node_red_contrib_pod_gat.Prelude.{
  ◌≡◌, refl, Bool, true, false, [], ◌∷◌, ◌++◌, Text, text_eq, nonempty, arith,
}
use node_red_contrib_pod_gat.Result.{ok}
use node_red_contrib_pod_gat.Protocol.Text.{trim}
use node_red_contrib_pod_gat.Configuration.Env.{first_is}
use node_red_contrib_pod_gat.ApiConfig.{slash, strip_slashes, strip_slashes_end, join_url}

strip_slashes-first : (s : Text) → first_is slash (strip_slashes s) ≡ false
unfolding strip_slashes
strip_slashes-first [] = refl
strip_slashes-first (c ∷ s) = ground (arith, strip_slashes-first s)

strip_slashes_end-last : (s : Text) → first_is slash (reverse (strip_slashes_end s)) ≡ false
unfolding strip_slashes_end
strip_slashes_end-last s =
    rw (reverse-reverse (strip_slashes (reverse s))) (strip_slashes-first (reverse s))

-- The URL of a path that is not empty has one slash where the base and the path meet: what stands
-- before it does not end in a slash, and what stands behind it does not begin with one.
pub join_url-one_slash :
    (is_url : Text → Bool) (base_url path url : Text)
    → nonempty path ≡ true
    → join_url is_url base_url path ≡ ok url
    → (left : Text) × (right : Text) × (url ≡ left ++ slash ∷ right)
      × (first_is slash (reverse left) ≡ false)
      × (first_is slash right ≡ false)
unfolding join_url
join_url-one_slash is_url base_url path url k h = (
  strip_slashes_end (trim base_url),
  strip_slashes path,
  ground arith,
  strip_slashes_end-last (trim base_url),
  strip_slashes-first path,
)
