-- ===== src/ApiConfig/Examples.antt =====
-- lib/api-config.js at concrete texts.
use node_red_contrib_pod_gat.Prelude.{◌≡◌, refl, true, [], ◌∷◌, Text, codes}
use node_red_contrib_pod_gat.Map.{Map, get}
use node_red_contrib_pod_gat.Result.{ok, throws}
use node_red_contrib_pod_gat.ApiConfig.{
  expand_from, variable, strip_slashes, strip_slashes_end, expand_text, join_url,
}
use node_red_contrib_pod_gat.Configuration.Env.{is_name_start, is_name_part}
use node_red_contrib_pod_gat.Protocol.Text.{trim, is_space}

abbrev env : Map Text Text
env = (codes "TOKEN", codes "t1") ∷ []

-- A variable, one that is not set, and two references that are none.
expand_text_test : expand_text env (codes "a$${TOKEN}${NONE}${1}${TOKEN") ≡ codes "a$t1${1}${TOKEN"
unfolding expand_text expand_from variable get is_name_start is_name_part
expand_text_test = refl

join_url_test :
    join_url (λ _. true) (codes " https://api.example/v1// ") (codes "//items")
    ≡ ok (codes "https://api.example/v1/items")
unfolding join_url trim strip_slashes strip_slashes_end is_space
join_url_test = refl

no_base_test :
    join_url (λ _. true) (codes "  ") (codes "x") ≡ throws (codes "API base URL is required")
unfolding join_url trim strip_slashes strip_slashes_end is_space
no_base_test = refl
