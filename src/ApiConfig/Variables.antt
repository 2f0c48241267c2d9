-- ===== src/ApiConfig/Variables.antt =====
-- The environment variables in the headers of lib/api-config.js.
use mathlib.Core.List.{reverse_aux}
use node_red_contrib_pod_gat.Prelude.{
  ℕ, ◌≡◌, refl, ap, ◌∙◌, true, [], ◌∷◌, ◌++◌, Text, text_eq, all, arith,
}
use node_red_contrib_pod_gat.Map.{Map}
use node_red_contrib_pod_gat.Protocol.Text.{lacks}
use node_red_contrib_pod_gat.Configuration.Env.{is_name_start, is_name_part}
use node_red_contrib_pod_gat.ApiConfig.{
  dollar, outside, in_name, expand_from, expand_text, variable,
}

-- What is left of a name, and the brace that ends it, give the variable's value.
expand_from-name :
    (env : Map Text Text) (seen name rest : Text)
    → all is_name_part name ≡ true
    → expand_from env (in_name seen) (name ++ b'}' ∷ rest)
      ≡ variable env (reverse_aux seen name) ++ expand_from env outside rest
unfolding expand_from is_name_part is_name_start
expand_from-name env seen [] rest h = refl
expand_from-name env seen (c ∷ name) rest h =
    ground (arith, expand_from-name env (c ∷ seen) name rest)

-- A variable's reference is replaced by its value, and the text behind it is expanded.
expand_text-reference :
    (env : Map Text Text) (first : ℕ) (name rest : Text)
    → is_name_start first ≡ true
    → all is_name_part name ≡ true
    → expand_text env (dollar ∷ b'{' ∷ first ∷ name ++ b'}' ∷ rest)
      ≡ variable env (first ∷ name) ++ expand_text env rest
unfolding expand_text expand_from
expand_text-reference env first name rest hf hn =
    rw hf (expand_from-name env (first ∷ []) name rest hn)

-- A text without a dollar sign stays in front of what is made of the rest.
expand_text-append :
    (env : Map Text Text) (before rest : Text)
    → lacks dollar before ≡ true
    → expand_text env (before ++ rest) ≡ before ++ expand_text env rest
unfolding expand_text expand_from
expand_text-append env [] rest h = refl
expand_text-append env (c ∷ before) rest h = ground (arith, expand_text-append env before rest)

-- In a text, the first reference to a variable is replaced by the variable's value, the text before it
-- stays, if it has no dollar sign, and the text behind it is expanded in the same way.
pub expand_text-variable :
    (env : Map Text Text) (before : Text) (first : ℕ) (name rest : Text)
    → lacks dollar before ≡ true
    → is_name_start first ≡ true
    → all is_name_part name ≡ true
    → expand_text env (before ++ (dollar ∷ b'{' ∷ first ∷ name ++ b'}' ∷ rest))
      ≡ before ++ (variable env (first ∷ name) ++ expand_text env rest)
expand_text-variable env before first name rest hb hf hn =
    expand_text-append env before _ hb
    ∙ ap (λ t. before ++ t) (expand_text-reference env first name rest hf hn)
