-- ===== src/Nodes/Upstream/Credential.antt =====
-- The credential of an API configuration in the headers of a call.
use node_red_contrib_pod_gat.Prelude.{
  ◌≡◌, refl, ap, sym, ◌∙◌, Bool, true, Option, none, some, List, [], ◌∷◌, Text, text_eq, ◌==◌,
  nonempty, map, any, ◌++◌, arith, text_beq_iff,
}
use node_red_contrib_pod_gat.Map.{Map, get}
use node_red_contrib_pod_gat.Result.{Result, ok, >>=-eq-ok}
use node_red_contrib_pod_gat.Json.{Value}
use node_red_contrib_pod_gat.Template.{Scope}
use node_red_contrib_pod_gat.Request.{
  lower, request_schema, member, protected_headers, protected_header_set,
}
use node_red_contrib_pod_gat.Request.Outgoing.{request_headers}
use node_red_contrib_pod_gat.HttpAdapter.{upstream_headers}
use node_red_contrib_pod_gat.HttpAdapter.Credentials.{upstream_headers-protected}
use node_red_contrib_pod_gat.ApiConfig.{parse_headers}
use node_red_contrib_pod_gat.Nodes.Upstream.{
  ApiNode, AdapterConfig, AdapterOptions, api_key_headers, adapter_options, configured_headers,
  call_headers, target_of, template_of,
}

any-last : (p : Text → Bool) (xs : List Text) (x : Text) → p x ≡ true → any p (xs ++ x ∷ []) ≡ true
any-last p [] x h = ground (arith, h)
any-last p (y ∷ xs) x h = ground (arith, any-last p xs x h)

-- A header that an adapter protects is in its set.
protected_header_set-member :
    (name key : Text)
    → nonempty key ≡ true
    → lower name ≡ lower key
    → member (lower name) (protected_header_set (key ∷ [])) ≡ true
unfolding protected_header_set member
protected_header_set-member name key h e =
    let same : (lower key == lower name) ≡ true =
      (text_beq_iff (lower key) (lower name)).1 (sym e) in
    rw h (any-last (λ u. u == lower name) protected_headers (lower key) same)

ok-value : {A : Type 0} {a b : A} → ok a ≡ ok b → a ≡ b
ok-value h = cc h

adapter_options-protected :
    (json_parse : Text → Result Value) (is_url : Text → Bool) (env : Map Text Text)
    (api : Option ApiNode) (c : AdapterConfig) {R : Type 0} (rate : Result R) (o : AdapterOptions)
    → adapter_options json_parse is_url env api c rate ≡ ok o
    → o.protected ≡ api_key_headers json_parse is_url env api
unfolding adapter_options
adapter_options-protected json_parse is_url env api c rate o h =
    let (fields, _, read) = >>=-eq-ok (parse_headers json_parse env c.headers) _ h in
    let (_, _, limited) = >>=-eq-ok rate _ read in
    let (_, _, found) = >>=-eq-ok (target_of json_parse is_url env api c fields) _ limited in
    let (_, _, same) =
      >>=-eq-ok (request_schema c.method (template_of json_parse is_url env api c)) _ found in
    sym (ap (λ x. x.protected) (ok-value same))

-- Whatever headers a caller sends, the header of the API's credential is what it is when the caller sends
-- none, and so is each header whose name differs from it in the case of letters only. The call without
-- the caller's headers has headers when the one with them has.
pub call_headers-credential :
    (json_parse : Text → Result Value) (is_url : Text → Bool) (env : Map Text Text) (api : ApiNode)
    (c : AdapterConfig) {R : Type 0} (rate : Result R) (o : AdapterOptions)
    (to_string : Value → Text) (scope : Scope) (key : Option Text) (headers : Option Value)
    (name : Text) (sent : Map Text Text)
    → adapter_options json_parse is_url env (some api) c rate ≡ ok o
    → nonempty api.settings.api_key_header ≡ true
    → lower name ≡ lower api.settings.api_key_header
    → call_headers to_string o scope key headers ≡ ok sent
    → (plain : Map Text Text) × (call_headers to_string o scope key none ≡ ok plain)
      × (get sent name ≡ get plain name)
unfolding call_headers request_headers
call_headers-credential json_parse is_url env api c rate o to_string scope key headers name sent h k
      e r =
    let (configured, resolved, rest) = >>=-eq-ok (configured_headers o.headers scope) _ r in
    let (caller, asked, same) = >>=-eq-ok (request_headers headers scope o.protected) _ rest in
    let own = map (λ x. (x.0, to_string x.1)) configured in
    let guarded : o.protected ≡ api.settings.api_key_header ∷ [] =
      adapter_options-protected json_parse is_url env (some api) c rate o h ∙ rw k refl in
    let inside : member (lower name) (protected_header_set o.protected) ≡ true =
      rw guarded (protected_header_set-member name api.settings.api_key_header k e) in
    (
      upstream_headers o.idempotency_header key o.keep_alive own [],
      rw resolved refl,
      ap (λ m. get m name) (sym (ok-value same))
          ∙ upstream_headers-protected o.idempotency_header key o.keep_alive own headers scope
              o.protected caller name asked inside,
    )
