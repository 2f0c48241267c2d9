-- ===== src/HttpAdapter/Credentials.antt =====
-- The configured credentials stay, and which failures are tried again.
use node_red_contrib_pod_gat.Prelude.{
  ◌≡◌, refl, ◌∙◌, inl, inr, true, false, Option, some, none, Bool, ◌&&◌, nonempty, codes,
  if◌then◌else◌, List, [], ◌∷◌, Text, text_eq, All, ◌==◌, Bool-cases, text_beq_iff,
}
use node_red_contrib_pod_gat.Map.{Map, get, set, get-set}
use node_red_contrib_pod_gat.Result.{ok}
use node_red_contrib_pod_gat.Json.{Value}
use node_red_contrib_pod_gat.Template.{Scope}
use node_red_contrib_pod_gat.Request.{lower, member, protected_header_set}
use node_red_contrib_pod_gat.Request.Outgoing.{request_headers}
use node_red_contrib_pod_gat.Request.Outgoing.Headers.{IsSafe, request_headers-IsSafe}
use node_red_contrib_pod_gat.HttpAdapter.{spread, merged_headers, with_key, upstream_headers}

other_key :
    (guarded : List Text) (key name : Text)
    → member (lower key) guarded ≡ false
    → member (lower name) guarded ≡ true
    → (key == name) ≡ false
other_key guarded key name h k = elim (Bool-cases (key == name)) [
  | inl e ↦ let same : key ≡ name = (text_beq_iff key name).0 e in absurd (cc (rw same at h))
  | inr e ↦ e
]

spread-get :
    (guarded : List Text) (name : Text) (base : Map Text Text) (hs : List (Text × Text))
    → member (lower name) guarded ≡ true
    → All (IsSafe guarded) hs
    → get (spread base hs) name ≡ get base name
unfolding spread
spread-get guarded name base [] k h = refl
spread-get guarded name base ((key, value) ∷ hs) k h =
    spread-get guarded name (set base key value) hs k h.1
    ∙ (get-set base key name value ∙ rw (other_key guarded key name h.0.0 k) refl)

-- A caller's headers leave every protected header of the upstream request as it was configured,
-- whatever they are named: of a protected name the merged headers have what they have without the
-- caller's.
pub merged_headers-protected :
    (configured : List (Text × Text)) (headers : Option Value) (scope : Scope) (extra : List Text)
    (caller : List (Text × Text)) (name : Text)
    → request_headers headers scope extra ≡ ok caller
    → member (lower name) (protected_header_set extra) ≡ true
    → get (merged_headers configured caller) name ≡ get (merged_headers configured []) name
unfolding merged_headers spread
merged_headers-protected configured headers scope extra caller name h k =
    spread-get (protected_header_set extra) name _ caller k
      (request_headers-IsSafe headers scope extra caller h)

keyed :
    (header : Text) (key : Option Text) (a b : Map Text Text) (name : Text)
    → get a name ≡ get b name
    → get (with_key header key a) name ≡ get (with_key header key b) name
keyed header none a b name h = h
keyed header (some key) a b name h = elim (Bool-cases (nonempty header && nonempty key)) [
  | inl e ↦ rw (e, get-set a header name key, get-set b header name key, h) refl
  | inr e ↦ rw e h
]

closed :
    (keep : Bool) (a b : Map Text Text) (name : Text)
    → get a name ≡ get b name
    → get (if keep then a else set a (codes "connection") (codes "close")) name
      ≡ get (if keep then b else set b (codes "connection") (codes "close")) name
closed true a b name h = h
closed false a b name h =
    rw
      (
        get-set a (codes "connection") name (codes "close"),
        get-set b (codes "connection") name (codes "close"),
        h,
      )
      refl

-- The same for the headers that `fetch` gets: of a protected name they have what they have without the
-- caller's headers, with the idempotency key and `connection` set.
pub upstream_headers-protected :
    (id_header : Text) (key : Option Text) (keep : Bool) (configured : List (Text × Text))
    (headers : Option Value) (scope : Scope) (extra : List Text) (caller : List (Text × Text))
    (name : Text)
    → request_headers headers scope extra ≡ ok caller
    → member (lower name) (protected_header_set extra) ≡ true
    → get (upstream_headers id_header key keep configured caller) name
      ≡ get (upstream_headers id_header key keep configured []) name
unfolding upstream_headers
upstream_headers-protected id_header key keep configured headers scope extra caller name h k =
    let kept = merged_headers-protected configured headers scope extra caller name h k in
    closed keep _ _ name (keyed id_header key _ _ name kept)
