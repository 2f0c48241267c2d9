-- ===== src/Request/Outgoing/Headers.antt =====
-- What `requestHeaders` lets through: no protected name, no line break.
use node_red_contrib_pod_gat.Prelude.{
  ◌≡◌, subst, false, Option, none, some, List, [], ◌∷◌, Text, All, arith, text_eq, Bool-cases, inl,
  inr,
}
use node_red_contrib_pod_gat.Result.{Result, ok, ◌>>=◌, >>=-eq-ok}
use node_red_contrib_pod_gat.Json.{Value, null, obj, entries}
use node_red_contrib_pod_gat.Template.{Scope, has_line_break}
use node_red_contrib_pod_gat.Request.{lower, member, protected_header_set}
use node_red_contrib_pod_gat.Request.Outgoing.{
  header_value, is_dropped, checked_header, header_entries, request_headers,
}

-- A header that may be sent: its name is not protected, and its text has no line break.
abbrev pub IsSafe : List Text → Text × Text → Type 0
IsSafe guarded (key, value) = (member (lower key) guarded ≡ false) × (has_line_break value ≡ false)

kept_name :
    (guarded : List Text) (key : Text) (v : Value)
    → is_dropped guarded key v ≡ false
    → member (lower key) guarded ≡ false
kept_name guarded key null h = absurd (cc h)
kept_name guarded key v h = ground arith

checked_header-safe :
    (key resolved value : Text)
    → checked_header key resolved ≡ ok value
    → has_line_break value ≡ false
unfolding checked_header
checked_header-safe key resolved value h = ground arith

ok-injective : (a b : List (Text × Text)) → ok a ≡ ok b → a ≡ b
ok-injective a b h = cc h

-- The entries that a block collects are safe if its header and the others are.
block-IsSafe :
    (guarded : List Text) (key : Text) (v : Value) (scope : Scope)
    (rest : Result (List (Text × Text))) (hs : List (Text × Text))
    → member (lower key) guarded ≡ false
    → ((others : List (Text × Text)) → rest ≡ ok others → All (IsSafe guarded) others)
    → (do
      resolved ← header_value scope v
      value ← checked_header key resolved
      others ← rest
      ok ((key, value) ∷ others))
      ≡ ok hs
    → All (IsSafe guarded) hs
block-IsSafe guarded key v scope rest hs n safe h =
    let (resolved, a, h1) = >>=-eq-ok (header_value scope v) _ h in
    let (value, b, h2) = >>=-eq-ok (checked_header key resolved) _ h1 in
    let (others, c, h3) = >>=-eq-ok rest _ h2 in
    subst (All (IsSafe guarded)) (ok-injective ((key, value) ∷ others) hs h3)
      ((n, checked_header-safe key resolved value b), safe others c)

header_entries-IsSafe :
    (guarded : List Text) (scope : Scope) (fs : List (Text × Value)) (hs : List (Text × Text))
    → header_entries guarded scope fs ≡ ok hs
    → All (IsSafe guarded) hs
unfolding header_entries
header_entries-IsSafe guarded scope [] hs h = subst (All (IsSafe guarded)) (ok-injective [] hs h) tt
header_entries-IsSafe guarded scope ((key, v) ∷ fs) hs h =
    elim (Bool-cases (is_dropped guarded key v)) [
      | inl e ↦ header_entries-IsSafe guarded scope fs hs (rw (e, header_entries) at h)
      | inr e ↦
          block-IsSafe guarded key v scope (header_entries guarded scope fs) hs
            (kept_name guarded key v e) (header_entries-IsSafe guarded scope fs)
            (rw (e, header_entries) at h)
    ]

-- None of the headers that a caller adds to the upstream request has a protected name, in any case
-- of its letters, and none has a line break in its text.
pub request_headers-IsSafe :
    (headers : Option Value) (scope : Scope) (extra : List Text) (hs : List (Text × Text))
    → request_headers headers scope extra ≡ ok hs
    → All (IsSafe (protected_header_set extra)) hs
unfolding request_headers
request_headers-IsSafe (some (obj fs)) scope extra hs h =
    header_entries-IsSafe (protected_header_set extra) scope (entries fs) hs h
request_headers-IsSafe none scope extra hs h =
    subst (All (IsSafe (protected_header_set extra))) (ok-injective [] hs h) tt
request_headers-IsSafe (some v) scope extra hs h =
    subst (All (IsSafe (protected_header_set extra))) (ok-injective [] hs h) tt
