-- ===== src/Gateway/Finish/Targets.antt =====
-- Which socket `_findConnection` finds for an item.
use node_red_contrib_pod_gat.Prelude.{
  ℕ, ◌≡◌, refl, sym, ap, subst, ◌∙◌, ◌⊎◌, inl, inr, true, false, Option, none, some, List, [], ◌∷◌,
  All, string_eq, nat_eq, eq_iff, arith, Option-cases, Bool-cases,
}
use node_red_contrib_pod_gat.Map.{get}
use node_red_contrib_pod_gat.Gateway.Types.{Gateway, Connection, Item}
use node_red_contrib_pod_gat.Gateway.Finish.{
  is_origin, find_origin, has_hello, current_of, find_connection,
}

some_injective : {x y : ℕ} → some x ≡ some y → x ≡ y
some_injective e = cc e

-- The socket is an authenticated one of the connection that the item came from.
abbrev pub IsOrigin : Gateway → Item → ℕ → Type 0
IsOrigin g item ws =
    (c : Connection) × (get g.objects ws ≡ some c)
    × (c.authenticated ≡ true)
    × (c.connection_id ≡ item.connection_id)

-- The socket is the authenticated one that connected last for the POD of the item, and no connection of
-- the server is the one that the item came from.
abbrev pub IsLatest : Gateway → Item → ℕ → Type 0
IsLatest g item ws =
    (c : Connection) × (get g.objects ws ≡ some c)
    × (c.authenticated ≡ true)
    × (get g.connections_by_pod item.pod_id ≡ some ws)
    × All (λ other. ¬ IsOrigin g item other) g.connections

is_origin-IsOrigin :
    (item : Item) (o : Option Connection)
    → is_origin item o ≡ true
    → (c : Connection) × (o ≡ some c)
      × (c.authenticated ≡ true)
      × (c.connection_id ≡ item.connection_id)
unfolding is_origin
is_origin-IsOrigin item none h = absurd (cc h)
is_origin-IsOrigin item (some c) h =
    (c, refl, ground (arith, h), (eq_iff c.connection_id item.connection_id).0 (ground (arith, h)))

is_origin-ne :
    (g : Gateway) (item : Item) (ws : ℕ)
    → is_origin item (get g.objects ws) ≡ false
    → ¬ IsOrigin g item ws
unfolding is_origin
is_origin-ne g item ws h (c, there, known, same) =
    let is : is_origin item (get g.objects ws) ≡ true =
      rw (there, is_origin, known) ((eq_iff c.connection_id item.connection_id).1 same) in
    cc (is, h)

find_origin-found :
    (g : Gateway) (item : Item) (wss : List ℕ) (ws : ℕ)
    → find_origin g item wss ≡ some ws
    → IsOrigin g item ws
unfolding find_origin
find_origin-found g item [] ws h = absurd (cc h)
find_origin-found g item (x ∷ xs) ws h = elim (Bool-cases (is_origin item (get g.objects x))) [
  | inr e ↦ find_origin-found g item xs ws (rw e at h)
  | inl e ↦
      let same : some x ≡ some ws = rw e at h in
      subst (IsOrigin g item) (some_injective same) (is_origin-IsOrigin item (get g.objects x) e)
]

find_origin-none :
    (g : Gateway) (item : Item) (wss : List ℕ)
    → find_origin g item wss ≡ none
    → All (λ other. ¬ IsOrigin g item other) wss
unfolding find_origin
find_origin-none g item [] h = tt
find_origin-none g item (x ∷ xs) h = elim (Bool-cases (is_origin item (get g.objects x))) [
  | inr e ↦ (is_origin-ne g item x e, find_origin-none g item xs (rw e at h))
  | inl e ↦ absurd (cc (rw e at h))
]

current_of-found :
    (g : Gateway) (o : Option ℕ) (ws : ℕ)
    → current_of g o ≡ some ws
    → (c : Connection) × (get g.objects ws ≡ some c) × (c.authenticated ≡ true) × (o ≡ some ws)
unfolding current_of has_hello
current_of-found g none ws h = absurd (cc h)
current_of-found g (some x) ws h = elim (Option-cases (get g.objects x)) [
  | inl e ↦ absurd (cc (rw (e, has_hello) at h))
  | inr (c, e) ↦ elim (Bool-cases c.authenticated) [
    | inr k ↦ absurd (cc (rw (e, has_hello, k) at h))
    | inl k ↦
        let same : some x ≡ some ws = rw (e, has_hello, k) at h in
        (c, ap (get g.objects) (sym (some_injective same)) ∙ e, k, same)
  ]
]

-- The socket that is found for an item.
pub find_connection-found :
    (g : Gateway) (item : Item) (ws : ℕ)
    → find_connection g item ≡ some ws
    → IsOrigin g item ws ⊎ IsLatest g item ws
unfolding find_connection
find_connection-found g item ws h = elim (Option-cases (find_origin g item g.connections)) [
  | inr (x, e) ↦ inl (find_origin-found g item g.connections ws (e ∙ rw e at h))
  | inl e ↦
      let (c, there, known, latest) =
        current_of-found g (get g.connections_by_pod item.pod_id) ws (rw e at h) in
      inr (c, there, known, latest, find_origin-none g item g.connections e)
]
