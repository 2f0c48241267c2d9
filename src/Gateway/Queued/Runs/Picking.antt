-- ===== src/Gateway/Queued/Runs/Picking.antt =====
-- The handler that a step is about, among those that wait.
use node_red_contrib_pod_gat.Prelude.{
  ℕ, zero, suc, ◌≡◌, sym, ap, ◌∙◌, subst, Option, none, some, List, [], ◌∷◌, length, All,
}
use node_red_contrib_pod_gat.Gateway.Types.{Item}
use node_red_contrib_pod_gat.Gateway.Queued.Outcomes.{IsOf, source_of}
use node_red_contrib_pod_gat.Gateway.Queued.Endings.{item_of}
use node_red_contrib_pod_gat.Gateway.Queued.Runs.{Handler, keep_other, pick}

-- A handler that waits is about the request of the item that it was given.
abbrev pub IsTrue : Handler → Type 0
IsTrue h =
    (item : Item) × (item_of h.stage ≡ some item)
    × IsOf (source_of h.original) h.original.request_id item

keep_other-some :
    (x : Handler) (o : Option (Handler × List Handler)) (h : Handler) (rest : List Handler)
    → keep_other x o ≡ some (h, rest)
    → (others : List Handler) × (o ≡ some (h, others)) × (rest ≡ x ∷ others)
unfolding keep_other
keep_other-some x none h rest e = absurd (cc e)
keep_other-some x (some (y, ys)) h rest e = (ys, cc e, cc e)

some-pair :
    {x h : Handler} {xs rest : List Handler}
    → ◌≡◌ {A = Option (Handler × List Handler)} (some (x, xs)) (some (h, rest))
    → (x ≡ h) × (xs ≡ rest)
some-pair e = (cc e, cc e)

pub pick-parts :
    (n : ℕ) (hs : List Handler) (h : Handler) (rest : List Handler)
    → pick n hs ≡ some (h, rest)
    → All IsTrue hs
    → IsTrue h × All IsTrue rest × (length hs ≡ suc (length rest))
unfolding pick
pick-parts n [] h rest e t = absurd (cc e)
pick-parts zero (x ∷ xs) h rest e t =
    let (first, others) = some-pair e in
    (subst IsTrue first t.0, subst (All IsTrue) others t.1, ap (λ ys. suc (length ys)) others)
pick-parts (suc n) (x ∷ xs) h rest e t =
    let (others, found, same) = keep_other-some x (pick n xs) h rest e in
    let (own, kept, count) = pick-parts n xs h others found t.1 in
    (
      own,
      subst (All IsTrue) (sym same) (t.0, kept),
      ap suc count ∙ ap (λ ys. suc (length ys)) (sym same),
    )
