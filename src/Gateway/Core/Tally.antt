-- ===== src/Gateway/Core/Tally.antt =====
-- No accepted request is lost or answered twice, and one idempotency key is held by one request.
use node_red_contrib_pod_gat.Prelude.{
  ℕ, ◌+◌, ◌≡◌, refl, ap, ◌∙◌, false, Option, none, some, List, [], ◌∷◌, String, arith, is_some, eqb,
  ltb, ◌==◌, string_eq, eq_iff, if◌then◌else◌,
}
use node_red_contrib_pod_gat.Map.{Map, get, get-set, get-delete}
use node_red_contrib_pod_gat.Gateway.Types.{Item}
use node_red_contrib_pod_gat.Gateway.Core.{Core, claim, release, Unclaimed, Move}
use node_red_contrib_pod_gat.Gateway.Core.Counting.{
  Test, one_if, live, Flow, level, enters, leaves, Move-Flow,
}

abbrev pub has_serial : ℕ → Test
has_serial n m key = eqb m n

abbrev pub has_key : String → Test
has_key key m none = false
has_key key m (some other) = other == key

abbrev pub times : ℕ → List ℕ → ℕ
times n [] = 0
times n (m ∷ ms) = one_if (eqb m n) + times n ms

-- Each serial number that was given out is held once, or was completed once.
abbrev pub IsTallied : Core → Type 0
IsTallied c = (n : ℕ) → live (has_serial n) c + times n c.completed ≡ one_if (ltb n c.next)

-- A key is claimed if one unfinished request has it; no two have it.
abbrev pub IsKeyed : Core → Type 0
IsKeyed c = (key : String) → live (has_key key) c ≡ one_if (is_some (get c.claims key))

Flow-IsTallied : (c d : Core) → Flow c d → IsTallied c → IsTallied d
Flow-IsTallied c d (level h l) t n =
    rw (ap (λ x. x.1) l, ap (λ x. x.2) l) (rw (h (has_serial n)) (t n))
Flow-IsTallied c d (enters item s u h l) t n =
    rw (ap (λ x. x.1) l, ap (λ x. x.2) l) (ground (arith, h (has_serial n), t n))
Flow-IsTallied c d (leaves item h l) t n =
    rw (ap (λ x. x.1) l, ap (λ x. x.2) l) (omega (arith, h (has_serial n), t n))

pub Move-IsTallied : (c d : Core) → Move c d → IsTallied c → IsTallied d
Move-IsTallied c d m = Flow-IsTallied c d (Move-Flow c d m)

-- How many hold a key: one or none.
abbrev held : Map String Item → String → ℕ
held claims key = one_if (is_some (get claims key))

claim_held :
    (claims : Map String Item) (item : Item) (own : Option String) (key : String) (n : ℕ)
    → Unclaimed claims own
    → held (claim claims item own) key ≡ held claims key + one_if (has_key key n own)
claim_held claims item none key n u = omega arith
claim_held claims item (some own) key n u =
    rw (get-set claims own key item) (ground (arith, eq_iff own key))

release_held :
    (claims : Map String Item) (own : Option String) (key : String) (n : ℕ)
    → held (release claims own) key ≡ (if has_key key n own then 0 else held claims key)
release_held claims none key n = refl
release_held claims (some own) key n = rw (get-delete claims own key) (ground arith)

Flow-IsKeyed : (c d : Core) → Flow c d → IsKeyed c → IsKeyed d
Flow-IsKeyed c d (level h l) k key = rw (ap (λ x. x.0) l) (h (has_key key) ∙ k key)
Flow-IsKeyed c d (enters item s u h l) k key = rw (ap (λ x. x.0) l) (
    h (has_key key)
    ∙ omega (arith, k key, claim_held c.claims item item.dedup_key key item.serial u))
Flow-IsKeyed c d (leaves item h l) k key =
    rw (ap (λ x. x.0) l)
      (ground (arith, h (has_key key), k key, release_held c.claims item.dedup_key key item.serial))

pub Move-IsKeyed : (c d : Core) → Move c d → IsKeyed c → IsKeyed d
Move-IsKeyed c d m = Flow-IsKeyed c d (Move-Flow c d m)
