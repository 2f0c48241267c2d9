-- ===== src/Prelude/Lists.antt =====
-- Lists measured by native numbers, under the library's names.
use Prim.Native.Nat.{ℕ, zero, suc, ◌+◌}
use mathlib.Core.Path.{◌≡◌}
use mathlib.Core.Bool.{Bool, true, false, ◌&&◌, ◌||◌}
use mathlib.Core.List.{List, [], ◌∷◌, ◌++◌}
use native.Mathlib.Omega.{arith}

module _ {ℓ} {A : Type ℓ} where
  abbrev pub length : List A → ℕ
  length [] = 0
  length (x ∷ xs) = suc (length xs)

  -- `xs.length !== 0`
  abbrev pub nonempty : List A → Bool
  nonempty [] = false
  nonempty (x ∷ xs) = true

  abbrev pub all : (A → Bool) → List A → Bool
  all p [] = true
  all p (x ∷ xs) = p x && all p xs

  abbrev pub any : (A → Bool) → List A → Bool
  any p [] = false
  any p (x ∷ xs) = p x || any p xs

  pub length-append : (xs ys : List A) → length (xs ++ ys) ≡ length xs + length ys
  length-append [] ys = omega arith
  length-append (x ∷ xs) ys = omega (arith, length-append xs ys)

module _ {ℓ κ} {A : Type ℓ} (P : A → Type κ) where
  abbrev pub All : List A → Type κ
  All [] = Unit
  All (x ∷ xs) = P x × All xs

  pub All-append : (xs ys : List A) → All xs → All ys → All (xs ++ ys)
  All-append [] ys hx hy = hy
  All-append (x ∷ xs) ys hx hy = (hx.0, All-append xs ys hx.1 hy)

module _ {ℓ κ} {A : Type ℓ} (P Q : A → Type κ) where
  pub All-map : (xs : List A) → ((a : A) → P a → Q a) → All P xs → All Q xs
  All-map [] f h = tt
  All-map (x ∷ xs) f h = (f x h.0, All-map xs f h.1)

module _ {ℓ} {A : Type ℓ} where
  -- `xs.slice(0, n)`
  abbrev pub take : ℕ → List A → List A
  take zero xs = []
  take (suc n) [] = []
  take (suc n) (x ∷ xs) = x ∷ take n xs

  -- `xs.slice(n)`
  abbrev pub drop : ℕ → List A → List A
  drop zero xs = xs
  drop (suc n) [] = []
  drop (suc n) (x ∷ xs) = drop n xs
