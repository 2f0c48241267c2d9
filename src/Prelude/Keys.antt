-- ===== src/Prelude/Keys.antt =====
-- Keys of a `Map`: texts, numbers and lists of code units, with their equality `===`.
use Prim.Native.Nat.{ℕ}
use Prim.Native.Char.{code}
use Prim.Native.String.{String}
use mathlib.Core.Path.{◌≡◌}
use mathlib.Core.Logic.{◌↔◌}
use mathlib.Core.Bool.{Bool, true, false, ◌&&◌}
use mathlib.Core.List.{List, [], ◌∷◌}
use native.Mathlib.Omega.{arith}
use text.Mathlib.Text.{◌==◌ as string_beq}
use text.Mathlib.TextEquality.{eq_iff}
use node_red_contrib_pod_gat.Prelude.Tests.{eqb, eqb_iff}

pub record Eq {ℓ} (A : Type ℓ) : Type ℓ where
  pub beq : A → A → Bool
  pub beq_iff : (a b : A) → (beq a b ≡ true) ↔ (a ≡ b)

-- A JavaScript string that the code walks, as its code units.
abbrev pub Text : Type 0
Text = List ℕ

-- The code units of a literal.
abbrev pub codes : String → Text
codes String.[] = []
codes (String.◌∷◌ c s) = code c ∷ codes s

abbrev pub text_beq : Text → Text → Bool
text_beq [] [] = true
text_beq [] (y ∷ ys) = false
text_beq (x ∷ xs) [] = false
text_beq (x ∷ xs) (y ∷ ys) = eqb x y && text_beq xs ys

pub text_beq_iff : (xs ys : Text) → (text_beq xs ys ≡ true) ↔ (xs ≡ ys)
text_beq_iff [] [] = ground arith
text_beq_iff [] (y ∷ ys) = ground arith
text_beq_iff (x ∷ xs) [] = ground arith
text_beq_iff (x ∷ xs) (y ∷ ys) = ground (arith, text_beq_iff xs ys)

instance abbrev pub text_eq : Eq Text
text_eq = record { beq = text_beq; beq_iff = text_beq_iff }

infix 50 ◌==◌
abbrev pub ◌==◌ {ℓ} : {A : Type ℓ} ⦃e : Eq A⦄ → A → A → Bool
◌==◌ ⦃e⦄ = e.beq

instance abbrev pub string_eq : Eq String
string_eq = record { beq = string_beq; beq_iff = eq_iff }

instance abbrev pub nat_eq : Eq ℕ
nat_eq = record { beq = eqb; beq_iff = eqb_iff }
