-- ===== src/Result.antt =====
-- What a function that may throw returns: a value, or the message of the error that it throws.
use node_red_contrib_pod_gat.Prelude.{◌≡◌, refl, ◌⊎◌, inl, inr, List, [], ◌∷◌, Text}

pub data Result {ℓ} (A : Type ℓ) : Type ℓ where
  throws : Text → Result A
  ok : A → Result A

-- `catch`: the message of an error, if one was thrown.
abbrev pub caught {ℓ} : {A : Type ℓ} → Result A → List Text
caught (throws message) = message ∷ []
caught (ok value) = []

infixl 5 ◌>>=◌
abbrev pub ◌>>=◌ {ℓ κ} :
    {A : Type ℓ} {B : Type κ} (first : Result A) (next : A → Result B) → Result B
throws message >>= next = throws message
ok value >>= next = next value

-- A block that returns has run each of its parts to a value.
pub >>=-eq-ok {ℓ κ} :
    {A : Type ℓ} {B : Type κ} (first : Result A) (next : A → Result B) {b : B}
    → (first >>= next) ≡ ok b
    → (value : A) × (first ≡ ok value) × (next value ≡ ok b)
>>=-eq-ok (throws message) next h = absurd (cc h)
>>=-eq-ok (ok value) next h = (value, refl, h)

infixl 5 ◌>>◌
abbrev pub ◌>>◌ {ℓ κ} : {A : Type ℓ} {B : Type κ} (first : Result A) (second : Result B) → Result B
first >> second = first >>= λ _. second

pub Result-cases {ℓ} :
    {A : Type ℓ} (x : Result A) → ((e : Text) × (x ≡ throws e)) ⊎ ((a : A) × (x ≡ ok a))
Result-cases (throws e) = inl (e, refl)
Result-cases (ok a) = inr (a, refl)
