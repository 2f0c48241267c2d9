-- ===== src/Protocol/Text.antt =====
-- The string functions that lib/protocol.js calls, over code units: `trim`, `indexOf`, `slice`.
use mathlib.Core.List.{reverse, reverse_aux, reverse-reverse, reverse-append}
use node_red_contrib_pod_gat.Prelude.{
  ℕ, zero, suc, ◌≡◌, refl, sym, ap, ◌∙◌, Bool, true, false, not, ◌&&◌, ◌||◌, Option, none, some,
  List, [], ◌∷◌, ◌++◌, length, all, take, drop, leb, eqb, Text, if◌then◌else◌, arith, Option-cases,
  Bool-cases, inl, inr,
}
use mathlib.Core.Option

-- White space and line terminators.
unfoldable pub is_space : ℕ → Bool
is_space c =
    leb 9 c && leb c 13
    || eqb c 32
    || eqb c 160
    || eqb c 5760
    || leb 8192 c && leb c 8202
    || eqb c 8232
    || eqb c 8233
    || eqb c 8239
    || eqb c 8287
    || eqb c 12288
    || eqb c 65279

trim_start : Text → Text
trim_start [] = []
trim_start (c ∷ s) = let rest = trim_start s in if is_space c then rest else c ∷ s

unfoldable pub trim : Text → Text
unfolding trim_start is_space
trim s = reverse (trim_start (reverse (trim_start s)))

unfoldable pub index_of : ℕ → Text → Option ℕ
index_of c [] = none
index_of c (d ∷ s) = if eqb d c then some 0 else Option.map suc (index_of c s)

pub all-reverse_aux :
    (p : ℕ → Bool) (s t : Text) → all p s ≡ true → all p t ≡ true → all p (reverse_aux s t) ≡ true
all-reverse_aux p [] t h k = k
all-reverse_aux p (c ∷ s) t h k = all-reverse_aux p s (c ∷ t) (ground arith) (ground arith)

-- The spaces at the start that are dropped.
trim_start-split : (s : Text) → (pre : Text) × (s ≡ pre ++ trim_start s) × (all is_space pre ≡ true)
unfolding trim_start
trim_start-split [] = ([], refl, refl)
trim_start-split (c ∷ s) = elim (Bool-cases (is_space c)) [
  | inl e ↦
      let (pre, split, spaces) = trim_start-split s in
      (c ∷ pre, rw (e, trim_start) (ap (λ t. c ∷ t) split), rw (e, spaces) refl)
  | inr e ↦ ([], rw (e, trim_start) refl, refl)
]

-- `trim` drops nothing but white space, at the two ends.
pub trim-split :
    (s : Text)
    → (pre behind : Text) × (s ≡ pre ++ (trim s ++ behind))
      × (all is_space pre ≡ true)
      × (all is_space behind ≡ true)
unfolding trim
trim-split s =
    let (pre, split, spaces) = trim_start-split s in
    let back = reverse (trim_start s) in
    let (tail, tail_split, tail_spaces) = trim_start-split back in
    let whole : trim_start s ≡ trim s ++ reverse tail =
      sym (reverse-reverse (trim_start s))
      ∙ ap reverse tail_split
      ∙ reverse-append tail (trim_start back) in
    (
      pre,
      reverse tail,
      split ∙ ap (λ t. pre ++ t) whole,
      spaces,
      all-reverse_aux is_space tail [] tail_spaces refl,
    )

-- No character of the text is `c`.
abbrev pub lacks : ℕ → Text → Bool
lacks c = all (λ d. not (eqb d c))

index_of-zero : (c d : ℕ) (s : Text) → index_of c (d ∷ s) ≡ some 0 → (c ∷ s ≡ d ∷ s) × (true ≡ true)
unfolding index_of
index_of-zero c d s h = elim (Option-cases (index_of c s)) [
  | inl e ↦ ground arith
  | inr (i, e) ↦ ground arith
]

-- Where the character is found it splits the text, and does not occur before.
pub index_of-split :
    (c : ℕ) (s : Text) (i : ℕ)
    → index_of c s ≡ some i
    → (take i s ++ c ∷ drop (suc i) s ≡ s) × (lacks c (take i s) ≡ true)
unfolding index_of
index_of-split c [] i h = ground arith
index_of-split c (d ∷ s) zero h = index_of-zero c d s h
index_of-split c (d ∷ s) (suc i) h = ground (arith, index_of-split c s i)

-- The first occurrence is found.
pub index_of-append :
    (c : ℕ) (s t : Text) → lacks c s ≡ true → index_of c (s ++ c ∷ t) ≡ some (length s)
unfolding index_of
index_of-append c [] t h = ground arith
index_of-append c (d ∷ s) t h = ground (arith, index_of-append c s t)

trim_start-lacks_space : (s : Text) → all (λ d. not (is_space d)) s ≡ true → trim_start s ≡ s
unfolding trim_start
trim_start-lacks_space [] h = refl
trim_start-lacks_space (c ∷ s) h = ground arith

-- A text with no space in it is its own trim.
pub trim-lacks_space : (s : Text) → all (λ d. not (is_space d)) s ≡ true → trim s ≡ s
unfolding trim
trim-lacks_space s h =
    rw (trim_start-lacks_space s h)
      (rw (trim_start-lacks_space (reverse s) (all-reverse_aux _ s [] h refl)) (reverse-reverse s))

module _ {ℓ} {A : Type ℓ} where
  pub take-length : (s t : List A) → take (length s) (s ++ t) ≡ s
  take-length [] t = refl
  take-length (c ∷ s) t = ap (λ r. c ∷ r) (take-length s t)

  pub drop-length : (s : List A) (c : A) (t : List A) → drop (suc (length s)) (s ++ c ∷ t) ≡ t
  drop-length [] c t = refl
  drop-length (d ∷ s) c t = drop-length s c t

pub all-append : (p : ℕ → Bool) (s t : Text) → all p (s ++ t) ≡ all p s && all p t
all-append p [] t = refl
all-append p (c ∷ s) t = ground (arith, all-append p s t)

-- Characters that pass a stricter test pass a weaker one.
pub all_mono :
    (p q : ℕ → Bool)
    → ((c : ℕ) → p c ≡ true → q c ≡ true)
    → (s : Text) → all p s ≡ true
    → all q s ≡ true
all_mono p q h [] k = refl
all_mono p q h (c ∷ s) k = ground (arith, h c, all_mono p q h s)

-- A text whose first and last characters are no spaces is its own trim.
pub trim-ends :
    (c d : ℕ) (s : Text)
    → is_space c ≡ false
    → is_space d ≡ false
    → trim (c ∷ s ++ d ∷ []) ≡ c ∷ s ++ d ∷ []
unfolding trim trim_start
trim-ends c d s hc hd =
    let turned : reverse (c ∷ s ++ d ∷ []) ≡ d ∷ reverse (c ∷ s) =
      reverse-append (c ∷ s) (d ∷ []) in
    rw hc (rw (turned, trim_start) (rw hd (rw (← turned) (reverse-reverse (c ∷ s ++ d ∷ [])))))
