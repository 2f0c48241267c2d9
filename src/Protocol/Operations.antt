-- ===== src/Protocol/Operations.antt =====
-- What `parseOperation` accepts, and what it returns.
use native.Mathlib.Numerals.{add-one}
use mathlib.Core.Bool.{◌&&◌}
use node_red_contrib_pod_gat.Prelude.{
  ℕ, suc, ◌+◌, ◌≡◌, refl, sym, ap, ◌∙◌, true, false, not, ◌||◌, Option, none, some, [], ◌∷◌, ◌++◌,
  length, length-append, nonempty, all, take, drop, eqb, Text, arith, inl, inr, Bool-cases,
  Option-cases,
}
use node_red_contrib_pod_gat.Result.{ok}
use node_red_contrib_pod_gat.Protocol.{
  Operation, is_service_char, is_name_char, check_characters, split_operation, parse_operation,
}
use node_red_contrib_pod_gat.Protocol.Text.{
  is_space, trim, trim-split, index_of, index_of-split, index_of-append, trim-lacks_space,
  take-length, drop-length, all-append, all_mono,
}

-- A key of the form service/name over the allowed characters.
pub record IsOperation (o : Operation) : Type 0 where
  pub service_nonempty : nonempty o.service ≡ true
  pub service_chars : all is_service_char o.service ≡ true
  pub name_nonempty : nonempty o.operation ≡ true
  pub name_chars : all is_name_char o.operation ≡ true
  pub key : o.value ≡ o.service ++ b'/' ∷ o.operation

check_characters-IsOperation :
    (service name value : Text) (o : Operation)
    → value ≡ service ++ b'/' ∷ name
    → check_characters service name value ≡ ok o
    → IsOperation o
unfolding check_characters
check_characters-IsOperation service name value o e h = ground arith

split_operation-IsOperation :
    (value : Text) (i : ℕ) (o : Operation)
    → index_of b'/' value ≡ some i
    → split_operation value (some i) ≡ ok o
    → IsOperation o
unfolding split_operation
split_operation-IsOperation value i o e h =
    elim (Bool-cases (eqb i 0 || eqb (i + 1) (length value))) [
      | inl b ↦ absurd (cc (rw b at h))
      | inr b ↦
          check_characters-IsOperation (take i value) (drop (i + 1) value) value o
            (rw add-one (sym (index_of-split b'/' value i e).0)) (rw b at h)
    ]

parse_operation-form : (t : Option Text) (o : Operation) → parse_operation t ≡ ok o → IsOperation o
unfolding parse_operation
parse_operation-form none o h = absurd (cc h)
parse_operation-form (some t) o h = elim (Bool-cases (nonempty (trim t))) [
  | inl e ↦ elim (Option-cases (index_of b'/' (trim t))) [
    | inl missing ↦ absurd (cc (rw (e, missing) at h))
    | inr (i, found) ↦ split_operation-IsOperation (trim t) i o found (rw (e, found) at h)
  ]
  | inr e ↦ absurd (cc (rw e at h))
]

split_operation-value :
    (value : Text) (i : ℕ) (o : Operation) → split_operation value (some i) ≡ ok o → o.value ≡ value
unfolding split_operation check_characters
split_operation-value value i o h = ground (arith, h)

parse_operation-trim :
    (t : Text) (o : Operation) → parse_operation (some t) ≡ ok o → o.value ≡ trim t
unfolding parse_operation
parse_operation-trim t o h = elim (Bool-cases (nonempty (trim t))) [
  | inl e ↦ elim (Option-cases (index_of b'/' (trim t))) [
    | inl missing ↦ absurd (cc (rw (e, missing) at h))
    | inr (i, found) ↦ split_operation-value (trim t) i o (rw (e, found) at h)
  ]
  | inr e ↦ absurd (cc (rw e at h))
]

-- The text `t` is that key, in white space.
pub record IsKeyOf (t : Text) (o : Operation) : Type 0 where
  pub form : IsOperation o
  pub before : Text
  pub behind : Text
  pub text : t ≡ before ++ ((o.service ++ b'/' ∷ o.operation) ++ behind)
  pub before_space : all is_space before ≡ true
  pub behind_space : all is_space behind ≡ true

-- Every text that is accepted is, but for white space at its two ends, a key of the form service/name
-- over the allowed characters, and the three parts that are returned are those of that key.
pub parse_operation-IsKeyOf :
    (t : Text) (o : Operation) → parse_operation (some t) ≡ ok o → IsKeyOf t o
parse_operation-IsKeyOf t o h =
    let form = parse_operation-form (some t) o h in
    let (pre, post, split, a, b) = trim-split t in
    let key = sym (parse_operation-trim t o h) ∙ form.key in
    record {
      form = form;
      before = pre;
      behind = post;
      text = split ∙ ap (λ k. pre ++ (k ++ post)) key;
      before_space = a;
      behind_space = b;
    }

not_space_of_service : (c : ℕ) → is_service_char c ≡ true → not (is_space c) ≡ true
unfolding is_service_char is_space
not_space_of_service c h = ground arith

not_slash_of_service : (c : ℕ) → is_service_char c ≡ true → not (eqb c b'/') ≡ true
unfolding is_service_char
not_slash_of_service c h = ground arith

not_space_of_name : (c : ℕ) → is_name_char c ≡ true → not (is_space c) ≡ true
unfolding is_name_char is_space
not_space_of_name c h = ground arith

slash_not_space : not (is_space b'/') ≡ true
unfolding is_space
slash_not_space = refl

length-positive : (s : Text) → nonempty s ≡ true → (n : ℕ) × (length s ≡ suc n)
length-positive [] h = absurd (cc h)
length-positive (c ∷ s) h = (length s, refl)

key_tests :
    (s t : Text)
    → nonempty s ≡ true
    → nonempty t ≡ true
    → (eqb (length s) 0 || eqb (length s + 1) (length (s ++ b'/' ∷ t))) ≡ false
key_tests s t h k =
    ground (arith, length-append s (b'/' ∷ t), length-positive s h, length-positive t k)

nonempty-append : (s t : Text) → nonempty s ≡ true → nonempty (s ++ t) ≡ true
nonempty-append [] t h = absurd (cc h)
nonempty-append (c ∷ s) t h = refl

check_characters-parts :
    (s t v : Text)
    → nonempty s ≡ true
    → all is_service_char s ≡ true
    → nonempty t ≡ true
    → all is_name_char t ≡ true
    → check_characters s t v ≡ ok (record { service = s; operation = t; value = v })
unfolding check_characters
check_characters-parts s t v a b c d = rw (a, b, c, d)

split_operation-parts :
    (s t : Text)
    → nonempty s ≡ true
    → all is_service_char s ≡ true
    → nonempty t ≡ true
    → all is_name_char t ≡ true
    → split_operation (s ++ b'/' ∷ t) (some (length s))
      ≡ ok (record { service = s; operation = t; value = s ++ b'/' ∷ t })
unfolding split_operation
split_operation-parts s t a b c d = rw (key_tests s t a c) (
    rw (take-length s (b'/' ∷ t)) (
      rw (add-one (length s))
        (rw (drop-length s b'/' t) (check_characters-parts s t (s ++ b'/' ∷ t) a b c d))))

trim-key :
    (s t : Text)
    → all is_service_char s ≡ true
    → all is_name_char t ≡ true
    → trim (s ++ b'/' ∷ t) ≡ s ++ b'/' ∷ t
trim-key s t a b = trim-lacks_space (s ++ b'/' ∷ t) (all-append _ s (b'/' ∷ t) ∙ spaces)
  where
    spaces : (all (λ d. not (is_space d)) s && all (λ d. not (is_space d)) (b'/' ∷ t)) ≡ true
    spaces = rw (
      all_mono _ (λ d. not (is_space d)) not_space_of_service s a,
      slash_not_space,
      all_mono _ (λ d. not (is_space d)) not_space_of_name t b,
    )

-- A key of that form parses to its parts: `parseOperation` undoes the join of service and name.
pub parse_operation-parts :
    (s t : Text)
    → nonempty s ≡ true
    → all is_service_char s ≡ true
    → nonempty t ≡ true
    → all is_name_char t ≡ true
    → parse_operation (some (s ++ b'/' ∷ t))
      ≡ ok (record { service = s; operation = t; value = s ++ b'/' ∷ t })
unfolding parse_operation
parse_operation-parts s t a b c d = rw (trim-key s t b d) (
    rw (nonempty-append s (b'/' ∷ t) a) (
      rw (index_of-append b'/' s t (all_mono _ _ not_slash_of_service s b))
        (split_operation-parts s t a b c d)))

-- What was accepted is accepted again as it stands, with the same parts.
pub parse_operation-value :
    (t : Option Text) (o : Operation)
    → parse_operation t ≡ ok o
    → parse_operation (some o.value) ≡ ok o
parse_operation-value t o h =
    let v = parse_operation-form t o h in
    ap (λ k. parse_operation (some k)) v.key
    ∙ parse_operation-parts o.service o.operation v.service_nonempty v.service_chars v.name_nonempty
        v.name_chars
    ∙ ap (λ k. ok (record { service = o.service; operation = o.operation; value = k })) (sym v.key)
