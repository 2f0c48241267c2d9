-- ===== src/Configuration/Dotenv.antt =====
-- What a `.env` file sets.
use mathlib.Core.List.{reverse, reverse_aux, reverse-reverse, reverse-append, append_assoc}
use node_red_contrib_pod_gat.Prelude.{
  ℕ, ◌≡◌, refl, sym, ap, ◌∙◌, subst, Bool, true, false, not, ◌&&◌, ◌||◌, Option, none, some, List,
  [], ◌∷◌, ◌++◌, Text, text_eq, ◌==◌, eqb, all, any, All, is_some, if◌then◌else◌, arith, Bool-cases,
  inl, inr, nonempty,
}
use node_red_contrib_pod_gat.Map.{Map, get, set, get-set}
use node_red_contrib_pod_gat.Protocol.Text.{is_space, trim, trim-ends}
use node_red_contrib_pod_gat.Configuration.Env.{
  newline, end_line, lines_from, split_lines, is_name_start, is_name_part, is_terminator,
  skip_spaces, name_rest, match_line, first_is, unquote, assign, load_line, load_lines,
  load_dot_env,
}

assign-kept :
    (env : Map Text Text) (found : Option (Text × Text)) (k v : Text)
    → get env k ≡ some v
    → get (assign env found) k ≡ some v
assign-kept env none k v h = h
assign-kept env (some (name, value)) k v h = elim (Bool-cases (is_some (get env name))) [
  | inl e ↦ rw e h
  | inr e ↦ elim (Bool-cases (name == k)) [
    | inl same ↦ let it = (text_eq.beq_iff name k).0 same in absurd (cc (rw it at e, h))
    | inr other ↦ rw (e, get-set env name k (unquote (trim value)), other) h
  ]
]

load_line-kept :
    (env : Map Text Text) (line k v : Text)
    → get env k ≡ some v
    → get (load_line env line) k ≡ some v
unfolding load_line
load_line-kept env line k v h =
    elim (Bool-cases (not (nonempty (trim line)) || first_is b'#' (trim line))) [
      | inl e ↦ rw (e, load_line) h
      | inr e ↦ rw (e, load_line) (assign-kept env (match_line (trim line)) k v h)
    ]

load_lines-kept :
    (lines : List Text) (env : Map Text Text) (k v : Text)
    → get env k ≡ some v
    → get (load_lines env lines) k ≡ some v
unfolding load_lines
load_lines-kept [] env k v h = h
load_lines-kept (line ∷ rest) env k v h =
    load_lines-kept rest (load_line env line) k v (load_line-kept env line k v h)

-- A variable that the environment has keeps its value, whatever the file holds.
pub load_dot_env-kept :
    (content : Option Text) (env : Map Text Text) (k v : Text)
    → get env k ≡ some v
    → get (load_dot_env content env).0 k ≡ some v
unfolding load_dot_env
load_dot_env-kept none env k v h = h
load_dot_env-kept (some content) env k v h = load_lines-kept (split_lines content) env k v h

-- A variable with a value that stands on one line.
pub record IsEntry (first : ℕ) (name value : Text) : Type 0 where
  pub starts : is_name_start first ≡ true
  pub continues : all is_name_part name ≡ true
  pub one_line : any is_terminator value ≡ false

-- `NAME="value"`
abbrev pub quote : Text → Text
quote value = b'"' ∷ value ++ b'"' ∷ []

abbrev pub print_entry : ℕ → Text → Text → Text
print_entry first name value = first ∷ name ++ b'=' ∷ quote value

any-quote_end :
    (value : Text)
    → any is_terminator value ≡ false
    → any is_terminator (value ++ b'"' ∷ []) ≡ false
unfolding is_terminator
any-quote_end [] h = refl
any-quote_end (c ∷ s) h = ground (arith, any-quote_end s)

any-quote :
    (value : Text) → any is_terminator value ≡ false → any is_terminator (quote value) ≡ false
unfolding is_terminator
any-quote value h = any-quote_end value h

both : (a b : Bool) → a && b ≡ true → (a ≡ true) × (b ≡ true)
both true b h = (refl, h)
both false b h = absurd (cc h)

name_rest-entry :
    (name value : Text)
    → all is_name_part name ≡ true
    → any is_terminator value ≡ false
    → name_rest (name ++ b'=' ∷ quote value) ≡ some (name, quote value)
unfolding name_rest is_name_part is_name_start skip_spaces is_space
name_rest-entry [] value h one = rw (any-quote value one) refl
name_rest-entry (c ∷ name) value h one =
    let (here, there) = both (is_name_part c) (all is_name_part name) h in
    rw (here, name_rest-entry name value there one) refl

match_line-entry :
    (first : ℕ) (name value : Text)
    → IsEntry first name value
    → match_line (print_entry first name value) ≡ some (first ∷ name, quote value)
unfolding match_line
match_line-entry first name value e =
    rw (e.starts, name_rest-entry name value e.continues e.one_line) refl

name_start-plain : (c : ℕ) → is_name_start c ≡ true → (is_space c ≡ false) × (eqb c b'#' ≡ false)
unfolding is_name_start is_space
name_start-plain c h = (ground (arith, h), ground (arith, h))

quote-space : is_space b'"' ≡ false
unfolding is_space
quote-space = refl

trim-entry :
    (first : ℕ) (name value : Text)
    → is_name_start first ≡ true
    → trim (print_entry first name value) ≡ print_entry first name value
trim-entry first name value h =
    subst (λ z. trim (first ∷ z) ≡ first ∷ z) (append_assoc name (b'=' ∷ b'"' ∷ value) (b'"' ∷ []))
      (trim-ends first b'"' (name ++ b'=' ∷ b'"' ∷ value) (name_start-plain first h).0 quote-space)

unquote-quote : (value : Text) → unquote (trim (quote value)) ≡ value
unfolding unquote
unquote-quote value =
    let turned : reverse (quote value) ≡ b'"' ∷ reverse (b'"' ∷ value) =
      reverse-append (b'"' ∷ value) (b'"' ∷ []) in
    let inner : reverse (value ++ b'"' ∷ []) ≡ b'"' ∷ reverse value =
      reverse-append value (b'"' ∷ []) in
    rw (trim-ends b'"' b'"' value quote-space quote-space)
      (rw turned (rw inner (reverse-reverse value)))

-- The variable is set if the environment does not have it.
abbrev pub define : Map Text Text → Text → Text → Map Text Text
define env name value = if is_some (get env name) then env else set env name value

load_line-entry :
    (env : Map Text Text) (first : ℕ) (name value : Text)
    → IsEntry first name value
    → load_line env (print_entry first name value) ≡ define env (first ∷ name) value
unfolding load_line
load_line-entry env first name value e =
    rw
      (
        trim-entry first name value e.starts,
        (name_start-plain first e.starts).1,
        match_line-entry first name value e,
        unquote-quote value,
      )
      refl

-- A line with no line break, whose last character is a quote.
lines_from-line :
    (s t line : Text)
    → all (λ c. not (eqb c newline)) s ≡ true
    → lines_from (s ++ newline ∷ t) line ≡ end_line (reverse_aux s line) ∷ lines_from t []
unfolding lines_from
lines_from-line [] t line h = refl
lines_from-line (c ∷ s) t line h =
    let (here, there) = both (not (eqb c newline)) (all (λ d. not (eqb d newline)) s) h in
    let other : eqb c newline ≡ false = ground (arith, here) in
    rw (other, lines_from-line s t (c ∷ line) there) refl

abbrev on_line : Text → Bool
on_line = all (λ c. not (eqb c newline))

on_line-name :
    (name t : Text) → all is_name_part name ≡ true → on_line t ≡ true → on_line (name ++ t) ≡ true
unfolding is_name_part is_name_start
on_line-name [] t h k = k
on_line-name (c ∷ s) t h k = ground (arith, on_line-name s t (ground (arith, h)) k)

on_line-value :
    (value t : Text)
    → any is_terminator value ≡ false
    → on_line t ≡ true
    → on_line (value ++ t) ≡ true
unfolding is_terminator
on_line-value [] t h k = k
on_line-value (c ∷ s) t h k = ground (arith, on_line-value s t (ground (arith, h)) k)

on_line-entry :
    (first : ℕ) (name value : Text)
    → IsEntry first name value
    → on_line (print_entry first name value) ≡ true
unfolding is_name_start
on_line-entry first name value e =
    let behind : on_line (value ++ b'"' ∷ []) ≡ true =
      on_line-value value (b'"' ∷ []) e.one_line refl in
    let all_behind : on_line (b'=' ∷ quote value) ≡ true = behind in
    ground (arith, e.starts, on_line-name name (b'=' ∷ quote value) e.continues all_behind)

end_line-entry :
    (first : ℕ) (name value : Text)
    → end_line (reverse (print_entry first name value)) ≡ print_entry first name value
end_line-entry first name value =
    let front = first ∷ name ++ b'=' ∷ b'"' ∷ value in
    subst (λ z. end_line (reverse (first ∷ z)) ≡ first ∷ z)
      (append_assoc name (b'=' ∷ b'"' ∷ value) (b'"' ∷ []))
      (let turned : reverse (front ++ b'"' ∷ []) ≡ b'"' ∷ reverse front =
          reverse-append front (b'"' ∷ []) in
        ap end_line turned ∙ ap reverse (sym turned) ∙ reverse-reverse (front ++ b'"' ∷ []))

-- Variables, each as the first character and the rest of its name, and its value.
abbrev pub Entries : Type 0
Entries = List (ℕ × Text × Text)

unfoldable pub print_all : Entries → Text
print_all [] = []
print_all ((first, name, value) ∷ es) = print_entry first name value ++ newline ∷ print_all es

unfoldable pub define_all : Map Text Text → Entries → Map Text Text
define_all env [] = env
define_all env ((first, name, value) ∷ es) = define_all (define env (first ∷ name) value) es

load_line-empty : (env : Map Text Text) → load_lines env (split_lines []) ≡ env
unfolding load_lines split_lines lines_from load_line trim
load_line-empty env = refl

load_lines-print :
    (es : Entries) (env : Map Text Text)
    → All (λ e. IsEntry e.0 e.1 e.2) es
    → load_lines env (split_lines (print_all es)) ≡ define_all env es
unfolding load_lines split_lines print_all define_all
load_lines-print [] env h = load_line-empty env
load_lines-print ((first, name, value) ∷ es) env h =
    rw
      (lines_from-line (print_entry first name value) (print_all es) []
        (on_line-entry first name value h.0))
      (rw (end_line-entry first name value, load_lines)
        (rw (load_line-entry env first name value h.0)
          (load_lines-print es (define env (first ∷ name) value) h.1)))

-- Variables are printed as lines `NAME="value"`, with values that hold any character but line
-- terminators. Reading the file sets each of them in turn to its value, unless the environment or an
-- earlier line has it.
pub load_dot_env-print :
    (es : Entries) (env : Map Text Text)
    → All (λ e. IsEntry e.0 e.1 e.2) es
    → load_dot_env (some (print_all es)) env ≡ (define_all env es, true)
unfolding load_dot_env
load_dot_env-print es env h = ap (λ m. (m, true)) (load_lines-print es env h)
