-- ===== src/Configuration/Env.antt =====
-- lib/env.js: the variables of a `.env` file. Texts are lists of code units.
use node_red_contrib_pod_gat.Prelude.{
  ℕ, Bool, true, false, not, ◌&&◌, ◌||◌, Option, none, some, List, [], ◌∷◌, Text, text_eq, eqb, leb,
  any, nonempty, is_some, if◌then◌else◌,
}
use mathlib.Core.List.{reverse}
use node_red_contrib_pod_gat.Map.{Map, get, set}
use node_red_contrib_pod_gat.Protocol.Text.{is_space, trim}

abbrev pub newline : ℕ
newline = 10

abbrev pub carriage_return : ℕ
carriage_return = 13

-- `content.split(/\r?\n/)`, with the characters of the line so far, the latest first.
abbrev pub end_line : Text → Text
end_line [] = []
end_line (c ∷ line) = if eqb c carriage_return then reverse line else reverse (c ∷ line)

unfoldable pub lines_from : Text → Text → List Text
lines_from [] line = reverse line ∷ []
lines_from (c ∷ s) line =
    let next = lines_from s [] in
    let longer = lines_from s (c ∷ line) in if eqb c newline then end_line line ∷ next else longer

unfoldable pub split_lines : Text → List Text
split_lines content = lines_from content []

-- `[A-Za-z_]` and `[A-Za-z0-9_]`
unfoldable pub is_name_start : ℕ → Bool
is_name_start c = leb 65 c && leb c 90 || leb 97 c && leb c 122 || eqb c 95

unfoldable pub is_name_part : ℕ → Bool
is_name_part c = is_name_start c || leb 48 c && leb c 57

-- What `.` does not match.
unfoldable pub is_terminator : ℕ → Bool
is_terminator c = eqb c 10 || eqb c 13 || eqb c 8232 || eqb c 8233

unfoldable pub skip_spaces : Text → Text
skip_spaces [] = []
skip_spaces (c ∷ s) = let rest = skip_spaces s in if is_space c then rest else c ∷ s

-- What stands behind `\s*=\s*`, if that is there.
abbrev pub after_equals : Text → Option Text
after_equals [] = none
after_equals (c ∷ s) = if eqb c b'=' then some (skip_spaces s) else none

abbrev pub prepend : ℕ → Option (Text × Text) → Option (Text × Text)
prepend c none = none
prepend c (some (name, value)) = some (c ∷ name, value)

abbrev pub without_name : Option Text → Option (Text × Text)
without_name none = none
without_name (some value) = if any is_terminator value then none else some ([], value)

-- The rest of the name, and the value.
unfoldable pub name_rest : Text → Option (Text × Text)
name_rest [] = none
name_rest (c ∷ s) =
    let rest = name_rest s in
    if is_name_part c then prepend c rest else without_name (after_equals (skip_spaces (c ∷ s)))

-- `trimmed.match(/^([A-Za-z_][A-Za-z0-9_]*)\s*=\s*(.*)$/)`
unfoldable pub match_line : Text → Option (Text × Text)
match_line [] = none
match_line (c ∷ s) = if is_name_start c then prepend c (name_rest s) else none

abbrev pub first_is : ℕ → Text → Bool
first_is q [] = false
first_is q (c ∷ s) = eqb c q

-- `startsWith(q) && endsWith(q)`
abbrev pub quoted_by : ℕ → Text → Bool
quoted_by q s = first_is q s && first_is q (reverse s)

abbrev pub tail : Text → Text
tail [] = []
tail (c ∷ s) = s

-- `value.slice(1, -1)` of a quoted value.
unfoldable pub unquote : Text → Text
unquote s = if quoted_by b'"' s || quoted_by 39 s then reverse (tail (reverse (tail s))) else s

abbrev pub assign : Map Text Text → Option (Text × Text) → Map Text Text
assign env none = env
assign env (some (name, value)) =
    if is_some (get env name) then env else set env name (unquote (trim value))

-- One line: blank lines and comments are skipped, and so are variables that are set.
unfoldable pub load_line : Map Text Text → Text → Map Text Text
load_line env line =
    let trimmed = trim line in
    if not (nonempty trimmed) || first_is b'#' trimmed then env else assign env (match_line trimmed)

unfoldable pub load_lines : Map Text Text → List Text → Map Text Text
load_lines env [] = env
load_lines env (line ∷ rest) = load_lines (load_line env line) rest

-- `loadDotEnv`, of the file's content if there is a file.
unfoldable pub load_dot_env : Option Text → Map Text Text → Map Text Text × Bool
load_dot_env none env = (env, false)
load_dot_env (some content) env = (load_lines env (split_lines content), true)
