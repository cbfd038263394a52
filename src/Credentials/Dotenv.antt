-- ===== src/Credentials/Dotenv.antt =====
-- credentials/__init__.py: the assignments of a .env file, and the parts of a reference.
use Prim.Native.Char.{code}
use mcp_multiplex.Prelude.{
  ℕ, String, Bool, true, false, not, ◌&&◌, ◌||◌, List, [], ◌∷◌, Option, none, some, if◌then◌else◌,
  ◌==◌, ◌<>◌, truthy, eqb, leb, strip_left, strip_right, starts_with,
}
use mcp_multiplex.Security.{is_space}

-- `s.removeprefix(prefix)`, where the prefix is there.
unfoldable pub removed : String → String → Option String
removed String.[] s = some s
removed (String.◌∷◌ c p) String.[] = none
removed (String.◌∷◌ c p) (String.◌∷◌ d s) = if eqb (code c) (code d) then removed p s else none

abbrev pub removed_or : String → String → String → String
removed_or default prefix s = elim (removed prefix s) [ none ↦ default | some rest ↦ rest ]

-- `s.split(c, 1)` and `s.rsplit(c, 1)`, where the character is there.
unfoldable pub split_first : ℕ → String → Option (String × String)
split_first c String.[] = none
split_first c (String.◌∷◌ d s) = elim (eqb c (code d)) [
  | true ↦ some ("", s)
  | false ↦ elim (split_first c s) [ none ↦ none | some (a, b) ↦ some (String.◌∷◌ d a, b) ]
]

unfoldable pub split_last : ℕ → String → Option (String × String)
split_last c String.[] = none
split_last c (String.◌∷◌ d s) = elim (split_last c s) [
  | some (a, b) ↦ some (String.◌∷◌ d a, b)
  | none ↦ elim (eqb c (code d)) [ true ↦ some ("", s) | false ↦ none ]
]

-- The boundaries of `str.splitlines`
abbrev is_break : ℕ → Bool
is_break c =
    (leb 10 c && leb c 13)
    || ((leb 28 c && leb c 30) || (eqb c 0x85 || (eqb c 0x2028 || eqb c 0x2029)))

-- `splitlines` after the part of a line; a line feed after a carriage return belongs to it.
unfoldable pub lines : (after_return : Bool) → String → String → List String
lines after_return part String.[] = if truthy part then part ∷ [] else []
lines after_return part (String.◌∷◌ c s) = elim (after_return && eqb (code c) 10) [
  | true ↦ lines false part s
  | false ↦ elim (is_break (code c)) [
    | true ↦ part ∷ lines (eqb (code c) 13) "" s
    | false ↦ lines false (part <> String.◌∷◌ c "") s
  ]
]

abbrev strip : String → String
strip s = strip_right is_space (strip_left is_space s)

-- `_strip_dotenv_value`: a text between two quotation marks of one kind.
abbrev ends_quote : Option (String × String) → Option String
ends_quote none = none
ends_quote (some (inner, after)) = if truthy after then none else some inner

abbrev unquoted : ℕ → String → Option String
unquoted q s = elim (split_first q s) [
  | none ↦ none
  | some (before, rest) ↦ if truthy before then none else ends_quote (split_last q rest)
]

abbrev first_of : Option String → Option String → String → String
first_of (some a) o d = a
first_of none (some b) d = b
first_of none none d = d

unfoldable pub strip_dotenv_value : String → String
strip_dotenv_value s = first_of (unquoted 39 s) (unquoted 34 s) s

abbrev dropped_export : String → String
dropped_export name = elim (removed "export " name) [ none ↦ name | some rest ↦ strip rest ]

-- The assignment of a line, if it has one.
unfoldable pub assignment : String → Option (String × String)
assignment raw =
    let line = strip raw in
    elim (split_first b'=' line) [
      | none ↦ none
      | some (left, value) ↦
          let name = dropped_export (strip left) in
          if not (truthy line) || starts_with line "#" || not (truthy name)
          then none
          else some (name, strip_dotenv_value (strip value))
    ]

unfoldable pub assignments_of : List String → List (String × String)
assignments_of [] = []
assignments_of (l ∷ ls) =
    let rest = assignments_of ls in elim (assignment l) [ none ↦ rest | some a ↦ a ∷ rest ]

-- `_iter_dotenv_assignments`, of the text of the file
unfoldable pub dotenv_assignments : String → List (String × String)
dotenv_assignments s = assignments_of (lines false "" s)

-- `dict(assignments).get(key)`: the last assignment counts.
unfoldable pub value_of : String → List (String × String) → Option String
value_of key [] = none
value_of key ((name, value) ∷ rest) = elim (value_of key rest) [
  | some v ↦ some v
  | none ↦ if name == key then some value else none
]
