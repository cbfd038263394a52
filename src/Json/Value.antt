-- ===== src/Json/Value.antt =====
-- The truth value that Python gives a JSON value.
use mcp_multiplex.Prelude.{
  String, Bool, true, false, not, Option, none, some, [], ◌∷◌, if◌then◌else◌, truthy, elem,
}
use mcp_multiplex.Json.{Json, null, boolean, number, text, array, object, nil, cons, end, field}

-- The truth value of a number: one of its digits before the exponent is not 0.
abbrev pub nonzero : String → Bool
nonzero String.[] = false
nonzero (String.◌∷◌ c s) =
    if elem (String.◌∷◌ c "") ("0" ∷ "." ∷ "-" ∷ [])
    then nonzero s
    else not (elem (String.◌∷◌ c "") ("e" ∷ "E" ∷ []))

-- The truth value of `d.get(key)`.
abbrev pub is_true : Option Json → Bool
is_true none = false
is_true (some null) = false
is_true (some (boolean b)) = b
is_true (some (number n)) = nonzero n
is_true (some (text s)) = truthy s
is_true (some (array nil)) = false
is_true (some (array (cons x xs))) = true
is_true (some (object end)) = false
is_true (some (object (field k v fs))) = true
