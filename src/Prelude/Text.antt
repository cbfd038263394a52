-- ===== src/Prelude/Text.antt =====
-- Text as Python has it: equality, order by code points, truth value, `a or b`, `in` a collection.
use Prim.Native.Nat.{ℕ, zero, suc}
use Prim.Native.Char.{Char, code}
use Prim.Native.String.{String, ◌++◌ as text_append}
use mathlib.Core.Path.{◌≡◌, refl, sym, ◌∙◌}
use text.Mathlib.TextLemmas.{
  append_cancel_left, cons-append, tail-eq_of_cons-eq, head-eq_of_cons-eq,
}
use mathlib.Core.Bool.{Bool, true, false, not, ◌&&◌, ◌||◌}
use mathlib.Core.Option.{Option, none, some}
use mathlib.Core.List.{List, [], ◌∷◌}
use native.Mathlib.Omega.{arith}
use text.Mathlib.Text.{◌==◌ as str_eq}
use text.Mathlib.TextEquality.{eq_iff}
use mcp_multiplex.Prelude.Tests.{ltb, if◌then◌else◌, Bool-cases}
use mathlib.Core.Logic.{◌≢◌, ◌⊎◌, inl, inr}

infix 50 ◌==◌
abbrev pub ◌==◌ : String → String → Bool
a == b = str_eq a b

-- `a <= b`, which compares code points.
abbrev pub lex_leb : List ℕ → List ℕ → Bool
lex_leb [] t = true
lex_leb (c ∷ s) [] = false
lex_leb (c ∷ s) (d ∷ t) = if ltb c d then true else if ltb d c then false else lex_leb s t

abbrev pub codes : String → List ℕ
codes String.[] = []
codes (String.◌∷◌ c s) = code c ∷ codes s

abbrev pub text_leb : String → String → Bool
text_leb s t = lex_leb (codes s) (codes t)

-- The concatenation that an f-string makes.
infixr 65 ◌<>◌
abbrev pub ◌<>◌ : String → String → String
s <> t = text_append s t

-- The truth value of a text.
abbrev pub truthy : String → Bool
truthy s = not (s == "")

-- The truth value of a text or None.
abbrev pub truthy? : Option String → Bool
truthy? none = false
truthy? (some s) = truthy s

-- `o or d`: an empty text counts as missing.
abbrev pub text_or : Option String → String → String
text_or none d = d
text_or (some s) d = elim (s == "") [ true ↦ d | false ↦ s ]

-- Equality of two values that are texts or None.
abbrev pub opt_eq : Option String → Option String → Bool
opt_eq none none = true
opt_eq none (some b) = false
opt_eq (some a) none = false
opt_eq (some a) (some b) = a == b

pub opt_eq_refl : (o : Option String) → opt_eq o o ≡ true
opt_eq_refl none = refl
opt_eq_refl (some a) = (eq_iff a a).1 refl

pub eq_of_opt_eq : (a b : Option String) → opt_eq a b ≡ true → a ≡ b
eq_of_opt_eq none none h = refl
eq_of_opt_eq none (some b) h = ground arith
eq_of_opt_eq (some a) none h = ground arith
eq_of_opt_eq (some a) (some b) h = ground (arith, eq_iff a b)

-- `s in xs`
abbrev pub elem : String → List String → Bool
elem s [] = false
elem s (x ∷ xs) = x == s || elem s xs

-- Membership in a set of two texts.
pub elem_two : (s x y : String) → elem s (x ∷ y ∷ []) ≡ true → (x ≡ s) ⊎ (y ≡ s)
elem_two s x y h = elim (Bool-cases (x == s)) [
  | inl same ↦ inl ((eq_iff x s).0 same)
  | inr apart ↦ inr ((eq_iff y s).0 (ground arith))
]

-- The order is total.
lex_leb_total : (s t : List ℕ) → lex_leb s t ≡ false → lex_leb t s ≡ true
lex_leb_total [] t h = ground arith
lex_leb_total (c ∷ s) [] h = refl
lex_leb_total (c ∷ s) (d ∷ t) h = ground (arith, lex_leb_total s t)

pub text_leb_total : (s t : String) → text_leb s t ≡ false → text_leb t s ≡ true
text_leb_total s t h = lex_leb_total (codes s) (codes t) h

lex_leb_trans : (s t u : List ℕ) → lex_leb s t ≡ true → lex_leb t u ≡ true → lex_leb s u ≡ true
lex_leb_trans [] t u h k = refl
lex_leb_trans (c ∷ s) [] u h k = ground arith
lex_leb_trans (c ∷ s) (d ∷ t) [] h k = ground arith
lex_leb_trans (c ∷ s) (d ∷ t) (e ∷ u) h k = ground (arith, lex_leb_trans s t u)

pub text_leb_trans :
    (s t u : String) → text_leb s t ≡ true → text_leb t u ≡ true → text_leb s u ≡ true
text_leb_trans s t u h k = lex_leb_trans (codes s) (codes t) (codes u) h k

lex_leb_refl : (s : List ℕ) → lex_leb s s ≡ true
lex_leb_refl [] = refl
lex_leb_refl (c ∷ s) = ground (arith, lex_leb_refl s)

pub text_leb_refl : (s : String) → text_leb s s ≡ true
text_leb_refl s = lex_leb_refl (codes s)

-- `s[:n]`
abbrev pub take_text : ℕ → String → String
take_text zero s = ""
take_text (suc n) String.[] = ""
take_text (suc n) (String.◌∷◌ c s) = String.◌∷◌ c (take_text n s)

-- `s.endswith(t)`
abbrev pub ends_with : String → String → Bool
ends_with String.[] t = t == ""
ends_with (String.◌∷◌ c s) t = String.◌∷◌ c s == t || ends_with s t

-- `s.rstrip(…)` and `s.lstrip(…)`, of the characters that satisfy a test.
unfoldable pub strip_right : (ℕ → Bool) → String → String
strip_right p String.[] = ""
strip_right p (String.◌∷◌ c s) =
    let rest = strip_right p s in if rest == "" && p (code c) then "" else String.◌∷◌ c rest

unfoldable pub strip_left : (ℕ → Bool) → String → String
strip_left p String.[] = ""
strip_left p (String.◌∷◌ c s) =
    let rest = strip_left p s in if p (code c) then rest else String.◌∷◌ c s

-- What two texts have in common in front says nothing of the rest.
pub append-cancel : (s t u : String) → s <> t ≡ s <> u → t ≡ u
append-cancel s t u e = append_cancel_left s t u e

-- The second characters of two equal texts.
pub second-eq :
    (a b c d : Char) (s t u v : String)
    → String.◌∷◌ a (String.◌∷◌ b s) <> u ≡ String.◌∷◌ c (String.◌∷◌ d t) <> v
    → b ≡ d
second-eq a b c d s t u v e =
    let first = sym (cons-append a (String.◌∷◌ b s) u) ∙ e ∙ cons-append c (String.◌∷◌ d t) v in
    let tail = tail-eq_of_cons-eq first in
    head-eq_of_cons-eq (sym (cons-append b s u) ∙ tail ∙ cons-append d t v)

pub apart : (s t : String) → (s == t) ≡ false → s ≢ t
apart s t h e = ground (arith, eq_iff s t)
