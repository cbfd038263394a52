-- ===== src/Prelude/Sort.antt =====
-- What sorting the rows of a table keeps.
use Prim.Native.Nat.{suc}
use mathlib.Core.Path.{◌≡◌, refl, ap, ◌∙◌}
use mathlib.Core.Bool.{Bool, true}
use mathlib.Core.List.{List, [], ◌∷◌}
use native.Mathlib.Omega.{arith}
use mathlib.Core.Logic.{inl, inr}
use mcp_multiplex.Prelude.Tests.{if◌then◌else◌, length, Bool-cases}
use mcp_multiplex.Prelude.Rows.{has_row, insert_by, sort_by, All}

module _ {ℓ} {R : Type ℓ} (le : R → R → Bool) where
  length-insert_by : (x : R) (rows : List R) → length (insert_by le x rows) ≡ suc (length rows)
  length-insert_by x [] = refl
  length-insert_by x (r ∷ rows) = ground (arith, length-insert_by x rows)

  pub length-sort_by : (rows : List R) → length (sort_by le rows) ≡ length rows
  length-sort_by [] = refl
  length-sort_by (r ∷ rows) = length-insert_by r (sort_by le rows) ∙ ap suc (length-sort_by rows)

  has_row-insert_by :
      (p : R → Bool) (x : R) (rows : List R)
      → has_row p (insert_by le x rows) ≡ (if p x then true else has_row p rows)
  has_row-insert_by p x [] = refl
  has_row-insert_by p x (r ∷ rows) = ground (arith, has_row-insert_by p x rows)

  pub has_row-sort_by :
      (p : R → Bool) (rows : List R) → has_row p (sort_by le rows) ≡ has_row p rows
  has_row-sort_by p [] = refl
  has_row-sort_by p (r ∷ rows) =
      ground (arith, has_row-insert_by p r (sort_by le rows), has_row-sort_by p rows)

module _ {ℓ κ} {R : Type ℓ} (P : R → Type κ) (le : R → R → Bool) where
  All-insert_by : (x : R) (rows : List R) → P x → All P rows → All P (insert_by le x rows)
  All-insert_by x [] p a = (p, tt)
  All-insert_by x (r ∷ rows) p a = elim (Bool-cases (le x r)) [
    | inl first ↦ rw first (p, a)
    | inr later ↦ rw later (a.0, All-insert_by x rows p a.1)
  ]

  pub All-sort_by : (rows : List R) → All P rows → All P (sort_by le rows)
  All-sort_by [] a = tt
  All-sort_by (r ∷ rows) a = All-insert_by r (sort_by le rows) a.0 (All-sort_by rows a.1)
