-- ===== src/Prelude/Rows.antt =====
-- The statements of SQL over a table that is kept as the list of its rows, in insertion order.
use mathlib.Core.Path.{◌≡◌, refl, subst}
use mathlib.Core.Logic.{◌⊎◌, inl, inr}
use mathlib.Core.Bool.{Bool, true, false}
use mathlib.Core.Option
use mathlib.Core.Option.{Option, none, some, some-injective}
use mathlib.Core.List.{List, [], ◌∷◌, ◌++◌}
use native.Mathlib.Omega.{arith}
use mcp_multiplex.Prelude.Tests.{if◌then◌else◌, Bool-cases}

module _ {ℓ} {R : Type ℓ} where
  -- SELECT … WHERE p, and fetchone()
  abbrev pub find_row : (R → Bool) → List R → Option R
  find_row p [] = none
  find_row p (r ∷ rows) = if p r then some r else find_row p rows

  -- SELECT … WHERE p, and fetchall()
  abbrev pub select_rows : (R → Bool) → List R → List R
  select_rows p [] = []
  select_rows p (r ∷ rows) = let rest = select_rows p rows in if p r then r ∷ rest else rest

  -- Is there a row, as a key or a foreign key asks?
  abbrev pub has_row : (R → Bool) → List R → Bool
  has_row p [] = false
  has_row p (r ∷ rows) = if p r then true else has_row p rows

  -- UPDATE … SET f WHERE p
  abbrev pub update_rows : (R → Bool) → (R → R) → List R → List R
  update_rows p f [] = []
  update_rows p f (r ∷ rows) = (if p r then f r else r) ∷ update_rows p f rows

  -- DELETE … WHERE p
  abbrev pub delete_rows : (R → Bool) → List R → List R
  delete_rows p [] = []
  delete_rows p (r ∷ rows) = let rest = delete_rows p rows in if p r then rest else r ∷ rest

  -- ORDER BY, stable; `le a b` is the order of the sort keys.
  abbrev pub insert_by : (R → R → Bool) → R → List R → List R
  insert_by le x [] = x ∷ []
  insert_by le x (r ∷ rows) = if le x r then x ∷ r ∷ rows else r ∷ insert_by le x rows

  abbrev pub sort_by : (R → R → Bool) → List R → List R
  sort_by le [] = []
  sort_by le (r ∷ rows) = insert_by le r (sort_by le rows)

  -- LIMIT 1
  abbrev pub first : List R → Option R
  first [] = none
  first (r ∷ rows) = some r

  -- What a key lookup finds after an update that keeps the key.
  pub find_row-update :
      (p : R → Bool) (f : R → R) (rows : List R)
      → ((r : R) → p (f r) ≡ p r)
      → find_row p (update_rows p f rows) ≡ Option.map f (find_row p rows)
  find_row-update p f [] keep = refl
  find_row-update p f (r ∷ rows) keep = ground (arith, keep r, find_row-update p f rows keep)

  -- A lookup that sees neither the old nor the new version of an updated row.
  pub find_row-update_other :
      (q p : R → Bool) (f : R → R) (rows : List R)
      → ((r : R) → p r ≡ true → q r ≡ false)
      → ((r : R) → p r ≡ true → q (f r) ≡ false)
      → find_row q (update_rows p f rows) ≡ find_row q rows
  find_row-update_other q p f [] old new = refl
  find_row-update_other q p f (r ∷ rows) old new =
      ground (arith, old r, new r, find_row-update_other q p f rows old new)

  pub find_row-append :
      (p : R → Bool) (r : R) (rows : List R)
      → find_row p rows ≡ none
      → find_row p (rows ++ r ∷ []) ≡ (if p r then some r else none)
  find_row-append p r [] h = refl
  find_row-append p r (s ∷ rows) h = ground (arith, find_row-append p r rows)

  pub find_row-append_some :
      (p : R → Bool) (r t : R) (rows : List R)
      → find_row p rows ≡ some t
      → find_row p (rows ++ r ∷ []) ≡ some t
  find_row-append_some p r t [] h = ground arith
  find_row-append_some p r t (s ∷ rows) h = ground (arith, find_row-append_some p r t rows)

  pub find_row-append_other :
      (p : R → Bool) (r : R) (rows : List R)
      → p r ≡ false
      → find_row p (rows ++ r ∷ []) ≡ find_row p rows
  find_row-append_other p r [] h = ground arith
  find_row-append_other p r (s ∷ rows) h = ground (arith, find_row-append_other p r rows h)

  -- A row that is found satisfies the test.
  pub find_row-holds :
      (p : R → Bool) (r : R) (rows : List R) → find_row p rows ≡ some r → p r ≡ true
  find_row-holds p r [] h = ground arith
  find_row-holds p r (s ∷ rows) h = ground (arith, find_row-holds p r rows)

  pub has_row-find :
      (p : R → Bool) (rows : List R) → has_row p rows ≡ false → find_row p rows ≡ none
  has_row-find p [] h = refl
  has_row-find p (s ∷ rows) h = ground (arith, has_row-find p rows)

  -- Where no row satisfies a test, none is found by a stricter one.
  pub find_row-stricter :
      (q p : R → Bool) (rows : List R)
      → ((r : R) → p r ≡ false → q r ≡ false)
      → has_row p rows ≡ false
      → find_row q rows ≡ none
  find_row-stricter q p [] strict h = refl
  find_row-stricter q p (r ∷ rows) strict h =
      ground (arith, strict r, find_row-stricter q p rows strict)

  pub has_row-append_true :
      (p : R → Bool) (r : R) (rows : List R)
      → has_row p rows ≡ true
      → has_row p (rows ++ r ∷ []) ≡ true
  has_row-append_true p r [] h = cc
  has_row-append_true p r (s ∷ rows) h = ground (arith, has_row-append_true p r rows)

  -- What a lookup finds after an update that keeps its key.
  pub find_row-update_found :
      (p q : R → Bool) (f : R → R) (r : R) (rows : List R)
      → ((x : R) → p (f x) ≡ p x)
      → find_row p rows ≡ some r
      → find_row p (update_rows q f rows) ≡ some (if q r then f r else r)
  find_row-update_found p q f r [] keep h = cc
  find_row-update_found p q f r (s ∷ rows) keep h = elim (Bool-cases (p s)) [
    | inl holds ↦
        let same = some-injective s r (rw holds at h) in
        subst (λ x. find_row p (update_rows q f (s ∷ rows)) ≡ some (if q x then f x else x)) same
          (ground (arith, keep s))
    | inr fails ↦ ground (arith, keep s, find_row-update_found p q f r rows keep)
  ]

  -- A row that is found is none of those that are not there.
  pub has_row-misses :
      (q p : R → Bool) (r : R) (rows : List R)
      → has_row q rows ≡ false
      → find_row p rows ≡ some r
      → q r ≡ false
  has_row-misses q p r [] h f = cc
  has_row-misses q p r (s ∷ rows) h f = ground (arith, has_row-misses q p r rows)

  -- A row that is there is found in its new version.
  pub find_row-update_self :
      (p : R → Bool) (f : R → R) (rows : List R)
      → ((r : R) → p (f r) ≡ true)
      → has_row p rows ≡ true
      → (r : R) × (find_row p (update_rows p f rows) ≡ some (f r))
  find_row-update_self p f [] new h = cc
  find_row-update_self p f (r ∷ rows) new h = elim (Bool-cases (p r)) [
    | inl holds ↦ (r, ground (arith, new r))
    | inr fails ↦
        let (s, found) = find_row-update_self p f rows new (rw fails at h) in
        (s, ground (arith, found))
  ]

  pub has_row-update :
      (q p : R → Bool) (f : R → R) (rows : List R)
      → ((r : R) → q (f r) ≡ q r)
      → has_row q (update_rows p f rows) ≡ has_row q rows
  has_row-update q p f [] keep = refl
  has_row-update q p f (r ∷ rows) keep = ground (arith, keep r, has_row-update q p f rows keep)

  pub has_row-append :
      (p : R → Bool) (r : R) (rows : List R)
      → has_row p rows ≡ false
      → p r ≡ false
      → has_row p (rows ++ r ∷ []) ≡ false
  has_row-append p r [] h e = ground arith
  has_row-append p r (s ∷ rows) h e = ground (arith, has_row-append p r rows)

  pub has_row_of_find :
      (p : R → Bool) (r : R) (rows : List R) → find_row p rows ≡ some r → has_row p rows ≡ true
  has_row_of_find p r [] h = cc
  has_row_of_find p r (s ∷ rows) h = ground (arith, has_row_of_find p r rows)

  pub find_row-delete : (p : R → Bool) (rows : List R) → find_row p (delete_rows p rows) ≡ none
  find_row-delete p [] = refl
  find_row-delete p (r ∷ rows) = ground (arith, find_row-delete p rows)

  pub find_row-delete_other :
      (q p : R → Bool) (rows : List R)
      → ((r : R) → p r ≡ true → q r ≡ false)
      → find_row q (delete_rows p rows) ≡ find_row q rows
  find_row-delete_other q p [] apart = refl
  find_row-delete_other q p (r ∷ rows) apart =
      ground (arith, apart r, find_row-delete_other q p rows apart)

module _ {ℓ κ} {R : Type ℓ} (P : R → Type κ) where
  -- Every row has the property.
  abbrev pub All : List R → Type κ
  All [] = Unit
  All (r ∷ rows) = P r × All rows

  pub All-append : (rows : List R) (r : R) → All rows → P r → All (rows ++ r ∷ [])
  All-append [] r a h = (h, tt)
  All-append (s ∷ rows) r a h = (a.0, All-append rows r a.1 h)

  pub All-update :
      (p : R → Bool) (f : R → R) (rows : List R)
      → ((r : R) → p r ≡ true → P r → P (f r))
      → All rows
      → All (update_rows p f rows)
  All-update p f [] keep a = tt
  All-update p f (r ∷ rows) keep a = elim (Bool-cases (p r)) [
    | inl holds ↦ rw holds (keep r holds a.0, All-update p f rows keep a.1)
    | inr fails ↦ rw fails (a.0, All-update p f rows keep a.1)
  ]

  pub All-find : (p : R → Bool) (r : R) (rows : List R) → All rows → find_row p rows ≡ some r → P r
  All-find p r [] a h = cc
  All-find p r (s ∷ rows) a h = elim (Bool-cases (p s)) [
    | inl holds ↦ subst P (some-injective s r (rw holds at h)) a.0
    | inr fails ↦ All-find p r rows a.1 (rw fails at h)
  ]

pub All-map {ℓ κ μ} :
    {R : Type ℓ} (P : R → Type κ) (Q : R → Type μ) (rows : List R)
    → ((r : R) → P r → Q r)
    → All P rows
    → All Q rows
All-map P Q [] f a = tt
All-map P Q (r ∷ rows) f a = (f r a.0, All-map P Q rows f a.1)

module _ {ℓ} {R : Type ℓ} (P : R → Type 0) where
  -- Some row has the property.
  abbrev pub Any : List R → Type 0
  Any [] = ⊥
  Any (r ∷ rows) = P r ⊎ Any rows

-- A row that has one property, where all rows have another.
pub Any-map {ℓ κ} :
    {R : Type ℓ} (P : R → Type κ) (Q S : R → Type 0) (rows : List R)
    → ((r : R) → P r → Q r → S r)
    → All P rows
    → Any Q rows
    → Any S rows
Any-map P Q S [] f a q = absurd q
Any-map P Q S (r ∷ rows) f a (inl q) = inl (f r a.0 q)
Any-map P Q S (r ∷ rows) f a (inr q) = inr (Any-map P Q S rows f a.1 q)

pub Any-elim {ℓ κ} :
    {R : Type ℓ} {T : Type κ} (Q : R → Type 0) (rows : List R)
    → Any Q rows
    → ((r : R) → Q r → T)
    → T
Any-elim Q [] q k = absurd q
Any-elim Q (r ∷ rows) (inl q) k = k r q
Any-elim Q (r ∷ rows) (inr q) k = Any-elim Q rows q k
