-- ===== src/Runtime/Registry/Ownership.antt =====
-- Each handle that was registered is either still registered or was closed once.
use mcp_multiplex.Prelude.{
  ℕ, ◌+◌, String, Bool, false, List, [], ◌∷◌, ◌++◌, map, none, ◌≡◌, refl, arith, if◌then◌else◌,
  ◌==◌, Bool-cases, inl, inr, has_row, eq_iff, has_row-append,
}
use mcp_multiplex.Runtime.Registry.{
  Registry, get, without, close_popped, register, close, close_all,
}

-- The calls that change a registry.
pub data Call (H : Type 0) : Type 0 where
  registers : String → H → Call H
  closes : String → Call H
  closes_all : Call H

module _ {H : Type 0} where
  abbrev pub run : Call H → Registry H → Registry H
  run (registers id x) r = register id x r
  run (closes id) r = close id r
  run closes_all r = close_all r

  abbrev pub run_all : List (Call H) → Registry H → Registry H
  run_all [] r = r
  run_all (call ∷ calls) r = run_all calls (run call r)

  -- The handles that calls register.
  abbrev pub registered : List (Call H) → List H
  registered [] = []
  registered (registers id x ∷ calls) = x ∷ registered calls
  registered (closes id ∷ calls) = registered calls
  registered (closes_all ∷ calls) = registered calls

  -- How many of a list satisfy a test.
  abbrev pub count : (H → Bool) → List H → ℕ
  count p [] = 0
  count p (x ∷ xs) = (if p x then 1 else 0) + count p xs

  -- No two handles have one key.
  abbrev pub AreDistinct : List (String × H) → Type 0
  AreDistinct [] = Unit {0}
  AreDistinct ((k, x) ∷ rest) =
      (has_row (λ (e : String × H). e.0 == k) rest ≡ false) × AreDistinct rest

  abbrev pub handles_of : Registry H → List H
  handles_of r = map (λ e. e.1) r.handles

  count-append : (p : H → Bool) (xs ys : List H) → count p (xs ++ ys) ≡ count p xs + count p ys
  count-append p [] ys = ground arith
  count-append p (x ∷ xs) ys = ground (arith, count-append p xs ys)

  map-append :
      (xs ys : List (String × H))
      → map (λ e. e.1) (xs ++ ys) ≡ map (λ e. e.1) xs ++ map (λ e. e.1) ys
  map-append [] ys = refl
  map-append (x ∷ xs) ys = ground (arith, map-append xs ys)

  -- A key that is not there is not popped.
  absent :
      (id : String) (es : List (String × H))
      → has_row (λ (e : String × H). e.0 == id) es ≡ false
      → (without id es ≡ es) × (get id es ≡ none)
  absent id [] h = (refl, refl)
  absent id ((k, x) ∷ es) h = elim (Bool-cases (k == id)) [
    | inl same ↦ ground arith
    | inr other ↦ let (a, b) = absent id es (ground arith) in (ground arith, ground arith)
  ]

  without-gone :
      (id : String) (es : List (String × H))
      → has_row (λ (e : String × H). e.0 == id) (without id es) ≡ false
  without-gone id [] = refl
  without-gone id ((k, x) ∷ es) = ground (arith, without-gone id es)

  without-absent :
      (id j : String) (es : List (String × H))
      → has_row (λ (e : String × H). e.0 == j) es ≡ false
      → has_row (λ (e : String × H). e.0 == j) (without id es) ≡ false
  without-absent id j [] h = refl
  without-absent id j ((k, x) ∷ es) h = ground (arith, without-absent id j es)

  without-AreDistinct :
      (id : String) (es : List (String × H)) → AreDistinct es → AreDistinct (without id es)
  without-AreDistinct id [] d = tt
  without-AreDistinct id ((k, x) ∷ es) d = elim (Bool-cases (k == id)) [
    | inl same ↦ rw same (without-AreDistinct id es d.1)
    | inr other ↦ rw other (without-absent id k es d.0, without-AreDistinct id es d.1)
  ]

  append-AreDistinct :
      (id : String) (x : H) (es : List (String × H))
      → AreDistinct es
      → has_row (λ (e : String × H). e.0 == id) es ≡ false
      → AreDistinct (es ++ (id, x) ∷ [])
  append-AreDistinct id x [] d h = (refl, tt)
  append-AreDistinct id x ((k, y) ∷ es) d h = (
    has_row-append (λ (e : String × H). e.0 == k) (id, x) es d.0
        (ground (arith, eq_iff k id, eq_iff id k)),
    append-AreDistinct id x es d.1 (ground arith),
  )

  -- Popping takes one handle from the registry to the closed ones.
  pop-count :
      (p : H → Bool) (id : String) (es : List (String × H)) (closed : List H)
      → AreDistinct es
      → count p (map (λ e. e.1) (without id es)) + count p (close_popped (get id es) closed)
        ≡ count p (map (λ e. e.1) es) + count p closed
  pop-count p id [] closed d = refl
  pop-count p id ((k, x) ∷ es) closed d = elim (Bool-cases (k == id)) [
    | inl same ↦
        let (gone, none_left) = absent id es (ground (arith, d.0, eq_iff k id)) in
        ground (arith, count-append p closed (x ∷ []))
    | inr other ↦ ground (arith, pop-count p id es closed d.1)
  ]

  run-AreDistinct :
      (call : Call H) (r : Registry H) → AreDistinct r.handles → AreDistinct (run call r).handles
  unfolding register close close_all
  run-AreDistinct (registers id x) r d =
      append-AreDistinct id x (without id r.handles) (without-AreDistinct id r.handles d)
        (without-gone id r.handles)
  run-AreDistinct (closes id) r d = without-AreDistinct id r.handles d
  run-AreDistinct closes_all r d = tt

  -- A call adds to the handles what it registers, and moves the others.
  run-count :
      (p : H → Bool) (call : Call H) (r : Registry H)
      → AreDistinct r.handles
      → count p (handles_of (run call r)) + count p (run call r).closed
        ≡ count p (registered (call ∷ [])) + (count p (handles_of r) + count p r.closed)
  unfolding register close close_all
  run-count p (registers id x) r d = ground (
    arith,
    pop-count p id r.handles r.closed d,
    map-append (without id r.handles) ((id, x) ∷ []),
    count-append p (map (λ e. e.1) (without id r.handles)) (x ∷ []),
  )
  run-count p (closes id) r d = ground (arith, pop-count p id r.handles r.closed d)
  run-count p closes_all r d = ground (arith, count-append p r.closed (handles_of r))

  count-registered :
      (p : H → Bool) (call : Call H) (calls : List (Call H))
      → count p (registered (call ∷ calls))
        ≡ count p (registered (call ∷ [])) + count p (registered calls)
  count-registered p (registers id x) calls = ground arith
  count-registered p (closes id) calls = ground arith
  count-registered p closes_all calls = ground arith

  run_all-count :
      (p : H → Bool) (calls : List (Call H)) (r : Registry H)
      → AreDistinct r.handles
      → count p (handles_of (run_all calls r)) + count p (run_all calls r).closed
        ≡ count p (registered calls) + (count p (handles_of r) + count p r.closed)
  run_all-count p [] r d = ground arith
  run_all-count p (call ∷ calls) r d =
      let rest = run_all-count p calls (run call r) (run-AreDistinct call r d) in
      let this = run-count p call r d in let both = count-registered p call calls in omega arith

  -- Whatever calls are made on a new registry, each handle that was registered is held by the
  -- registry or was closed, and it was closed at most once: of the handles that satisfy any test,
  -- as many are held or were closed as were registered.
  pub no_handle_lost :
      (p : H → Bool) (calls : List (Call H))
      → let r = run_all calls (record { handles = []; closed = [] }) in
        count p (handles_of r) + count p r.closed ≡ count p (registered calls)
  no_handle_lost p calls =
      ground (arith, run_all-count p calls (record { handles = []; closed = [] }) tt)
