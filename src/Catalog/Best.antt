-- ===== src/Catalog/Best.antt =====
-- The match that is chosen is the greatest of those that there are.
use mcp_multiplex.Prelude.{
  ℕ, String, Bool, true, false, ◌&&◌, ◌||◌, List, [], ◌∷◌, ◌≡◌, ◌⊎◌, inl, inr, refl, sym, arith,
  if◌then◌else◌, ltb, text_or, text_leb_trans, text_leb_refl, text_leb_total, Bool-cases, All, Any,
  All-map, ◌∙◌,
}
use mathlib.Core.Path.{subst}
use mcp_multiplex.Exec.{ok, bind_elim, ok-injective, Sha256}
use mcp_multiplex.Security.{Urls}
use mcp_multiplex.Schemas.Observed.{ObservedEntry}
use mcp_multiplex.Schemas.Catalog.{CatalogEntry}
use mcp_multiplex.Catalog.Matching.{
  CatalogMatch, matched, score_entry, score_all, confidence_rank, key_leb, best, best_or, no_match,
  match_observed_entry,
}

-- The parts of the sort key.
abbrev name : CatalogMatch → String
name m = text_or m.catalog_id ""

key_leb_refl : (a : CatalogMatch) → key_leb a a ≡ true
unfolding key_leb
key_leb_refl a = ground (arith, text_leb_refl (name a))

key_leb_total : (a b : CatalogMatch) → key_leb a b ≡ false → key_leb b a ≡ true
unfolding key_leb
key_leb_total a b h = ground (arith, text_leb_total (name a) (name b))

-- The comparison of two keys: by rank, by the flag, and by name.
abbrev key_test : (r s : ℕ) → (a b before : Bool) → Bool
key_test r s a b before =
    if ltb r s then true else if ltb s r then false else if a then b && before else b || before

ranks_trans :
    (r s t : ℕ) (a b c x y z : Bool)
    → (x ≡ true → y ≡ true → z ≡ true)
    → key_test r s a b x ≡ true
    → key_test s t b c y ≡ true
    → key_test r t a c z ≡ true
ranks_trans r s t true true true x y z f h k = ground (arith, f)
ranks_trans r s t true true false x y z f h k = ground (arith, f)
ranks_trans r s t true false c x y z f h k = ground (arith, f)
ranks_trans r s t false true true x y z f h k = ground (arith, f)
ranks_trans r s t false true false x y z f h k = ground (arith, f)
ranks_trans r s t false false true x y z f h k = ground (arith, f)
ranks_trans r s t false false false x y z f h k = ground (arith, f)

key_leb_trans :
    (a b c : CatalogMatch) → key_leb a b ≡ true → key_leb b c ≡ true → key_leb a c ≡ true
unfolding key_leb
key_leb_trans a b c h k =
    ranks_trans (confidence_rank a.confidence) (confidence_rank b.confidence)
      (confidence_rank c.confidence) a.auto_apply_allowed b.auto_apply_allowed c.auto_apply_allowed
      _ _ _ (text_leb_trans (name a) (name b) (name c)) h k

-- The better of two matches, which the next round of `best` starts from.
better : CatalogMatch → CatalogMatch → CatalogMatch
better m n = if key_leb n m then m else n

better_bounds :
    (m n : CatalogMatch) → (key_leb m (better m n) ≡ true) × (key_leb n (better m n) ≡ true)
unfolding better
better_bounds m n = elim (Bool-cases (key_leb n m)) [
  | inl below ↦ rw below (key_leb_refl m, below)
  | inr above ↦ rw above (key_leb_total n m above, key_leb_refl n)
]

best-greatest :
    (m : CatalogMatch) (ms : List CatalogMatch)
    → (key_leb m (best m ms) ≡ true) × All (λ x. key_leb x (best m ms) ≡ true) ms
unfolding best better
best-greatest m [] = (key_leb_refl m, tt)
best-greatest m (n ∷ ms) =
    let (left, right) = better_bounds m n in
    let (here, there) = best-greatest (better m n) ms in
    (key_leb_trans _ _ _ left here, (key_leb_trans _ _ _ right here, there))

module _ (P : CatalogMatch → Type 0) where
  best-All : (m : CatalogMatch) (ms : List CatalogMatch) → P m → All P ms → P (best m ms)
  unfolding best
  best-All m [] p ps = p
  best-All m (n ∷ ms) p ps = elim (Bool-cases (key_leb n m)) [
    | inl below ↦ rw below (best-All m ms p ps.1)
    | inr above ↦ rw above (best-All n ms ps.0 ps.1)
  ]

module _ (h : Sha256) (u : Urls) (o : ObservedEntry) where
  -- The entry has this score.
  abbrev Scores : CatalogMatch → CatalogEntry → Type 0
  Scores m e = score_entry h u o e ≡ ok m

  -- Where an entry's score is a match, the match has the property.
  abbrev IfMatched : (CatalogMatch → Type 0) → CatalogEntry → Type 0
  IfMatched P e = (s : CatalogMatch) → Scores s e → matched s ≡ true → P s

  -- The match comes from one of the entries.
  abbrev IsFrom : List CatalogEntry → CatalogMatch → Type 0
  IsFrom entries m = (matched m ≡ true) × Any (Scores m) entries

  -- `m` is the best match of the entries: it is the match of one of them that no other match
  -- exceeds, or there is none.
  pub record IsBest (entries : List CatalogEntry) (m : CatalogMatch) : Type 0 where
    pub greatest : All (IfMatched (λ s. key_leb s m ≡ true)) entries
    pub chosen : IsFrom entries m ⊎ ((m ≡ no_match o) × All (IfMatched (λ s. ⊥)) entries)

  -- One step of the loop: the score of the entry is kept, where it is a match.
  score_all-cons :
      (e : CatalogEntry) (entries : List CatalogEntry) (ms : List CatalogMatch)
      → score_all h u o (e ∷ entries) ≡ ok ms
      → (s : CatalogMatch) × (rest : List CatalogMatch) × Scores s e
        × (score_all h u o entries ≡ ok rest)
        × ((if matched s then s ∷ rest else rest) ≡ ms)
  unfolding score_all
  score_all-cons e entries ms eq = bind_elim (score_entry h u o e) _ ms eq λ s scored eq'.
      bind_elim (score_all h u o entries) _ ms eq'
        λ rest scored' eq''. (s, rest, scored, scored', ok-injective _ ms eq'')

  scored-IfMatched :
      (P : CatalogMatch → Type 0) (entries : List CatalogEntry) (ms : List CatalogMatch)
      → score_all h u o entries ≡ ok ms
      → All P ms
      → All (IfMatched P) entries
  scored-IfMatched P [] ms eq ps = tt
  scored-IfMatched P (e ∷ entries) ms eq ps =
      let (s, rest, scored, scored', kept) = score_all-cons e entries ms eq in
      elim (Bool-cases (matched s)) [
        | inl holds ↦
            let ps' = subst (All P) (sym (rw holds at kept)) ps in
            (
              λ t scored'' _. subst P (ok-injective s t (sym scored ∙ scored'')) ps'.0,
              scored-IfMatched P entries rest scored' ps'.1,
            )
        | inr fails ↦
            let ps' = subst (All P) (sym (rw fails at kept)) ps in
            (
              λ t scored'' holds.
                  let same = ok-injective s t (sym scored ∙ scored'') in
                  cc (subst (λ x. matched x ≡ false) same fails, holds),
              scored-IfMatched P entries rest scored' ps',
            )
      ]

  scored-IsFrom :
      (entries : List CatalogEntry) (ms : List CatalogMatch)
      → score_all h u o entries ≡ ok ms
      → All (IsFrom entries) ms
  unfolding score_all
  scored-IsFrom [] ms eq = subst (All (IsFrom [])) (ok-injective [] ms eq) tt
  scored-IsFrom (e ∷ entries) ms eq =
      let (s, rest, scored, scored', kept) = score_all-cons e entries ms eq in
      let later =
        All-map (IsFrom entries) (IsFrom (e ∷ entries)) rest (λ x from. (from.0, inr from.1))
          (scored-IsFrom entries rest scored') in
      subst (All (IsFrom (e ∷ entries))) kept (elim (Bool-cases (matched s)) [
        | inl holds ↦ rw holds ((holds, inl scored), later)
        | inr fails ↦ rw fails later
      ])

  chosen-IsBest :
      (entries : List CatalogEntry) (ms : List CatalogMatch)
      → score_all h u o entries ≡ ok ms
      → IsBest entries (best_or (no_match o) ms)
  chosen-IsBest entries [] eq =
      let nothing = scored-IfMatched (λ s. ⊥) entries [] eq tt in
      record {
        greatest =
            All-map (IfMatched (λ s. ⊥)) (IfMatched (λ s. key_leb s (no_match o) ≡ true)) entries
              (λ e never s scored holds. absurd (never s scored holds)) nothing;
        chosen = inr (refl, nothing);
      }
  chosen-IsBest entries (m ∷ ms) eq =
      let from = scored-IsFrom entries (m ∷ ms) eq in
      let (here, there) = best-greatest m ms in
      record {
        greatest =
            scored-IfMatched (λ s. key_leb s (best m ms) ≡ true) entries (m ∷ ms) eq (here, there);
        chosen = inl (best-All (IsFrom entries) m ms from.0 from.1);
      }

  -- The match of an observed entry with the catalog is the best one: it is the match of one of the
  -- entries, and no entry's match comes after it in the order by confidence, by whether it may be
  -- applied automatically, and by id; where no entry matches, it names none.
  pub match-IsBest :
      (entries : List CatalogEntry) (m : CatalogMatch)
      → match_observed_entry h u o entries ≡ ok m
      → IsBest entries m
  unfolding match_observed_entry
  match-IsBest entries m eq = bind_elim (score_all h u o entries) _ m eq λ ms scored chosen.
      subst (IsBest entries) (ok-injective _ m chosen) (chosen-IsBest entries ms scored)
