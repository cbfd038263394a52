-- ===== src/Planning/Matched.antt =====
-- The catalog entry and the match that a plan is made from.
use mathlib.Core.Path.{subst}
use mcp_multiplex.Prelude.{
  String, true, List, [], ◌∷◌, some, ◌≡◌, inl, inr, refl, sym, ap, ◌∙◌, arith, eq_iff, text_or, Any,
  Any-map, Any-elim,
}
use mcp_multiplex.Exec.{ok, bind_elim, ok-injective, Sha256}
use mcp_multiplex.Security.{Urls}
use mcp_multiplex.Schemas.Observed.{ObservedEntry}
use mcp_multiplex.Schemas.Catalog.{CatalogEntry}
use mcp_multiplex.Storage.{Database}
use mcp_multiplex.Catalog
use mcp_multiplex.Catalog.Kept.{IsShown, list-IsShown, show-observed, list-observed}
use mcp_multiplex.Catalog.Routable.{RoutabilityCheck, validate_routable_catalog_entry}
use mcp_multiplex.Catalog.Matching.{
  CatalogMatch, score_entry, match_reasons, match_of, match_observed_entry,
  match_observed_entry_from_store,
}
use mcp_multiplex.Catalog.Best.{match-IsBest}
use mcp_multiplex.Planning.Frame.{Observes}

module _ (h : Sha256) (u : Urls) (entries : List ObservedEntry) (db : Database) where
  -- `m` is the match of the observed entry with the catalog, and `e` is the entry it names.
  pub record IsMatched (o : ObservedEntry) (e : CatalogEntry) (m : CatalogMatch) : Type 0 where
    pub observed : Any (λ x. x ≡ o) entries
    pub best : match_observed_entry_from_store h u o db ≡ ok m
    pub shown : Catalog.show u (text_or m.catalog_id "") db ≡ ok e

  -- The catalog's entry `e` is routable, and `m`, which is its score for the observed entry, is the
  -- match that is chosen.
  pub record IsRoutableMatch (o : ObservedEntry) (e : CatalogEntry) (m : CatalogMatch)
      : Type 0 where
    pub observed : Any (λ x. x ≡ o) entries
    pub listed : (es : List CatalogEntry) × (Catalog.list u db ≡ ok es) × Any (λ x. x ≡ e) es
    pub best : match_observed_entry_from_store h u o db ≡ ok m
    pub scored : score_entry h u o e ≡ ok m
    pub routable :
        (r : RoutabilityCheck) × (validate_routable_catalog_entry u e ≡ ok r) × (r.routable ≡ true)

-- A routable match names the entry that it is the score of, and that entry is routable.
match_of-routable :
    (o : ObservedEntry) (e : CatalogEntry) (r : RoutabilityCheck) (reasons : List String)
    → (match_of o e r reasons).routable ≡ true
    → ((match_of o e r reasons).catalog_id ≡ some e.catalog_id) × (r.routable ≡ true)
unfolding match_of
match_of-routable o e r [] routable = cc
match_of-routable o e r (x ∷ reasons) routable = (refl, routable)

score-routable :
    (h : Sha256) (u : Urls) (o : ObservedEntry) (e : CatalogEntry) (m : CatalogMatch)
    → score_entry h u o e ≡ ok m
    → m.routable ≡ true
    → (m.catalog_id ≡ some e.catalog_id)
      × ((r : RoutabilityCheck) × (validate_routable_catalog_entry u e ≡ ok r)
          × (r.routable ≡ true))
unfolding score_entry
score-routable h u o e m scored routable =
    bind_elim (validate_routable_catalog_entry u e) _ m scored λ r checked scored.
      bind_elim (match_reasons h u o e) _ m scored λ reasons read scored.
        let same = ok-injective (match_of o e r reasons) m scored in
        let (named, is) =
          match_of-routable o e r reasons (ap (λ (x : CatalogMatch). x.routable) same ∙ routable) in
        (sym (ap (λ (x : CatalogMatch). x.catalog_id) same) ∙ named, (r, checked, is))

text_or_self : (s : String) → text_or (some s) "" ≡ s
text_or_self s = ground (arith, eq_iff s "")

module _ (h : Sha256) (u : Urls) (entries : List ObservedEntry) (db : Database) where
  same_entry :
      (o : ObservedEntry) (e x : CatalogEntry) (m : CatalogMatch)
      → Catalog.show u (text_or m.catalog_id "") db ≡ ok e
      → m.routable ≡ true
      → IsShown u db x
      → score_entry h u o x ≡ ok m
      → x ≡ e
  same_entry o e x m shown routable at scored =
      let (named, is) = score-routable h u o x m scored routable in
      ok-injective x e (sym at ∙ (rw (named, text_or_self x.catalog_id) at shown))

  pub matched-IsRoutableMatch :
      (o : ObservedEntry) (e : CatalogEntry) (m : CatalogMatch)
      → IsMatched h u entries db o e m
      → m.routable ≡ true
      → IsRoutableMatch h u entries db o e m
  unfolding match_observed_entry_from_store
  matched-IsRoutableMatch o e m i routable =
      bind_elim (Catalog.list u db) (match_observed_entry h u o) m i.best λ es listed chosen.
        elim (match-IsBest h u o es m chosen).chosen [
          | inr (nothing, unmatched) ↦
              cc (sym (ap (λ (x : CatalogMatch). x.routable) nothing) ∙ routable)
          | inl (named, from) ↦
              let here =
                Any-map (IsShown u db) (λ x. score_entry h u o x ≡ ok m) (λ x. x ≡ e) es
                  (λ x at scored. same_entry o e x m i.shown routable at scored)
                  (list-IsShown u db es listed) from in
              let scored =
                Any-elim (λ x. (x ≡ e) × (score_entry h u o x ≡ ok m)) es
                  (Any-map (IsShown u db) (λ x. score_entry h u o x ≡ ok m)
                    (λ x. (x ≡ e) × (score_entry h u o x ≡ ok m)) es
                    (λ x at scored. (same_entry o e x m i.shown routable at scored, scored))
                    (list-IsShown u db es listed) from)
                  (λ x both. subst (λ x. score_entry h u o x ≡ ok m) both.0 both.1) in
              record {
                observed = i.observed;
                listed = (es, listed, here);
                best = i.best;
                scored = scored;
                routable = (score-routable h u o e m scored routable).1;
              }
        ]

  -- What the planner sees after it stored the observed entries, some candidates and events
  pub observed-IsMatched :
      (o : ObservedEntry) (e : CatalogEntry) (m : CatalogMatch) (now : Database)
      → Observes db now
      → Any (λ x. x ≡ o) entries
      → match_observed_entry_from_store h u o now ≡ ok m
      → Catalog.show u (text_or m.catalog_id "") now ≡ ok e
      → IsMatched h u entries db o e m
  unfolding match_observed_entry_from_store
  observed-IsMatched o e m now seen observed best shown =
      let os = now.observed_entries in
      let cs = now.catalog_candidates in
      let es = now.events in
      record {
        observed = observed;
        best =
            rw (list-observed u os cs es db) at
              (subst (λ x. match_observed_entry_from_store h u o x ≡ ok m) seen.frame best);
        shown =
            sym (show-observed u os cs es (text_or m.catalog_id "") db)
            ∙ subst (λ x. Catalog.show u (text_or m.catalog_id "") x ≡ ok e) seen.frame shown;
      }
