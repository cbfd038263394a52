-- ===== src/Catalog/Kept.antt =====
-- `CatalogStore.show` and `CatalogStore.list`: the entries that they read.
use mathlib.Core.Path.{subst}
use mcp_multiplex.Prelude.{
  String, List, [], ◌∷◌, ◌≡◌, refl, sym, ◌∙◌, All, eq_iff, find_row-holds, find_row, sort_by,
}
use mcp_multiplex.Json.{Fields}
use mcp_multiplex.Exec.{ok, bind_elim, ok-injective, key_error, require, require-eq-ok}
use mcp_multiplex.Security.{Urls}
use mcp_multiplex.Schemas.{>>=-elim, >>-elim, invalid_if-elim, require_id}
use mcp_multiplex.Schemas.Values.{id-eq}
use mcp_multiplex.Schemas.Catalog.{CatalogEntry, from_dict, to_dict}
use mcp_multiplex.Storage.{Database, CatalogRow, CandidateRow, EventRow, ObservedRow}
use mcp_multiplex.Catalog.{
  of_entry, show, show_all, list, identity_order, aliases_of, provenance_of,
}

from_dict-id :
    (u : Urls) (payload : Fields) (e : CatalogEntry)
    → from_dict u payload ≡ ok e
    → require_id payload "catalog_id" "srv_" ≡ ok e.catalog_id
unfolding from_dict
from_dict-id u payload e h = >>=-elim (>>-elim _ h) λ version r1 h. >>=-elim h λ transport r2 h.
    >>=-elim h λ runtime r3 h. invalid_if-elim _ _ h λ reviewed h. >>=-elim h λ id read h.
      >>=-elim h λ name r4 h. >>=-elim h λ canonical r5 h. >>=-elim h λ family r6 h.
        >>=-elim h λ variant r7 h. >>=-elim h λ label r8 h. >>=-elim h λ aliases r9 h.
          >>=-elim h λ review r10 h. >>=-elim h λ lifecycle r11 h. >>=-elim h λ risk r12 h.
            >>=-elim h λ provenance r13 h. >>=-elim h λ credentials r14 h.
              >>=-elim h λ active r15 h.
                subst
                  (λ (e : CatalogEntry). require_id payload "catalog_id" "srv_" ≡ ok e.catalog_id)
                  (ok-injective _ e h) read

to_dict-id :
    (e : CatalogEntry) (s : String)
    → require_id (to_dict e) "catalog_id" "srv_" ≡ ok s
    → e.catalog_id ≡ s
unfolding to_dict
to_dict-id e s h = id-eq _ _ _ _ h

-- The entry that is shown has the id that was asked for.
show-id :
    (u : Urls) (id : String) (db : Database) (e : CatalogEntry)
    → show u id db ≡ ok e
    → e.catalog_id ≡ id
unfolding show
show-id u id db e shown =
    bind_elim (require (find_row (of_entry id) db.catalog_entries) (key_error id)) _ e shown
      λ row found read.
        sym (to_dict-id _ e.catalog_id (from_dict-id u _ e read))
        ∙ (eq_iff row.entry.catalog_id id).0 (
            find_row-holds (of_entry id) row db.catalog_entries
              (require-eq-ok (find_row (of_entry id) db.catalog_entries) _ row found))

-- The entry is what its own id shows.
abbrev pub IsShown : Urls → Database → CatalogEntry → Type 0
IsShown u db e = show u e.catalog_id db ≡ ok e

show-IsShown :
    (u : Urls) (id : String) (db : Database) (e : CatalogEntry)
    → show u id db ≡ ok e
    → IsShown u db e
show-IsShown u id db e shown = subst (λ i. show u i db ≡ ok e) (sym (show-id u id db e shown)) shown

show_all-IsShown :
    (u : Urls) (rows : List CatalogRow) (db : Database) (es : List CatalogEntry)
    → show_all u rows db ≡ ok es
    → All (IsShown u db) es
unfolding show_all
show_all-IsShown u [] db es shown = subst (All (IsShown u db)) (ok-injective [] es shown) tt
show_all-IsShown u (r ∷ rows) db es shown =
    bind_elim (show u r.entry.catalog_id db) _ es shown λ e first shown.
      bind_elim (show_all u rows db) _ es shown λ rest others shown.
        subst (All (IsShown u db)) (ok-injective (e ∷ rest) es shown)
          (show-IsShown u r.entry.catalog_id db e first, show_all-IsShown u rows db rest others)

pub list-IsShown :
    (u : Urls) (db : Database) (es : List CatalogEntry) → list u db ≡ ok es → All (IsShown u db) es
unfolding list
list-IsShown u db es listed =
    show_all-IsShown u (sort_by identity_order db.catalog_entries) db es listed

-- The database with other observed entries, candidates and events.
abbrev pub observed_in : List ObservedRow → List CandidateRow → List EventRow → Database → Database
observed_in os cs es db = record db { observed_entries = os; catalog_candidates = cs; events = es }

module _ (u : Urls) (os : List ObservedRow) (cs : List CandidateRow) (es : List EventRow) where
  pub show-observed :
      (id : String) (db : Database) → show u id (observed_in os cs es db) ≡ show u id db
  unfolding show aliases_of provenance_of
  show-observed id db = refl

  show_all-observed :
      (rows : List CatalogRow) (db : Database)
      → show_all u rows (observed_in os cs es db) ≡ show_all u rows db
  unfolding show_all
  show_all-observed [] db = refl
  show_all-observed (r ∷ rows) db =
      rw (show-observed r.entry.catalog_id db, show_all-observed rows db) refl

  pub list-observed : (db : Database) → list u (observed_in os cs es db) ≡ list u db
  unfolding list
  list-observed db = show_all-observed (sort_by identity_order db.catalog_entries) db
