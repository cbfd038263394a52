-- ===== src/Catalog.antt =====
-- catalog/__init__.py: the catalog's tables, and what an entry must be to be routed.
pub mod Routable
pub mod Matching
pub mod Candidates
pub mod Kept
pub mod Best
pub mod Stored
pub mod Staged
mod Tests
use mcp_multiplex.Prelude.{
  ℕ, zero, suc, ◌+◌, String, Bool, true, false, not, ◌&&◌, ◌||◌, List, [], ◌∷◌, ◌++◌, Option, none,
  some, if◌then◌else◌, ◌==◌, ◌<>◌, truthy, truthy?, text_or, opt_eq, is_some, elem, has_row,
  find_row, select_rows, update_rows, delete_rows, sort_by, text_leb, take_text, starts_with,
}
use mcp_multiplex.Json.{
  Json, Items, Fields, null, boolean, number, text, array, object, nil, cons, field, end,
}
use mcp_multiplex.Json.Dict
use mcp_multiplex.Json.Number.{decimal}
use mcp_multiplex.Json.Canonical.{canonical_items, canonical}
use mcp_multiplex.Exec.{
  Error, Result, ok, err, and_then, check, require, refuse_if, validation_error, catalog_error,
  key_error, integrity_error, python_error, Action, pure, lift, reads, modify, transaction, Sha256,
  Clock, ◌>>=◌, ◌>>◌,
}
use mcp_multiplex.Security.{Urls}
use mcp_multiplex.Schemas.{nullable}
use mcp_multiplex.Schemas.Catalog.{CatalogEntry, from_dict, to_dict}
use mcp_multiplex.Storage.{Database, CatalogRow, AliasRow, ProvenanceRow}

-- UNIQUE (canonical_name, variant_name): NULL differs from NULL.
abbrev same_variant : CatalogEntry → CatalogEntry → Bool
same_variant a b =
    a.canonical_name == b.canonical_name
    && (is_some a.variant_name && opt_eq a.variant_name b.variant_name)

-- A row of another entry that has the names of this one.
abbrev takes_names : CatalogEntry → CatalogRow → Bool
takes_names e r = not (r.entry.catalog_id == e.catalog_id) && same_variant r.entry e

abbrev of_entry : String → CatalogRow → Bool
of_entry id r = r.entry.catalog_id == id

-- `_catalog_entry_row`, with the columns that the table has
unfoldable pub entry_row : Clock → CatalogEntry → CatalogRow
entry_row c e = record {
  entry = record e { aliases = []; provenance = nil; credentials = canonical_items e.credentials };
  updated_at = c.sql_now;
}

-- INSERT … ON CONFLICT(catalog_id) DO UPDATE
unfoldable pub put_entry : Clock → CatalogEntry → Database → Result (Unit {0} × Database)
put_entry c e db =
    if has_row (takes_names e) db.catalog_entries
    then err integrity_error
    else ok (
      tt,
      record db {
        catalog_entries =
            if has_row (of_entry e.catalog_id) db.catalog_entries
            then update_rows (of_entry e.catalog_id) (λ _. entry_row c e) db.catalog_entries
            else db.catalog_entries ++ entry_row c e ∷ [];
      },
    )

unfoldable pub alias_id : Sha256 → String → String → String
alias_id h catalog_id alias =
    catalog_id <> ":alias:" <> take_text 16 (h.of_text (catalog_id <> "\0" <> alias))

-- `set(aliases)`, each of them once
distinct : List String → List String
distinct [] = []
distinct (a ∷ aliases) = let rest = distinct aliases in if elem a aliases then rest else a ∷ rest

-- INSERT INTO catalog_aliases, one row after the other: the primary key, and UNIQUE (alias)
insert_aliases : Sha256 → String → List String → List AliasRow → Result (List AliasRow)
insert_aliases h id [] rows = ok rows
insert_aliases h id (a ∷ aliases) rows =
    let key = alias_id h id a in
    if has_row (λ (r : AliasRow). r.alias == a || r.alias_id == key) rows
    then err integrity_error
    else insert_aliases h id aliases
        (rows ++ record { alias_id = key; catalog_id = id; alias = a } ∷ [])

-- What stands in a nullable column, or the refusal of `_provenance_row`.
optional_ref : String → Option Json → Result (Option String)
optional_ref name none = ok none
optional_ref name (some null) = ok none
optional_ref name (some (text s)) = ok (some s)
optional_ref name _ =
    err (catalog_error ("catalog provenance " <> name <> " must be a string or null"))

metadata_of : Option Json → Result Json
metadata_of none = ok (object end)
metadata_of (some (object fs)) = ok (canonical (object fs))
metadata_of _ = err (catalog_error "catalog provenance metadata must be an object")

source_of : Option Json → Result String
source_of (some (text s)) =
    if truthy s then ok s else err (catalog_error "catalog provenance requires source")
source_of _ = err (catalog_error "catalog provenance requires source")

-- `_provenance_row`; a value that is no dict has no `get`.
unfoldable pub provenance_row : String → ℕ → Json → Result ProvenanceRow
unfolding optional_ref metadata_of source_of
provenance_row id index (object p) = and_then (source_of (Dict.get "source" p)) λ source.
    and_then (optional_ref "source_ref" (Dict.get "source_ref" p)) λ source_ref.
      and_then (optional_ref "observed_entry_id" (Dict.get "observed_entry_id" p)) λ observed.
        and_then (metadata_of (Dict.get "metadata" p)) λ metadata. ok (record {
          provenance_id = id <> ":prov:" <> decimal index;
          catalog_id = id;
          source = source;
          source_ref = source_ref;
          observed_entry_id = observed;
          metadata = metadata;
        })
provenance_row id index _ = err python_error

insert_provenance : String → ℕ → Items → List ProvenanceRow → Result (List ProvenanceRow)
insert_provenance id index nil rows = ok rows
insert_provenance id index (cons p items) rows =
    and_then (provenance_row id index p)
      λ row. insert_provenance id (index + 1) items (rows ++ row ∷ [])

-- The statements of `upsert`, which are committed together.
unfoldable pub put_all : Sha256 → Clock → CatalogEntry → Database → Result (Unit {0} × Database)
unfolding distinct insert_aliases insert_provenance
put_all h c e db = and_then (put_entry c e db) λ put.
    and_then
      (insert_aliases h e.catalog_id (sort_by text_leb (distinct e.aliases))
        (delete_rows (λ (r : AliasRow). r.catalog_id == e.catalog_id) put.1.catalog_aliases))
      λ aliases.
        and_then
          (insert_provenance e.catalog_id 0 e.provenance (
            delete_rows (λ (r : ProvenanceRow). r.catalog_id == e.catalog_id)
              put.1.catalog_provenance))
          λ provenance.
            ok (tt, record put.1 { catalog_aliases = aliases; catalog_provenance = provenance })

alias_names : List AliasRow → List String
alias_names [] = []
alias_names (r ∷ rows) = r.alias ∷ alias_names rows

-- `_aliases`
unfoldable pub aliases_of : String → Database → List String
unfolding alias_names
aliases_of id db = alias_names (
    sort_by (λ r s. text_leb r.alias s.alias)
      (select_rows (λ (r : AliasRow). r.catalog_id == id) db.catalog_aliases))

provenance_items : List ProvenanceRow → Items
provenance_items [] = nil
provenance_items (r ∷ rows) =
    cons
      (object (
        field "source" (text r.source) (
          field "source_ref" (nullable r.source_ref) (
            field "observed_entry_id" (nullable r.observed_entry_id)
              (field "metadata" r.metadata end)))))
      (provenance_items rows)

-- `_provenance`
unfoldable pub provenance_of : String → Database → Items
unfolding provenance_items
provenance_of id db = provenance_items (
    sort_by (λ r s. text_leb r.provenance_id s.provenance_id)
      (select_rows (λ (r : ProvenanceRow). r.catalog_id == id) db.catalog_provenance))

-- `show`, and `_catalog_entry_from_row`
unfoldable pub show : Urls → String → Database → Result CatalogEntry
show u id db = and_then (require (find_row (of_entry id) db.catalog_entries) (key_error id)) λ row.
    from_dict u
      (to_dict (record row.entry { aliases = aliases_of id db; provenance = provenance_of id db }))

unfoldable pub upsert : Sha256 → Urls → Clock → CatalogEntry → Action Database CatalogEntry
upsert h u c entry = do
  validated ← lift (from_dict u (to_dict entry))
  transaction (put_all h c validated)
  reads (show u validated.catalog_id)

-- ORDER BY canonical_name, variant_name, catalog_id; NULL stands first.
opt_leb : Option String → Option String → Bool
opt_leb none o = true
opt_leb (some a) none = false
opt_leb (some a) (some b) = text_leb a b

identity_order : CatalogRow → CatalogRow → Bool
unfolding opt_leb
identity_order r s =
    if r.entry.canonical_name == s.entry.canonical_name
    then if opt_eq r.entry.variant_name s.entry.variant_name
      then text_leb r.entry.catalog_id s.entry.catalog_id
      else opt_leb r.entry.variant_name s.entry.variant_name
    else text_leb r.entry.canonical_name s.entry.canonical_name

show_all : Urls → List CatalogRow → Database → Result (List CatalogEntry)
show_all u [] db = ok []
show_all u (r ∷ rows) db =
    and_then (show u r.entry.catalog_id db) λ e. and_then (show_all u rows db) λ es. ok (e ∷ es)

unfoldable pub list : Urls → Database → Result (List CatalogEntry)
unfolding show_all identity_order
list u db = show_all u (sort_by identity_order db.catalog_entries) db

-- The entry that `set_review_state` validates.
abbrev reviewed : String → Option String → CatalogEntry → CatalogEntry
reviewed review none e = record e { review_state = review }
reviewed review (some lifecycle) e = record e { review_state = review; lifecycle_state = lifecycle }

-- SET of its UPDATE
abbrev set_states : Clock → CatalogEntry → CatalogRow → CatalogRow
set_states c after r = record {
  entry = record r.entry {
    review_state = after.review_state;
    lifecycle_state = after.lifecycle_state;
  };
  updated_at = c.sql_now;
}

unfoldable pub set_review_state :
    Urls
    → Clock
    → (catalog_id review_state : String) → (lifecycle_state : Option String)
    → Action Database (CatalogEntry × CatalogEntry)
set_review_state u c id review lifecycle = do
  before ← reads (show u id)
  after ← lift (from_dict u (to_dict (reviewed review lifecycle before)))
  modify (λ (db : Database). record db {
    catalog_entries = update_rows (of_entry id) (set_states c after) db.catalog_entries;
  })
  stored ← reads (show u id)
  pure (before, stored)
