-- ===== src/Credentials.antt =====
-- credentials/__init__.py: references to secrets, their store, and their readiness.
pub mod Dotenv
pub mod Sources
pub mod Readiness
pub mod Startup
mod Tests
use mcp_multiplex.Prelude.{
  ℕ, String, Bool, true, false, not, ◌&&◌, ◌||◌, List, [], ◌∷◌, ◌++◌, Option, none, some,
  if◌then◌else◌, ◌==◌, ◌<>◌, truthy, text_or, elem, has_row, find_row, select_rows, update_rows,
  sort_by, text_leb, take_text, starts_with, codes, leb, eqb,
}
use mcp_multiplex.Json.{
  Json, Items, Fields, null, boolean, number, text, array, object, nil, cons, field, end,
}
use mcp_multiplex.Json.Canonical.{canonical, canonical_fields}
use mcp_multiplex.Exec.{
  Error, Result, ok, err, and_then, check_all, refuse_if, require, key_error, integrity_error,
  credential_error, Action, pure, lift, reads, raise_if, modify, transaction, Sha256, Clock, ◌>>=◌,
  ◌>>◌,
}
use mcp_multiplex.Security.{Urls}
use mcp_multiplex.Storage.{Database, CatalogRow, CredentialRef}
use mcp_multiplex.Audit.{EventArgs, append}
use mcp_multiplex.Audit.Redact.{redact_fields}

abbrev pub readiness_states : List String
readiness_states =
    "present" ∷ "missing" ∷ "locked" ∷ "expired" ∷ "source_unavailable" ∷ "permission_denied" ∷ []

abbrev pub source_kinds : List String
source_kinds = "env" ∷ "dotenv" ∷ "keychain" ∷ "pass" ∷ "manual" ∷ "file" ∷ "unknown" ∷ []

-- `[A-Za-z0-9_.@:/=#-]`
abbrev ref_char : ℕ → Bool
ref_char c =
    (leb b'A' c && leb c b'Z')
    || ((leb b'a' c && leb c b'z')
        || ((leb b'-' c && leb c b':')
            || (eqb c b'_' || (eqb c b'@' || (eqb c b'=' || eqb c b'#')))))

-- One or more such characters up to the end, where `$` takes a last line feed too.
ref_chars : List ℕ → Bool
ref_chars [] = false
ref_chars (c ∷ []) = ref_char c
ref_chars (c ∷ d ∷ []) = ref_char c && (ref_char d || eqb d 10)
ref_chars (c ∷ d ∷ e ∷ s) = ref_char c && ref_chars (d ∷ e ∷ s)

-- What is left of a text after a prefix.
after_prefix : List ℕ → List ℕ → Option (List ℕ)
after_prefix [] s = some s
after_prefix (c ∷ p) [] = none
after_prefix (c ∷ p) (d ∷ s) = if eqb c d then after_prefix p s else none

-- SECRET_REF_PATTERN.match
unfoldable pub is_secret_ref : String → Bool
unfolding ref_chars after_prefix
is_secret_ref s = elim (after_prefix (codes "secretref:") (codes s)) [
  | none ↦ false
  | some rest ↦ ref_chars rest
]

begins : List ℕ → List ℕ → Bool
begins [] s = true
begins (c ∷ p) [] = false
begins (c ∷ p) (d ∷ s) = eqb c d && begins p s

contains : List ℕ → List ℕ → Bool
contains p [] = begins p []
contains p (c ∷ s) = begins p (c ∷ s) || contains p s

-- `token in lower` for one of the tokens
contains_any : List String → List ℕ → Bool
contains_any [] s = false
contains_any (t ∷ ts) s = contains (codes t) s || contains_any ts s

unfoldable pub looks_like_raw_secret_key : Urls → String → Bool
unfolding contains_any contains begins
looks_like_raw_secret_key u key =
    contains_any ("secret" ∷ "token" ∷ "password" ∷ "api_key" ∷ "apikey" ∷ []) (codes (u.lower key))

-- `_reject_raw_secret_material`: is there such a key at some depth?
unfoldable mutual
  pub has_raw_secret : Urls → Json → Bool
  has_raw_secret u (array xs) = items_have_raw_secret u xs
  has_raw_secret u (object fs) = fields_have_raw_secret u fs
  has_raw_secret u _ = false

  pub items_have_raw_secret : Urls → Items → Bool
  items_have_raw_secret u nil = false
  items_have_raw_secret u (cons x xs) = has_raw_secret u x || items_have_raw_secret u xs

  pub fields_have_raw_secret : Urls → Fields → Bool
  fields_have_raw_secret u end = false
  fields_have_raw_secret u (field k v fs) =
      looks_like_raw_secret_key u k || (has_raw_secret u v || fields_have_raw_secret u fs)

abbrev refuse : Bool → String → Result (Unit {0})
refuse c message = refuse_if c (credential_error message)

unfoldable pub validate_credential_ref : Urls → CredentialRef → Result CredentialRef
validate_credential_ref u c =
    check_all
      (refuse (not (starts_with c.catalog_id "srv_")) "catalog_id must start with srv_"
        ∷ refuse (not (starts_with c.credential_ref_id "cred_"))
            "credential_ref_id must start with cred_"
        ∷ refuse (not (truthy c.name)) "credential name is required"
        ∷ refuse (not (elem c.source_kind source_kinds))
            ("unsupported credential source kind: " <> c.source_kind)
        ∷ refuse (not (is_secret_ref c.source_ref)) "credential source_ref must be a secretref"
        ∷ refuse (not (elem c.readiness_state readiness_states))
            ("unsupported credential readiness state: " <> c.readiness_state)
        ∷ refuse (fields_have_raw_secret u c.metadata)
            "credential metadata cannot contain raw secret-like values"
        ∷ [])
      (ok (record c { metadata = redact_fields c.metadata }))

unfoldable pub credential_ref_id : Sha256 → String → String → String
credential_ref_id h catalog_id name =
    "cred_" <> take_text 24 (h.of_text (catalog_id <> "\0" <> name))

abbrev pub with_id : String → CredentialRef → Bool
with_id id c = c.credential_ref_id == id

-- UNIQUE (catalog_id, name)
abbrev pub same_name : CredentialRef → CredentialRef → Bool
same_name c r = r.catalog_id == c.catalog_id && r.name == c.name

-- `_credential_row`
unfoldable pub credential_row : CredentialRef → CredentialRef
credential_row c = record c { metadata = canonical_fields (redact_fields c.metadata) }

-- DO UPDATE SET: a row that is there keeps its id.
unfoldable pub replaced : CredentialRef → CredentialRef → CredentialRef
replaced c r = record (credential_row c) { credential_ref_id = r.credential_ref_id }

-- INSERT … ON CONFLICT(catalog_id, name) DO UPDATE, with the key of the table and the foreign key
unfoldable pub put_credential : CredentialRef → Database → Result (Unit {0} × Database)
put_credential c db =
    if has_row (λ r. with_id c.credential_ref_id r && not (same_name c r)) db.credential_refs
    then err integrity_error
    else if has_row (same_name c) db.credential_refs
    then ok (
      tt,
      record db { credential_refs = update_rows (same_name c) (replaced c) db.credential_refs },
    )
    else if has_row (λ (r : CatalogRow). r.entry.catalog_id == c.catalog_id) db.catalog_entries
    then ok (tt, record db { credential_refs = db.credential_refs ++ credential_row c ∷ [] })
    else err integrity_error

unfoldable pub show : String → Database → Result CredentialRef
show id db = require (find_row (with_id id) db.credential_refs) (key_error id)

unfoldable pub upsert : Urls → CredentialRef → Action Database CredentialRef
upsert u c = do
  validated ← lift (validate_credential_ref u c)
  transaction (put_credential validated)
  reads (show validated.credential_ref_id)

-- `create`, with the metadata `metadata or {}`
unfoldable pub create :
    Sha256
    → Urls
    → (catalog_id name source_kind source_ref readiness_state : String)
    → (last_checked_at : Option String) → (metadata : Fields) → Action Database CredentialRef
create h u catalog_id name source_kind source_ref readiness_state last_checked_at metadata =
    upsert u (record {
      credential_ref_id = credential_ref_id h catalog_id name;
      catalog_id = catalog_id;
      name = name;
      source_kind = source_kind;
      source_ref = source_ref;
      readiness_state = readiness_state;
      last_checked_at = last_checked_at;
      metadata = metadata;
    })

-- ORDER BY catalog_id, name
abbrev name_order : CredentialRef → CredentialRef → Bool
name_order a b =
    if a.catalog_id == b.catalog_id
    then text_leb a.name b.name
    else text_leb a.catalog_id b.catalog_id

abbrev of_catalog : Option String → CredentialRef → Bool
of_catalog none c = true
of_catalog (some id) c = c.catalog_id == id

show_all : List CredentialRef → Database → Result (List CredentialRef)
show_all [] db = ok []
show_all (c ∷ cs) db =
    and_then (show c.credential_ref_id db) λ x. and_then (show_all cs db) λ xs. ok (x ∷ xs)

unfoldable pub list : Option String → Database → Result (List CredentialRef)
unfolding show_all
list catalog_id db =
    show_all (sort_by name_order (select_rows (of_catalog catalog_id) db.credential_refs)) db
