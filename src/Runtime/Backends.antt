-- ===== src/Runtime/Backends.antt =====
-- `RuntimeBackendStore` of runtime/__init__.py. The proofs are in the modules below.
pub mod Keys
pub mod Pools
use mcp_multiplex.Prelude.{
  ℕ, ◌+◌, ◌-◌, String, Bool, true, false, not, ◌&&◌, ◌||◌, List, [], ◌∷◌, ◌++◌, Option, none, some,
  if◌then◌else◌, ◌==◌, ◌<>◌, text_or, has_row, find_row, update_rows, sort_by, text_leb, take_text,
}
use mcp_multiplex.Json.{Json}
use mcp_multiplex.Json.Canonical.{canonical}
use mcp_multiplex.Exec.{
  Error, key_error, integrity_error, Result, ok, err, and_then, require, refuse_if, Action, pure,
  lift, reads, gets, modify, transaction, Sha256, Clock, ◌>>=◌, ◌>>◌,
}
use mcp_multiplex.Storage.{CatalogRow, Database, BackendSession}

unfoldable pub show : String → Database → Result BackendSession
show id db =
    require (find_row (λ (b : BackendSession). b.backend_id == id) db.backends) (key_error id)

unfoldable pub new_backend_id : Sha256 → String → String → String
new_backend_id h catalog_id pool_key =
    "be_" <> take_text 24 (h.of_text (catalog_id <> "\0" <> pool_key))

-- The keyword arguments of `create_starting`.
pub record StartArgs : Type 0 where
  pub catalog_id : String
  pub runtime_pool_key : String
  pub pid : Option ℕ
  pub workspace_root : Option String
  pub account_scope : Option String
  pub frontend_session_count : ℕ
  pub backend_id : Option String

-- The row that `create_starting` inserts; the other columns have their defaults.
unfoldable pub new_backend : Sha256 → Clock → StartArgs → BackendSession
new_backend h c a = record {
  backend_id = text_or a.backend_id (new_backend_id h a.catalog_id a.runtime_pool_key);
  catalog_id = a.catalog_id;
  runtime_pool_key = a.runtime_pool_key;
  state = "starting";
  pid = a.pid;
  account_scope = a.account_scope;
  workspace_root = a.workspace_root;
  backend_initialize_count = 0;
  frontend_session_count = a.frontend_session_count;
  initialize_result_json = none;
  created_at = c.now;
  last_used_at = some c.now;
}

abbrev pub same_pool : String → String → BackendSession → Bool
same_pool catalog_id pool_key b = b.catalog_id == catalog_id && b.runtime_pool_key == pool_key

-- INSERT: the primary key, UNIQUE (catalog_id, runtime_pool_key), and the foreign key to the catalog
unfoldable pub insert : BackendSession → Database → Result (Unit {0} × Database)
insert b db =
    if not (has_row (λ (x : BackendSession). x.backend_id == b.backend_id) db.backends)
      && (not (has_row (same_pool b.catalog_id b.runtime_pool_key) db.backends)
          && has_row (λ (c : CatalogRow). c.entry.catalog_id == b.catalog_id) db.catalog_entries)
    then ok (tt, record db { backends = db.backends ++ b ∷ [] })
    else err integrity_error

unfoldable pub create_starting : Sha256 → Clock → StartArgs → Action Database BackendSession
create_starting h c a = do
  transaction (insert (new_backend h c a))
  reads (show (new_backend h c a).backend_id)

-- UPDATE … WHERE backend_id = ?, a KeyError where no row was updated, and `show`
unfoldable pub update : String → (BackendSession → BackendSession) → Action Database BackendSession
update id set = do
  updated ←
      gets (λ (db : Database). has_row (λ (b : BackendSession). b.backend_id == id) db.backends)
  modify (λ db. record db {
    backends = update_rows (λ (b : BackendSession). b.backend_id == id) set db.backends;
  })
  lift (refuse_if (not updated) (key_error id))
  reads (show id)

-- SET of each of the updates
abbrev pub hot : Clock → Json → ℕ → BackendSession → BackendSession
hot c initialize_result count b = record b {
  state = "hot";
  backend_initialize_count = count;
  initialize_result_json = some (canonical initialize_result);
  last_used_at = some c.now;
}

abbrev pub starting : Clock → Option ℕ → Option ℕ → BackendSession → BackendSession
starting c pid none b = record b {
  state = "starting";
  pid = pid;
  initialize_result_json = none;
  last_used_at = some c.now;
}
starting c pid (some count) b = record b {
  state = "starting";
  pid = pid;
  frontend_session_count = count;
  initialize_result_json = none;
  last_used_at = some c.now;
}

unfoldable pub mark_hot : Clock → String → Json → ℕ → Action Database BackendSession
mark_hot c id initialize_result count = update id (hot c initialize_result count)

unfoldable pub mark_starting : Clock → String → Option ℕ → Option ℕ → Action Database BackendSession
mark_starting c id pid count = update id (starting c pid count)

unfoldable pub increment_frontend_session_count : Clock → String → Action Database BackendSession
increment_frontend_session_count c id = update id (λ b. record b {
  frontend_session_count = b.frontend_session_count + 1;
  last_used_at = some c.now;
})

-- MAX(frontend_session_count - 1, 0); subtraction on ℕ stops at 0 too
unfoldable pub decrement_frontend_session_count : Clock → String → Action Database BackendSession
decrement_frontend_session_count c id = update id (λ b. record b {
  frontend_session_count = b.frontend_session_count - 1;
  last_used_at = some c.now;
})

unfoldable pub mark_crashed : Clock → String → Action Database BackendSession
mark_crashed c id = update id (λ b. record b { state = "crashed"; last_used_at = some c.now })

unfoldable pub mark_stopped : Clock → String → Action Database BackendSession
mark_stopped c id = update id (λ b. record b { state = "stopped"; last_used_at = some c.now })

unfoldable pub touch : Clock → String → Action Database BackendSession
touch c id = update id (λ b. record b { last_used_at = some c.now })

unfoldable pub find_hot_by_pool : String → String → Database → Result (Option BackendSession)
find_hot_by_pool catalog_id pool_key db =
    elim (find_row (λ (b : BackendSession). same_pool catalog_id pool_key b && b.state == "hot")
      db.backends) [ none ↦ ok none | some b ↦ and_then (show b.backend_id db) (λ x. ok (some x)) ]

-- ORDER BY created_at, backend_id
abbrev earlier : BackendSession → BackendSession → Bool
earlier a b =
    if a.created_at == b.created_at
    then text_leb a.backend_id b.backend_id
    else text_leb a.created_at b.created_at

show_all : List BackendSession → Database → Result (List BackendSession)
show_all [] db = ok []
show_all (b ∷ rows) db =
    and_then (show b.backend_id db) λ x. and_then (show_all rows db) λ rest. ok (x ∷ rest)

unfoldable pub list : Database → Result (List BackendSession)
unfolding show_all
list db = show_all (sort_by earlier db.backends) db
