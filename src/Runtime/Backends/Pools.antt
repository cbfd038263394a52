-- ===== src/Runtime/Backends/Pools.antt =====
-- What a pool's row in runtime_backends decides: its backend is reused while it is hot, and no
-- second one can be started.
use mcp_multiplex.Prelude.{
  String, Bool, true, ◌&&◌, List, [], ◌∷◌, none, some, ◌≡◌, inl, inr, arith, ◌==◌, eq_iff, has_row,
  Bool-cases, find_row, ◌∙◌, find_row-stricter, if◌then◌else◌, has_row-append_true, has_row-misses,
}
use mcp_multiplex.Exec.{integrity_error, ok, err, Sha256, Clock}
use mcp_multiplex.Storage.{Database, BackendSession}
use mcp_multiplex.Runtime.Backends.{
  StartArgs, new_backend, same_pool, insert, create_starting, show, find_hot_by_pool, hot,
}
use mcp_multiplex.Runtime.Backends.Keys.{
  AreUnique, Call, run, run_all, run_cases, backends-update, insert_cases, same_pool-update,
}

abbrev pub hot_in_pool : String → String → BackendSession → Bool
hot_in_pool cid key b = same_pool cid key b && b.state == "hot"

-- Of a pool that has one row, what is found hot is that row, if it is hot.
find_hot-eq :
    (cid key : String) (b : BackendSession) (rows : List BackendSession)
    → AreUnique rows
    → find_row (same_pool cid key) rows ≡ some b
    → find_row (hot_in_pool cid key) rows ≡ (if b.state == "hot" then some b else none)
find_hot-eq cid key b [] u found = cc
find_hot-eq cid key b (x ∷ rows) u found = elim (Bool-cases (same_pool cid key x)) [
  | inl same ↦
      let cid_eq = (eq_iff x.catalog_id cid).0 (ground arith) in
      let key_eq = (eq_iff x.runtime_pool_key key).0 (ground arith) in
      let only = rw (cid_eq, key_eq) at u.1 in
      let rest =
        find_row-stricter (hot_in_pool cid key) (same_pool cid key) rows (λ r no. ground arith)
          only in
      ground arith
  | inr other ↦ let rest = find_hot-eq cid key b rows u.2 (ground arith) in ground arith
]

-- An insertion into a table that has a row of the pool is refused.
insert-taken :
    (b : BackendSession) (db : Database)
    → has_row (same_pool b.catalog_id b.runtime_pool_key) db.backends ≡ true
    → insert b db ≡ err integrity_error
unfolding insert
insert-taken b db taken = ground arith

create_starting-keeps_pool :
    (h : Sha256) (c : Clock) (a : StartArgs) (cid key : String) (db : Database)
    → has_row (same_pool cid key) db.backends ≡ true
    → has_row (same_pool cid key) (create_starting h c a db).1.backends ≡ true
unfolding create_starting
create_starting-keeps_pool h c a cid key db there = elim (insert_cases (new_backend h c a) db) [
  | inl (x, refused) ↦ ground arith
  | inr (added, i, q) ↦
      let grown = has_row-append_true (same_pool cid key) (new_backend h c a) db.backends there in
      ground arith
]

-- The rows of the pools stay.
run-keeps_pool :
    (h : Sha256) (c : Clock) (call : Call) (cid key : String) (db : Database)
    → has_row (same_pool cid key) db.backends ≡ true
    → has_row (same_pool cid key) (run h c call db).backends ≡ true
run-keeps_pool h c call cid key db there = elim (run_cases h c call db) [
  | inl (a, e) ↦ rw e (create_starting-keeps_pool h c a cid key db there)
  | inr (id, f, k, e) ↦ rw (e, backends-update) (same_pool-update _ f k cid key db.backends ∙ there)
]

create_starting-taken :
    (h : Sha256) (c : Clock) (a : StartArgs) (db : Database)
    → has_row (same_pool a.catalog_id a.runtime_pool_key) db.backends ≡ true
    → create_starting h c a db ≡ (err integrity_error, db)
unfolding create_starting new_backend
create_starting-taken h c a db taken =
    let refused = insert-taken (new_backend h c a) db taken in ground arith

-- Once runtime_backends has a row of a pool, `create_starting` for the pool raises an
-- IntegrityError and changes nothing, whatever methods were called since; that the backend of the
-- row has crashed or was stopped makes no difference.
pub pool_is_taken :
    (h : Sha256) (calls : List (Clock × Call)) (c : Clock) (a : StartArgs) (db : Database)
    → has_row (same_pool a.catalog_id a.runtime_pool_key) db.backends ≡ true
    → create_starting h c a (run_all h calls db) ≡ (err integrity_error, run_all h calls db)
pool_is_taken h [] c a db there = create_starting-taken h c a db there
pool_is_taken h ((d, call) ∷ calls) c a db there =
    pool_is_taken h calls c a (run h d call db)
      (run-keeps_pool h d call a.catalog_id a.runtime_pool_key db there)

-- A row is found under its id.
find_by_id :
    (p : BackendSession → Bool) (b : BackendSession) (rows : List BackendSession)
    → AreUnique rows
    → find_row p rows ≡ some b
    → find_row (λ (x : BackendSession). x.backend_id == b.backend_id) rows ≡ some b
find_by_id p b [] u found = cc
find_by_id p b (x ∷ rows) u found = elim (Bool-cases (p x)) [
  | inl this ↦ ground (arith, eq_iff b.backend_id b.backend_id)
  | inr other ↦
      let there = rw other at found in
      let rest = find_by_id p b rows u.2 there in
      let apart = has_row-misses (λ y. y.backend_id == x.backend_id) p b rows u.0 there in
      ground (arith, eq_iff b.backend_id x.backend_id, eq_iff x.backend_id b.backend_id)
]

-- Where no two rows of runtime_backends have one id or one pool, `find_hot_by_pool` returns the
-- row of the pool, if it is hot, and else None.
pub find_hot_by_pool-eq :
    (cid key : String) (b : BackendSession) (db : Database)
    → AreUnique db.backends
    → find_row (same_pool cid key) db.backends ≡ some b
    → find_hot_by_pool cid key db ≡ ok (if b.state == "hot" then some b else none)
unfolding find_hot_by_pool show
find_hot_by_pool-eq cid key b db u found =
    let e = find_hot-eq cid key b db.backends u found in
    elim (Bool-cases (b.state == "hot")) [
      | inl hot ↦
          let is_hot = rw hot at e in
          let shown = find_by_id (hot_in_pool cid key) b db.backends u is_hot in
          rw hot (ground arith)
      | inr cold ↦ let none_hot = rw cold at e in rw cold (ground arith)
    ]
