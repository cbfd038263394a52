-- ===== src/Runtime/Backends/Keys.antt =====
-- The keys of runtime_backends under every method of the store.
use mcp_multiplex.Prelude.{
  ℕ, String, Bool, false, ◌&&◌, not, List, [], ◌∷◌, ◌++◌, Option, none, some, ◌≡◌, ◌⊎◌, inl, inr,
  refl, arith, ◌==◌, eq_iff, has_row, update_rows, has_row-update, has_row-append, Bool-cases,
}
use mcp_multiplex.Json.{Json}
use mcp_multiplex.Exec.{Error, integrity_error, ok, err, Sha256, Clock}
use mcp_multiplex.Storage.{CatalogRow, Database, BackendSession}
use mcp_multiplex.Runtime.Backends.{
  StartArgs, new_backend, same_pool, insert, create_starting, update, starting, mark_hot,
  mark_starting, increment_frontend_session_count, decrement_frontend_session_count, mark_crashed,
  mark_stopped, touch,
}

-- No two rows have one id, and no two rows are of one pool.
abbrev pub AreUnique : List BackendSession → Type 0
AreUnique [] = Unit {0}
AreUnique (b ∷ rows) =
    (has_row (λ (x : BackendSession). x.backend_id == b.backend_id) rows ≡ false)
    × (has_row (same_pool b.catalog_id b.runtime_pool_key) rows ≡ false)
    × AreUnique rows

-- An update that leaves the keys alone.
pub record KeepsKeys (f : BackendSession → BackendSession) : Type 0 where
  pub id : (b : BackendSession) → (f b).backend_id ≡ b.backend_id
  pub catalog : (b : BackendSession) → (f b).catalog_id ≡ b.catalog_id
  pub pool : (b : BackendSession) → (f b).runtime_pool_key ≡ b.runtime_pool_key

module _ (p : BackendSession → Bool) (f : BackendSession → BackendSession) (k : KeepsKeys f) where
  same_id-update :
      (id : String) (rows : List BackendSession)
      → has_row (λ (x : BackendSession). x.backend_id == id) (update_rows p f rows)
        ≡ has_row (λ (x : BackendSession). x.backend_id == id) rows
  same_id-update id rows = has_row-update _ p f rows (λ b. rw (k.id b))

  pub same_pool-update :
      (c key : String) (rows : List BackendSession)
      → has_row (same_pool c key) (update_rows p f rows) ≡ has_row (same_pool c key) rows
  same_pool-update c key rows = has_row-update _ p f rows (λ b. rw (k.catalog b, k.pool b))

  AreUnique-update :
      (rows : List BackendSession) → AreUnique rows → AreUnique (update_rows p f rows)
  AreUnique-update [] u = tt
  AreUnique-update (b ∷ rows) u = elim (Bool-cases (p b)) [
    | inl matched ↦
        rw
          (
            matched,
            k.id b,
            k.catalog b,
            k.pool b,
            same_id-update b.backend_id rows,
            same_pool-update b.catalog_id b.runtime_pool_key rows,
          )
          (u.0, u.1, AreUnique-update rows u.2)
    | inr passed ↦
        rw
          (
            passed,
            same_id-update b.backend_id rows,
            same_pool-update b.catalog_id b.runtime_pool_key rows,
          )
          (u.0, u.1, AreUnique-update rows u.2)
  ]

AreUnique-append :
    (b : BackendSession) (rows : List BackendSession)
    → AreUnique rows
    → has_row (λ (x : BackendSession). x.backend_id == b.backend_id) rows ≡ false
    → has_row (same_pool b.catalog_id b.runtime_pool_key) rows ≡ false
    → AreUnique (rows ++ b ∷ [])
AreUnique-append b [] u i q = (refl, refl, tt)
AreUnique-append b (x ∷ rows) u i q = (
  has_row-append (λ (y : BackendSession). y.backend_id == x.backend_id) b rows u.0
      (ground (arith, eq_iff b.backend_id x.backend_id, eq_iff x.backend_id b.backend_id)),
  has_row-append (same_pool x.catalog_id x.runtime_pool_key) b rows u.1 (
      ground (
        arith,
        eq_iff b.catalog_id x.catalog_id,
        eq_iff x.catalog_id b.catalog_id,
        eq_iff b.runtime_pool_key x.runtime_pool_key,
        eq_iff x.runtime_pool_key b.runtime_pool_key,
      )),
  AreUnique-append b rows u.2 (ground arith) (ground arith),
)

-- An insertion is refused, or adds the row behind rows that share no key with it.
pub insert_cases :
    (b : BackendSession) (db : Database)
    → ((x : Error) × (insert b db ≡ err x))
      ⊎ ((insert b db ≡ ok (tt, record db { backends = db.backends ++ b ∷ [] }))
          × (has_row (λ (x : BackendSession). x.backend_id == b.backend_id) db.backends ≡ false)
          × (has_row (same_pool b.catalog_id b.runtime_pool_key) db.backends ≡ false))
unfolding insert
insert_cases b db =
    elim (Bool-cases (
      not (has_row (λ (x : BackendSession). x.backend_id == b.backend_id) db.backends)
      && (not (has_row (same_pool b.catalog_id b.runtime_pool_key) db.backends)
          && has_row (λ (c : CatalogRow). c.entry.catalog_id == b.catalog_id)
              db.catalog_entries))) [
                | inl allowed ↦ inr (rw allowed, ground arith, ground arith)
                | inr refused ↦ inl (integrity_error, rw refused)
              ]

create_starting-AreUnique :
    (h : Sha256) (c : Clock) (a : StartArgs) (db : Database)
    → AreUnique db.backends
    → AreUnique (create_starting h c a db).1.backends
unfolding create_starting
create_starting-AreUnique h c a db u = elim (insert_cases (new_backend h c a) db) [
  | inl (x, refused) ↦ ground arith
  | inr (added, i, q) ↦
      let grown = AreUnique-append (new_backend h c a) db.backends u i q in
      let e : (create_starting h c a db).1
          ≡ record db { backends = db.backends ++ new_backend h c a ∷ [] } =
        ground arith in
      rw e grown
]

-- An update writes the table, whatever it returns.
pub backends-update :
    (id : String) (f : BackendSession → BackendSession) (db : Database)
    → (update id f db).1 ≡ record db {
      backends = update_rows (λ (b : BackendSession). b.backend_id == id) f db.backends;
    }
unfolding update
backends-update id f db = ground arith

pub update-AreUnique :
    (id : String) (f : BackendSession → BackendSession) (db : Database)
    → KeepsKeys f
    → AreUnique db.backends
    → AreUnique (update id f db).1.backends
update-AreUnique id f db k u = rw backends-update (AreUnique-update _ f k db.backends u)

-- The methods that write the table.
pub data Call : Type 0 where
  starts : StartArgs → Call
  heats : String → Json → ℕ → Call
  restarts : String → Option ℕ → Option ℕ → Call
  joins leaves crashes stops touches : String → Call

abbrev pub run : Sha256 → Clock → Call → Database → Database
run h c (starts a) db = (create_starting h c a db).1
run h c (heats id r n) db = (mark_hot c id r n db).1
run h c (restarts id p n) db = (mark_starting c id p n db).1
run h c (joins id) db = (increment_frontend_session_count c id db).1
run h c (leaves id) db = (decrement_frontend_session_count c id db).1
run h c (crashes id) db = (mark_crashed c id db).1
run h c (stops id) db = (mark_stopped c id db).1
run h c (touches id) db = (touch c id db).1

abbrev pub run_all : Sha256 → List (Clock × Call) → Database → Database
run_all h [] db = db
run_all h ((c, call) ∷ calls) db = run_all h calls (run h c call db)

-- What every update does to a row: it leaves the keys alone.
keeps :
    (f : BackendSession → BackendSession)
    → ((b : BackendSession)
        → ((f b).backend_id ≡ b.backend_id)
          × ((f b).catalog_id ≡ b.catalog_id)
          × ((f b).runtime_pool_key ≡ b.runtime_pool_key))
    → KeepsKeys f
keeps f k = record { id = λ b. (k b).0; catalog = λ b. (k b).1; pool = λ b. (k b).2 }

starting-keeps : (c : Clock) (p n : Option ℕ) → KeepsKeys (starting c p n)
starting-keeps c p none = keeps _ (λ b. (refl, refl, refl))
starting-keeps c p (some n) = keeps _ (λ b. (refl, refl, refl))

-- A call is the start of a backend, or an update that leaves the keys alone.
pub run_cases :
    (h : Sha256) (c : Clock) (call : Call) (db : Database)
    → ((a : StartArgs) × (run h c call db ≡ (create_starting h c a db).1))
      ⊎ ((id : String) × (f : BackendSession → BackendSession) × KeepsKeys f
          × (run h c call db ≡ (update id f db).1))
unfolding mark_hot mark_starting increment_frontend_session_count decrement_frontend_session_count
    mark_crashed mark_stopped touch
run_cases h c (starts a) db = inl (a, refl)
run_cases h c (heats id r n) db = inr (id, _, keeps _ (λ b. (refl, refl, refl)), refl)
run_cases h c (restarts id p n) db = inr (id, _, starting-keeps c p n, refl)
run_cases h c (joins id) db = inr (id, _, keeps _ (λ b. (refl, refl, refl)), refl)
run_cases h c (leaves id) db = inr (id, _, keeps _ (λ b. (refl, refl, refl)), refl)
run_cases h c (crashes id) db = inr (id, _, keeps _ (λ b. (refl, refl, refl)), refl)
run_cases h c (stops id) db = inr (id, _, keeps _ (λ b. (refl, refl, refl)), refl)
run_cases h c (touches id) db = inr (id, _, keeps _ (λ b. (refl, refl, refl)), refl)

run-AreUnique :
    (h : Sha256) (c : Clock) (call : Call) (db : Database)
    → AreUnique db.backends
    → AreUnique (run h c call db).backends
run-AreUnique h c call db u = elim (run_cases h c call db) [
  | inl (a, e) ↦ rw e (create_starting-AreUnique h c a db u)
  | inr (id, f, k, e) ↦ rw e (update-AreUnique id f db k u)
]

-- Whatever methods are called, no two rows of runtime_backends come to have one backend_id, and
-- no two come to be of one pool.
pub run_all-AreUnique :
    (h : Sha256) (calls : List (Clock × Call)) (db : Database)
    → AreUnique db.backends
    → AreUnique (run_all h calls db).backends
run_all-AreUnique h [] db u = u
run_all-AreUnique h ((c, call) ∷ calls) db u =
    run_all-AreUnique h calls (run h c call db) (run-AreUnique h c call db u)
