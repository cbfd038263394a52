-- ===== src/Daemon/Reuse.antt =====
-- `_reuse_backend` of daemon/__init__.py: a session joins the hot backend of its pool.
use mathlib.Core.Path.{subst}
use mcp_multiplex.Prelude.{
  String, Bool, ◌&&◌, Option, none, some, ◌≡◌, inl, inr, refl, ap, ◌∙◌, sym, arith, ◌==◌, find_row,
  Option-cases, Bool-cases, if◌then◌else◌, not, find_row-update, has_row,
}
use mcp_multiplex.Json.{Json, Fields, null, boolean, number, text, array, object}
use mcp_multiplex.Json.Dict
use mcp_multiplex.Json.Dict.{get-set}
use mcp_multiplex.Exec.{
  proxy_error, Result, ok, err, ok-injective, Result-cases, Action, pure, lift, reads, Clock, ◌>>=◌,
  ◌>>◌,
}
use mcp_multiplex.Storage.{Database, FrontendSession, BackendSession}
use mcp_multiplex.Runtime.Frontend
use mcp_multiplex.Runtime.Backends

-- A result of `initialize` that was stored, as a dict.
abbrev pub stored_result : Json → Result Fields
stored_result (object fs) = ok fs
stored_result _ = err (proxy_error "stored initialize result is invalid")

-- The stored result with the id of the request that it answers.
abbrev pub answer_to : Option Json → Fields → Fields
answer_to none payload = payload
answer_to (some id) payload = Dict.set "id" id payload

-- What a session does that joins a backend.
unfoldable pub join_backend :
    Clock → String → BackendSession → Json → Fields → Action Database (Option Fields)
join_backend c session_id b initialize_result request = do
  Backends.increment_frontend_session_count c b.backend_id
  Frontend.attach_backend c session_id b.backend_id
  payload ← lift (stored_result initialize_result)
  pure (some (answer_to (Dict.get "id" request) payload))

abbrev pub is_hot : String → BackendSession → Bool
is_hot pool_key b = b.runtime_pool_key == pool_key && b.state == "hot"

abbrev pub join_if_initialized :
    Clock → String → Option BackendSession → Fields → Action Database (Option Fields)
join_if_initialized c session_id none request db = (ok none, db)
join_if_initialized c session_id (some b) request db = elim b.initialize_result_json [
  | none ↦ (ok none, db)
  | some initialize_result ↦ join_backend c session_id b initialize_result request db
]

unfoldable pub reuse_backend :
    Clock → (session_id pool_key : String) → Fields → Action Database (Option Fields)
reuse_backend c session_id pool_key request db = elim (find_row (is_hot pool_key) db.backends) [
  | none ↦ (ok none, db)
  | some row ↦
      (do
        backend ← reads (Backends.find_hot_by_pool row.catalog_id pool_key)
        join_if_initialized c session_id backend request)
        db
]

abbrev of_id : String → FrontendSession → Bool
of_id id s = s.frontend_session_id == id

abbrev attached : Clock → String → FrontendSession → FrontendSession
attached c backend_id s = record s { backend_id = some backend_id; last_seen_at = some c.now }

-- An update that returned shows its row, and the row has what was set.
update-attached :
    (c : Clock) (id backend_id : String) (x : FrontendSession) (db : Database)
    → (Frontend.update id (attached c backend_id) db).0 ≡ ok x
    → (Frontend.show id (Frontend.update id (attached c backend_id) db).1 ≡ ok x)
      × (x.backend_id ≡ some backend_id)
unfolding Frontend.update Frontend.show
update-attached c id backend_id x db done =
    let after =
      find_row-update (of_id id) (attached c backend_id) db.frontend_sessions (λ y. refl) in
    elim (Option-cases (find_row (of_id id) db.frontend_sessions)) [
      | inl missing ↦ (ground arith, ground arith)
      | inr (y, found) ↦ (ground arith, ground arith)
    ]

attach-attached :
    (c : Clock) (id backend_id : String) (x : FrontendSession) (db : Database)
    → (Frontend.attach_backend c id backend_id db).0 ≡ ok x
    → (Frontend.show id (Frontend.attach_backend c id backend_id db).1 ≡ ok x)
      × (x.backend_id ≡ some backend_id)
unfolding Frontend.attach_backend
attach-attached c id backend_id x db done =
    elim (Bool-cases (
      has_row (of_id id) db.frontend_sessions
      && not (has_row (λ (b : BackendSession). b.backend_id == backend_id) db.backends))) [
        | inl dangling ↦ (ground arith, ground arith)
        | inr fine ↦
            let e : Frontend.attach_backend c id backend_id db
                ≡ Frontend.update id (attached c backend_id) db =
              ground arith in
            subst
              (λ (r : Result FrontendSession × Database).
                (Frontend.show id r.1 ≡ ok x) × (x.backend_id ≡ some backend_id))
              (sym e)
              (update-attached c id backend_id x db
                (ap (λ (r : Result FrontendSession × Database). r.0) (sym e) ∙ done))
      ]

-- What a dict has under a key, where one key is overridden by a value that may be missing.
abbrev pub overridden : (key : String) → Option Json → (k : String) → Option Json → Option Json
overridden key none k there = there
overridden key (some value) k there = if key == k then some value else there

get-answer_to :
    (o : Option Json) (payload : Fields) (k : String)
    → Dict.get k (answer_to o payload) ≡ overridden "id" o k (Dict.get k payload)
get-answer_to none payload k = refl
get-answer_to (some id) payload k = get-set "id" k id payload

-- The session joined the backend, and the payload is the result that the backend's row stores, key by
-- key, but for the id, which is that of the request where it has one.
pub record Joins (session_id : String) (b : BackendSession) (request payload : Fields)
    (after : Database) : Type 0 where
  pub session :
      (x : FrontendSession) × (Frontend.show session_id after ≡ ok x)
      × (x.backend_id ≡ some b.backend_id)
  pub answer :
      (stored : Fields) × (b.initialize_result_json ≡ some (object stored))
      × ((k : String)
          → Dict.get k payload ≡ overridden "id" (Dict.get "id" request) k (Dict.get k stored))

stored_result-object : (r : Json) (fs : Fields) → stored_result r ≡ ok fs → r ≡ object fs
stored_result-object (object gs) fs e = ap object (ok-injective gs fs e)
stored_result-object null fs e = cc e
stored_result-object (boolean x) fs e = cc e
stored_result-object (number x) fs e = cc e
stored_result-object (text x) fs e = cc e
stored_result-object (array x) fs e = cc e

join_backend-Joins :
    (c : Clock) (session_id : String) (b : BackendSession) (r : Json) (request payload : Fields)
    (db : Database)
    → b.initialize_result_json ≡ some r
    → (join_backend c session_id b r request db).0 ≡ ok (some payload)
    → Joins session_id b request payload (join_backend c session_id b r request db).1
unfolding join_backend
join_backend-Joins c session_id b r request payload db set done =
    elim (Result-cases (Backends.increment_frontend_session_count c b.backend_id db).0) [
      | inl (up, counted) ↦
          let now = (Backends.increment_frontend_session_count c b.backend_id db).1 in
          elim (Result-cases (Frontend.attach_backend c session_id b.backend_id now).0) [
            | inl (x, joined) ↦ elim (Result-cases (stored_result r)) [
              | inl (fs, stored) ↦
                  let (shown, of_backend) =
                    attach-attached c session_id b.backend_id x now joined in
                  let e : answer_to (Dict.get "id" request) fs ≡ payload = ground arith in
                  record {
                    session = (x, ground arith, of_backend);
                    answer = (
                      fs,
                      set ∙ ap some (stored_result-object r fs stored),
                      λ k. ap (Dict.get k) (sym e) ∙ get-answer_to (Dict.get "id" request) fs k,
                    );
                  }
              | inr (y, bad) ↦ ground arith
            ]
            | inr (y, failed) ↦ ground arith
          ]
      | inr (y, failed) ↦ ground arith
    ]

-- A session that was given a running backend is attached to it: to the hot backend of its pool
-- that `find_hot_by_pool` returns. It gets the result that the backend's row stores: the payload
-- has under each key what that result has, but the id of its own request, where it has one.
pub reuse_backend-Joins :
    (c : Clock) (session_id pool_key : String) (request payload : Fields) (db : Database)
    → (reuse_backend c session_id pool_key request db).0 ≡ ok (some payload)
    → (catalog_id : String) × (b : BackendSession) × (Backends.find_hot_by_pool catalog_id pool_key
          db
        ≡ ok (some b))
      × Joins session_id b request payload (reuse_backend c session_id pool_key request db).1
unfolding reuse_backend
reuse_backend-Joins c session_id pool_key request payload db done =
    elim (Option-cases (find_row (is_hot pool_key) db.backends)) [
      | inl cold ↦ ground arith
      | inr (row, hot) ↦
          elim (Result-cases (Backends.find_hot_by_pool row.catalog_id pool_key db)) [
            | inl (none, missing) ↦ ground arith
            | inl (some b, found) ↦ elim (Option-cases b.initialize_result_json) [
              | inl unset ↦ ground arith
              | inr (r, set) ↦
                  let e : reuse_backend c session_id pool_key request db
                      ≡ join_backend c session_id b r request db =
                    ground arith in
                  (
                    row.catalog_id,
                    b,
                    found,
                    subst
                        (λ (z : Result (Option Fields) × Database).
                          Joins session_id b request payload z.1)
                        (sym e)
                        (join_backend-Joins c session_id b r request payload db set
                          (ap (λ (z : Result (Option Fields) × Database). z.0) (sym e) ∙ done)),
                  )
            ]
            | inr (x, failed) ↦ ground arith
          ]
    ]
