-- ===== src/Daemon/Detach.antt =====
-- What the end of a session does to its backend.
use mathlib.Core.Path.{subst}
use mathlib.Core.List.{append-nil}
use mcp_multiplex.Prelude.{
  ◌-◌, ◌++◌, String, Bool, true, if◌then◌else◌, eq_iff, List, [], ◌∷◌, Option, none, some, ◌≡◌,
  refl, sym, ap, ◌∙◌, arith, eqb, ◌==◌, find_row, delete_rows, has_row_of_find, find_row-holds,
  find_row-update_found, find_row-delete,
}
use mcp_multiplex.Exec.{key_error, Result, ok, err, require-eq-ok, Clock}
use mcp_multiplex.Storage.{Database, FrontendSession, BackendSession}
use mcp_multiplex.Runtime.Frontend
use mcp_multiplex.Runtime.Backends
use mcp_multiplex.Runtime.Backends.Keys.{backends-update}
use mcp_multiplex.Runtime.Registry.{get, without, close, close_popped}
use mcp_multiplex.Daemon.{
  Server, Catalog, close_backend, transport_of, stop_quietly, leave_backend, delete_session,
}

abbrev of_id : String → BackendSession → Bool
of_id id b = b.backend_id == id

-- An update of a row that is there returns the row, updated.
update-found :
    (id : String) (f : BackendSession → BackendSession) (b : BackendSession) (db : Database)
    → ((x : BackendSession) → (f x).backend_id ≡ x.backend_id)
    → Backends.show id db ≡ ok b
    → (Backends.update id f db).0 ≡ ok (f b)
unfolding Backends.update Backends.show
update-found id f b db keeps shown =
    let found = require-eq-ok (find_row (of_id id) db.backends) (key_error id) b shown in
    let there = has_row_of_find (of_id id) b db.backends found in
    let this = find_row-holds (of_id id) b db.backends found in
    let after =
      find_row-update_found (of_id id) (of_id id) f b db.backends (λ x. rw (keeps x) refl) found in
    ground arith

update-shown :
    (id : String) (f : BackendSession → BackendSession) (b : BackendSession) (db : Database)
    → (Backends.update id f db).0 ≡ ok b
    → Backends.show id (Backends.update id f db).1 ≡ ok b
unfolding Backends.update
update-shown id f b db done = ground arith

-- Deleting a session that is there removes it, and changes no other table.
delete-found :
    (id : String) (x : FrontendSession) (db : Database)
    → Frontend.show id db ≡ ok x
    → Frontend.delete id db ≡ (
      ok tt,
      record db {
        frontend_sessions =
            delete_rows (λ (s : FrontendSession). s.frontend_session_id == id) db.frontend_sessions;
      },
    )
unfolding Frontend.delete Frontend.show
delete-found id x db shown =
    let found =
      require-eq-ok
        (find_row (λ (s : FrontendSession). s.frontend_session_id == id) db.frontend_sessions)
        (key_error id) x shown in
    let there =
      has_row_of_find (λ (s : FrontendSession). s.frontend_session_id == id) x db.frontend_sessions
        found in
    ground arith

show-cong :
    (id : String) (x y : Database)
    → x.frontend_sessions ≡ y.frontend_sessions
    → Frontend.show id x ≡ Frontend.show id y
unfolding Frontend.show
show-cong id x y e = rw e refl

show-deleted :
    (id : String) (db : Database)
    → Frontend.show id (record db {
      frontend_sessions =
          delete_rows (λ (s : FrontendSession). s.frontend_session_id == id) db.frontend_sessions;
    })
      ≡ err (key_error id)
unfolding Frontend.show
show-deleted id db =
    let gone =
      find_row-delete (λ (s : FrontendSession). s.frontend_session_id == id) db.frontend_sessions in
    ground arith

-- A backend after a session left it.
abbrev pub left : Clock → BackendSession → BackendSession
left c b = record b {
  frontend_session_count = b.frontend_session_count - 1;
  last_used_at = some c.now;
}

decrement-shown :
    (c : Clock) (id : String) (b : BackendSession) (db : Database)
    → Backends.show id db ≡ ok b
    → (Backends.decrement_frontend_session_count c id db).0 ≡ ok (left c b)
unfolding Backends.decrement_frontend_session_count
decrement-shown c id b db shown = update-found id (left c) b db (λ x. refl) shown

decrement-shows :
    (c : Clock) (id : String) (b : BackendSession) (db : Database)
    → Backends.show id db ≡ ok b
    → Backends.show id (Backends.decrement_frontend_session_count c id db).1 ≡ ok (left c b)
unfolding Backends.decrement_frontend_session_count
decrement-shows c id b db shown =
    update-shown id (left c) (left c b) db (update-found id (left c) b db (λ x. refl) shown)

abbrev pub stopped : Clock → BackendSession → BackendSession
stopped c b = record b { state = "stopped"; last_used_at = some c.now }

stopped-shown :
    (c : Clock) (id : String) (b : BackendSession) (db : Database)
    → Backends.show id db ≡ ok b
    → ((Backends.mark_stopped c id db).0 ≡ ok (stopped c b))
      × (Backends.show id (Backends.mark_stopped c id db).1 ≡ ok (stopped c b))
unfolding Backends.mark_stopped
stopped-shown c id b db shown =
    let done = update-found id (stopped c) b db (λ x. refl) shown in
    (done, update-shown id (stopped c) (stopped c b) db done)

update-sessions :
    (id : String) (f : BackendSession → BackendSession) (db : Database)
    → (Backends.update id f db).1.frontend_sessions ≡ db.frontend_sessions
update-sessions id f db = ap (λ (x : Database). x.frontend_sessions) (backends-update id f db)

module _ {P : Type 0} where
  get-without :
      (id k : String) (es : List (String × P))
      → get k (without id es) ≡ (if id == k then none else get k es)
  get-without id k [] = ground arith
  get-without id k ((j, x) ∷ es) =
      ground (arith, get-without id k es, eq_iff j id, eq_iff j k, eq_iff id k)

  -- The processes that a lookup found: one, or none.
  abbrev pub found_handles : Option P → List P
  found_handles none = []
  found_handles (some x) = x ∷ []

  -- What is left of a session and of its stdio backend after the session ended on a server: the
  -- backend's row is stopped; its process, if it had one, is the next on which `close()` was called,
  -- and is registered no more; all other processes are registered as before.
  pub record EndsBackend (c : Clock) (id : String) (b : BackendSession) (s : Server P)
      (r : Result (Unit {0}) × Server P) : Type 0 where
    pub done : r.0 ≡ ok tt
    pub backend : Backends.show id r.1.db ≡ ok (stopped c (left c b))
    pub closed :
        r.1.stdio_backends.closed
        ≡ s.stdio_backends.closed ++ found_handles (get id s.stdio_backends.handles)
    pub handles :
        (k : String)
        → get k r.1.stdio_backends.handles
          ≡ (if id == k then none else get k s.stdio_backends.handles)
    pub remote : r.1.http_backends ≡ s.http_backends

  close_popped-found :
      (o : Option P) (closed : List P) → close_popped o closed ≡ closed ++ found_handles o
  close_popped-found none closed = sym (append-nil closed)
  close_popped-found (some x) closed = refl

  leave_last :
      (c : Clock) (id : String) (b : BackendSession) (s : Server P)
      → Backends.show id s.db ≡ ok b
      → eqb (b.frontend_session_count - 1) 0 ≡ true
      → EndsBackend c id b s (leave_backend c (some (id, "stdio")) s)
  unfolding leave_backend close_backend stop_quietly close
  leave_last c id b s shown last =
      let down = decrement-shown c id b s.db shown in
      let db = (Backends.decrement_frontend_session_count c id s.db).1 in
      let (halted, shows) = stopped-shown c id (left c b) db (decrement-shows c id b s.db shown) in
      let closes = close_popped-found (get id s.stdio_backends.handles) s.stdio_backends.closed in
      record {
        done = ground arith;
        backend = ground arith;
        closed = ground arith;
        handles = λ k. let kept = get-without id k s.stdio_backends.handles in ground arith;
        remote = ground arith;
      }

  leave_last-sessions :
      (c : Clock) (id : String) (b : BackendSession) (s : Server P)
      → Backends.show id s.db ≡ ok b
      → eqb (b.frontend_session_count - 1) 0 ≡ true
      → (leave_backend c (some (id, "stdio")) s).1.db.frontend_sessions ≡ s.db.frontend_sessions
  unfolding leave_backend close_backend stop_quietly Backends.mark_stopped
      Backends.decrement_frontend_session_count
  leave_last-sessions c id b s shown last =
      let down = update-found id (left c) b s.db (λ x. refl) shown in
      let db = (Backends.update id (left c) s.db).1 in
      let halted =
        update-found id (stopped c) (left c b) db (λ x. refl)
          (update-shown id (left c) (left c b) s.db down) in
      let first = update-sessions id (left c) s.db in
      let second = update-sessions id (stopped c) db in ground arith

  -- When the last session of a stdio backend ends, it is deleted, its backend is stopped and used
  -- by none, and the backend's process, if it has one, is closed and no longer registered; no other
  -- process of a stdio backend and no client of a remote backend is closed or unregistered.
  pub last_session_closes :
      (c : Clock) (catalog : Catalog) (session_id id : String) (x : FrontendSession)
      (b : BackendSession) (s : Server P)
      → Frontend.show session_id s.db ≡ ok x
      → x.backend_id ≡ some id
      → Backends.show id s.db ≡ ok b
      → catalog b.catalog_id ≡ some "stdio"
      → eqb (b.frontend_session_count - 1) 0 ≡ true
      → let r = delete_session c catalog session_id s in
        EndsBackend c id b s r × (Frontend.show session_id r.1.db ≡ err (key_error session_id))
  unfolding delete_session transport_of
  last_session_closes c catalog session_id id x b s shown attached backend transport last =
      let deleted = delete-found session_id x s.db shown in
      let now = record s {
        db = record s.db {
          frontend_sessions =
              delete_rows (λ (t : FrontendSession). t.frontend_session_id == session_id)
                s.db.frontend_sessions;
        };
      } in
      let there : Backends.show id now.db ≡ ok b = unfold Backends.show in backend in
      let e : delete_session c catalog session_id s ≡ leave_backend c (some (id, "stdio")) now =
        ground arith in
      let closes = leave_last c id b now there last in
      let ends : EndsBackend c id b s (leave_backend c (some (id, "stdio")) now) = record {
        done = closes.done;
        backend = closes.backend;
        closed = closes.closed;
        handles = closes.handles;
        remote = closes.remote;
      } in
      let sessions = leave_last-sessions c id b now there last in
      subst
        (λ (r : Result (Unit {0}) × Server P).
          EndsBackend c id b s r × (Frontend.show session_id r.1.db ≡ err (key_error session_id)))
        (sym e) (ends, show-cong session_id _ now.db sessions ∙ show-deleted session_id s.db)
