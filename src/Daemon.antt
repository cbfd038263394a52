-- ===== src/Daemon.antt =====
-- daemon/__init__.py: what its handlers do with the stores and the handles under the lock.
pub mod Detach
pub mod Reuse
mod Tests
use mcp_multiplex.Prelude.{
  ℕ, String, Bool, true, false, not, ◌&&◌, ◌||◌, List, [], ◌∷◌, Option, none, some, if◌then◌else◌,
  eqb, ◌==◌, find_row, elem,
}
use mcp_multiplex.Json.{Json, Fields, object}
use mcp_multiplex.Json.Dict
use mcp_multiplex.Exec.{
  Error, key_error, proxy_error, Result, ok, err, require, Action, pure, lift, raise, gets, reads,
  modify, Clock, ◌>>=◌, ◌>>◌,
}
use mcp_multiplex.Storage.{Database, FrontendSession, BackendSession}
use mcp_multiplex.Runtime.Frontend
use mcp_multiplex.Runtime.Backends
use mcp_multiplex.Runtime.Registry.{Registry, HttpBackendClient, close}

-- `MCPMultiplexHTTPServer`: the database and the registries; P is the type of a process handle.
pub record Server (P : Type 0) : Type 0 where
  pub db : Database
  pub stdio_backends : Registry P
  pub http_backends : Registry HttpBackendClient

-- The transport type of a catalog entry, where `CatalogStore.show` finds one.
abbrev pub Catalog : Type 0
Catalog = String → Option String

-- The transport type of a session's backend, if it has one.
unfoldable pub transport_of : Catalog → Option String → Database → Result (Option (String × String))
transport_of catalog none db = ok none
transport_of catalog (some backend_id) db = elim (Backends.show backend_id db) [
  | err e ↦ err e
  | ok b ↦ elim (catalog b.catalog_id) [
    | none ↦ err (key_error b.catalog_id)
    | some transport ↦ ok (some (backend_id, transport))
  ]
]

module _ {P : Type 0} where
  abbrev pub on_db : {A : Type 0} → Action Database A → Action (Server P) A
  on_db m s = let (r, db) = m s.db in (r, record s { db = db })

  -- `_close_backend`
  unfoldable pub close_backend : String → String → Server P → Server P
  close_backend transport backend_id s =
      if transport == "stdio"
      then record s { stdio_backends = close backend_id s.stdio_backends }
      else if elem transport ("streamable_http" ∷ "http" ∷ [])
      then record s { http_backends = close backend_id s.http_backends }
      else s

  -- `with suppress(KeyError): mark_stopped`
  unfoldable pub stop_quietly : Clock → String → Server P → Result (Unit {0}) × Server P
  stop_quietly c backend_id s =
      let (r, db) = Backends.mark_stopped c backend_id s.db in
      (elim r [ ok b ↦ ok tt | err (key_error k) ↦ ok tt | err e ↦ err e ], record s { db = db })

  -- The backend that a session leaves: it is closed when it was the last one.
  unfoldable pub leave_backend : Clock → Option (String × String) → Action (Server P) (Unit {0})
  leave_backend c none = pure tt
  leave_backend c (some (backend_id, transport)) = do
    after ← on_db (Backends.decrement_frontend_session_count c backend_id)
    elim (eqb after.frontend_session_count 0) [
      | true ↦ do modify (close_backend transport backend_id); stop_quietly c backend_id
      | false ↦ pure tt
    ]

  -- The body of `do_DELETE` under the lock, for a session of an allowed protocol version.
  unfoldable pub delete_session : Clock → Catalog → String → Action (Server P) (Unit {0})
  delete_session c catalog session_id = do
    session ← reads (λ s. Frontend.show session_id s.db)
    backend ← reads (λ s. transport_of catalog session.backend_id s.db)
    on_db (Frontend.delete session_id)
    leave_backend c backend
