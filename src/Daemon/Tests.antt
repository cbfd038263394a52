-- ===== src/Daemon/Tests.antt =====
-- The end of the one session of a stdio backend, and a second session that joins it.
use mcp_multiplex.Prelude.{ℕ, String, [], ◌∷◌, none, some, ◌≡◌, refl}
use mcp_multiplex.Json.{Fields, object, field, number, text, end}
use mcp_multiplex.Exec.{key_error, ok, err}
use mcp_multiplex.Storage.{Database, FrontendSession, BackendSession}
use mcp_multiplex.Samples.{sample_clock, sample_database}
use mcp_multiplex.Runtime.Frontend
use mcp_multiplex.Runtime.Backends
use mcp_multiplex.Runtime.Registry.{close}
use mcp_multiplex.Daemon.{
  Server, Catalog, close_backend, transport_of, stop_quietly, leave_backend, delete_session,
}
use mcp_multiplex.Daemon.Reuse.{join_backend, reuse_backend, Joins, reuse_backend-Joins}
use mcp_multiplex.Daemon.Detach.{EndsBackend, last_session_closes}

abbrev session : FrontendSession
session = record {
  frontend_session_id = "fs_1";
  backend_id = some "be_1";
  agent_id = none;
  server_name = "fs";
  workspace_root = none;
  protocol_version = none;
  created_at = "2026-01-02T03:04:05Z";
  last_seen_at = none;
}

abbrev backend : BackendSession
backend = record {
  backend_id = "be_1";
  catalog_id = "cat_1";
  runtime_pool_key = "global:catalog:cat_1";
  state = "hot";
  pid = some 41;
  account_scope = none;
  workspace_root = none;
  backend_initialize_count = 1;
  frontend_session_count = 1;
  initialize_result_json = some (object (field "result" (text "ready") end));
  created_at = "2026-01-02T03:04:05Z";
  last_used_at = none;
}

-- A process handle is its pid.
abbrev server : Server ℕ
server = record {
  db = record sample_database { frontend_sessions = session ∷ []; backends = backend ∷ [] };
  stdio_backends = record { handles = ("be_1", 41) ∷ []; closed = [] };
  http_backends = record { handles = []; closed = [] };
}

abbrev catalog : Catalog
catalog id = some "stdio"

closed_run : (delete_session sample_clock catalog "fs_1" server).1.stdio_backends.closed ≡ 41 ∷ []
unfolding Frontend.show Frontend.delete Backends.show Backends.update
    Backends.decrement_frontend_session_count Backends.mark_stopped close close_backend transport_of
    stop_quietly leave_backend delete_session
closed_run = refl

last_session_closes_example :
    let r = delete_session sample_clock catalog "fs_1" server in
    EndsBackend sample_clock "be_1" backend server r
    × (Frontend.show "fs_1" r.1.db ≡ err (key_error "fs_1"))
last_session_closes_example =
    last_session_closes sample_clock catalog "fs_1" "be_1" session backend server
      (unfold Frontend.show in refl) refl (unfold Backends.show in refl) refl refl

-- A second session, which has no backend yet.
abbrev waiting : Database
waiting = record server.db {
  frontend_sessions =
      session ∷ record session { frontend_session_id = "fs_2"; backend_id = none } ∷ [];
}

abbrev request : Fields
request = field "id" (number "7") end

reuse_run :
    (reuse_backend sample_clock "fs_2" "global:catalog:cat_1" request waiting).0
    ≡ ok (some (field "result" (text "ready") (field "id" (number "7") end)))
unfolding Frontend.show Frontend.update Frontend.attach_backend Backends.show Backends.update
    Backends.increment_frontend_session_count Backends.find_hot_by_pool join_backend reuse_backend
reuse_run = refl

reuse_backend-Joins_example :
    (catalog_id : String) × (b : BackendSession) × (Backends.find_hot_by_pool catalog_id
        "global:catalog:cat_1" waiting
      ≡ ok (some b))
    × Joins "fs_2" b request
        (field "result" (text "ready") (field "id" (number "7") end))
        (reuse_backend sample_clock "fs_2" "global:catalog:cat_1" request waiting).1
reuse_backend-Joins_example =
    reuse_backend-Joins sample_clock "fs_2" "global:catalog:cat_1" request
      (field "result" (text "ready") (field "id" (number "7") end)) waiting reuse_run
