-- ===== src/Runtime/Frontend.antt =====
-- `RuntimeFrontendSessionStore` of runtime/__init__.py.
use mcp_multiplex.Prelude.{
  String, Bool, true, not, ◌&&◌, List, [], ◌∷◌, ◌++◌, Option, none, some, if◌then◌else◌, ◌==◌, ◌<>◌,
  text_or, has_row, find_row, select_rows, update_rows, delete_rows, sort_by, text_leb, take_text,
}
use mcp_multiplex.Exec.{
  key_error, integrity_error, Result, ok, err, and_then, require, refuse_if, Action, lift, reads,
  gets, modify, transaction, Sha256, Clock, ◌>>=◌, ◌>>◌,
}
use mcp_multiplex.Storage.{Database, FrontendSession, BackendSession, AgentRow, refers}

unfoldable pub show : String → Database → Result FrontendSession
show id db =
    require (find_row (λ (s : FrontendSession). s.frontend_session_id == id) db.frontend_sessions)
      (key_error id)

unfoldable pub new_frontend_session_id : Sha256 → Clock → String
new_frontend_session_id h c = "fs_" <> take_text 24 (h.of_text c.nonce)

-- The session that `create` inserts.
abbrev pub new_session :
    Sha256
    → Clock
    → String
    → (agent_id workspace_root protocol_version created_at frontend_session_id : Option String)
    → FrontendSession
new_session h c server_name agent_id workspace_root protocol_version created_at id = record {
  frontend_session_id = text_or id (new_frontend_session_id h c);
  backend_id = none;
  agent_id = agent_id;
  server_name = server_name;
  workspace_root = workspace_root;
  protocol_version = protocol_version;
  created_at = text_or created_at c.now;
  last_seen_at = some (text_or created_at c.now);
}

-- INSERT, with the primary key and the foreign key to agents
unfoldable pub insert : FrontendSession → Database → Result (Unit {0} × Database)
insert s db =
    if not (
        has_row (λ (t : FrontendSession). t.frontend_session_id == s.frontend_session_id)
          db.frontend_sessions)
      && refers (λ (x : AgentRow). x.agent_id) s.agent_id db.agents
    then ok (tt, record db { frontend_sessions = db.frontend_sessions ++ s ∷ [] })
    else err integrity_error

unfoldable pub create : FrontendSession → Action Database FrontendSession
create s = do transaction (insert s); reads (show s.frontend_session_id)

-- UPDATE … WHERE frontend_session_id = ?, a KeyError where no row was updated, and `show`
unfoldable pub update :
    String → (FrontendSession → FrontendSession) → Action Database FrontendSession
update id set = do
  updated ← gets (λ (db : Database).
      has_row (λ (s : FrontendSession). s.frontend_session_id == id) db.frontend_sessions)
  modify (λ db. record db {
    frontend_sessions =
        update_rows (λ (s : FrontendSession). s.frontend_session_id == id) set db.frontend_sessions;
  })
  lift (refuse_if (not updated) (key_error id))
  reads (show id)

-- The foreign key of `backend_id` is checked for the row that is updated.
unfoldable pub attach_backend : Clock → String → String → Action Database FrontendSession
attach_backend c id backend_id = do
  found ← gets (λ (db : Database).
      has_row (λ (s : FrontendSession). s.frontend_session_id == id) db.frontend_sessions)
  known ←
      gets (λ (db : Database).
        has_row (λ (b : BackendSession). b.backend_id == backend_id) db.backends)
  lift (refuse_if (found && not known) integrity_error)
  update id (λ s. record s { backend_id = some backend_id; last_seen_at = some c.now })

unfoldable pub touch : Clock → String → Option String → Action Database FrontendSession
touch c id last_seen_at =
    update id (λ s. record s { last_seen_at = some (text_or last_seen_at c.now) })

unfoldable pub delete : String → Action Database (Unit {0})
delete id = do
  deleted ← gets (λ (db : Database).
      has_row (λ (s : FrontendSession). s.frontend_session_id == id) db.frontend_sessions)
  modify (λ db. record db {
    frontend_sessions =
        delete_rows (λ (s : FrontendSession). s.frontend_session_id == id) db.frontend_sessions;
  })
  lift (refuse_if (not deleted) (key_error id))

abbrev earlier : FrontendSession → FrontendSession → Bool
earlier a b =
    if a.created_at == b.created_at
    then text_leb a.frontend_session_id b.frontend_session_id
    else text_leb a.created_at b.created_at

abbrev of_server : Option String → FrontendSession → Bool
of_server none s = true
of_server (some name) s = s.server_name == name

show_all : List FrontendSession → Database → Result (List FrontendSession)
show_all [] db = ok []
show_all (s ∷ rows) db =
    and_then (show s.frontend_session_id db) λ t. and_then (show_all rows db) λ rest. ok (t ∷ rest)

unfoldable pub list : Option String → Database → Result (List FrontendSession)
unfolding show_all
list server_name db =
    show_all (sort_by earlier (select_rows (of_server server_name) db.frontend_sessions)) db
