-- ===== src/Lib.antt =====
-- MCP Multiplex: a local daemon through which coding agents share MCP servers, with a catalog of
-- servers, approvals of changes to the agents' configuration, and an audit log.
--
-- The program's parts keep their state in one SQLite database. Storage.antt has its tables as
-- lists of rows; a method of a store is an action on the database that returns or raises, and
-- what was committed before it raised stays (Exec.antt). JSON values, their canonical form and
-- `dict` are Json.antt, texts and SQL statements over rows Prelude.antt.
--
-- - Audit.antt: src/mcp_multiplex/observability/audit.py, the append-only log of events.
--   `append`, `query`, `latest_event_hash` and `validate_hash_chain` are methods of EventStore;
--   Audit/Redact.antt has `redact_secrets`. A JSON column is kept as its value in canonical form.
-- - Approvals.antt: src/mcp_multiplex/approvals/__init__.py, ApprovalStore. Approvals/Decide.antt
--   has `decide`, which is `_decide`, as `approve` and `reject` call it; it appends to the audit log.
-- - Auth.antt: src/mcp_multiplex/auth/__init__.py, AuthTokenStore. Auth/Local.antt has the local
--   tokens, Auth/Registration.antt the registration tokens and their exchange. `datetime` reads an
--   ISO timestamp through the parameter Exec.Calendar.
-- - Apply.antt: src/mcp_multiplex/apply/__init__.py. The state is the database with the files.
--   Apply/Backups.antt has ConfigBackupStore and `rollback_backup`, Apply/Run.antt `apply_plan`,
--   its `try` and `except` as `attempt` and `recover`, Apply/Auto.antt `evaluate_auto_apply`, and
--   Apply/Auto/Authorize.antt `auto_apply_plan`. What the adapters do with a configuration's
--   text is the parameter Apply.Format, and which writes succeed Apply.Disk; a write that fails
--   changes nothing. The validator of an apply reads the target only.
-- - Watchers.antt: src/mcp_multiplex/observability/watchers.py, PollingAuditWatcher; `observe` is the
--   body of the loop of `_stable_changed_targets`. Times are whole ticks.
-- - Runtime.antt: src/mcp_multiplex/runtime/__init__.py. Runtime/Frontend.antt and
--   Runtime/Backends.antt are the two stores, Runtime/Pool.antt `runtime_pool_key`,
--   Runtime/Rewrite.antt the ids of forwarded requests, Runtime/Registry.antt the registries of
--   handles of running backends.
-- - Daemon.antt: src/mcp_multiplex/daemon/__init__.py, what the handler of DELETE does under the
--   lock with the two stores and the registries, and in Daemon/Reuse.antt `_reuse_backend`. The
--   transport of a catalog entry is a parameter.
-- - Security.antt, Schemas.antt, Health.antt: src/mcp_multiplex/security/__init__.py,
--   schemas/models.py and health.py. A validator is a function of a JSON object; each child of
--   Schemas has the classes of one area with their `from_dict` and `to_dict`. urllib, `str.lower` and
--   `str` of a value that is no text are the parameter Security.Urls.
-- - Catalog.antt: src/mcp_multiplex/catalog/__init__.py, CatalogStore with its three tables;
--   Catalog/Routable.antt `validate_routable_catalog_entry`, Catalog/Matching.antt and
--   Catalog/Candidates.antt the modules matching.py and candidates.py.
-- - ConfigAudit.antt: src/mcp_multiplex/observability/config_audit.py, the store of observed entries
--   and the events of a run; ConfigAudit/Classify.antt the classification and the health.
-- - Credentials.antt: src/mcp_multiplex/credentials/__init__.py, CredentialRefStore and what a reference
--   must be; Credentials/Dotenv.antt parses a .env file, Credentials/Sources.antt has the checker and
--   the resolver, Credentials/Readiness.antt the operations of the store that use them.
-- - Planning.antt: src/mcp_multiplex/planning/__init__.py. Planning/Kinds.antt has the four
--   generators, Planning/Entries.antt what is planned for an entry, Planning/Groups.antt the
--   configurations without the control plane, Planning/Run.antt `plan_self_healing_dry_run`, and
--   Planning/Store.antt the command `audit plan` of src/mcp_multiplex/cli/__init__.py from the parsed
--   entries on. What `difflib` and `json.dumps` print is the parameter Planning.Differ.
--
-- SHA-256 and the clock with its fresh ids are parameters (Exec.Sha256, Exec.Clock); what is said
-- of digests has as a hypothesis that the digests at hand differ. A call reads the clock once.
-- There is no fuel: every loop runs over a list or a number. Tables are read and written by one connection
-- under the daemon's lock, so calls are sequences of actions.
--
-- Not modelled: processes, pipes and HTTP, the file system, the rest of the command line, the terminal
-- interface, the control server, the agents' adapters, installation and services, the certification harnesses.
pub mod Prelude
pub mod Exec
pub mod Json
pub mod Storage
pub mod Samples
pub mod Security
pub mod Schemas
pub mod Health
pub mod Catalog
pub mod Audit
pub mod ConfigAudit
pub mod Credentials
pub mod Approvals
pub mod Auth
pub mod Planning
pub mod Apply
pub mod Watchers
pub mod Runtime
pub mod Daemon
