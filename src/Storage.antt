-- ===== src/Storage.antt =====
-- The tables of storage/migrations/0001_core_tables.sql that the modelled packages read and write,
-- as lists of rows in insertion order. A JSON column is the value that `json.loads` returns.
use mcp_multiplex.Prelude.{String, ℕ, Bool, Option, List, [], ◌==◌, none, some, has_row, true}
use mcp_multiplex.Json.{Json, Fields}
use mcp_multiplex.Schemas.Observed.{ObservedEntry}
use mcp_multiplex.Schemas.Catalog.{CatalogEntry}
use mcp_multiplex.Schemas.Candidate.{CatalogCandidate}

-- table agents
pub record AgentRow : Type 0 where
  pub agent_id : String
  pub agent_kind : String
  pub auth_token_ref : Option String
  pub certification_level : String
  pub last_seen_at : Option String

-- adapters.registry.AgentConfigPath, with the agent that a row of agent_config_paths is of
pub record AgentConfigPath : Type 0 where
  pub agent_id : String
  pub path : String
  pub precedence : ℕ
  pub is_project_shared : Bool

-- table remediation_plans
pub record PlanRow : Type 0 where
  pub plan_id : String
  pub plan_type : String
  pub status : String
  pub agent_id : Option String
  pub target_path : Option String
  pub observed_entry_id : Option String
  pub policy : Fields
  pub expected_preimage_hash : Option String
  pub updated_at : String

-- schemas.Approval, which is also the row of the table approvals
pub record Approval : Type 0 where
  pub approval_id : String
  pub schema_version : ℕ
  pub plan_id : String
  pub state : String
  pub actor : String
  pub channel : String
  pub created_at : String
  pub expires_at : Option String
  pub decision_at : Option String
  pub comment : Option String

-- apply.ConfigBackup, the row of config_backups
pub record ConfigBackup : Type 0 where
  pub backup_id : String
  pub plan_id : String
  pub target_path : String
  pub backup_path : String
  pub before_hash : String
  pub bytes : ℕ
  pub created_at : String
  pub restored_at : Option String

-- schemas.AuditEvent with its payload, the row of events
pub record EventRow : Type 0 where
  pub event_id : String
  pub event_type : String
  pub actor : String
  pub agent_id : Option String
  pub plan_id : Option String
  pub target_path : Option String
  pub before_hash : Option String
  pub after_hash : Option String
  pub backup_id : Option String
  pub result : String
  pub redaction : String
  pub payload : Json
  pub previous_event_hash : Option String
  pub event_hash : String
  pub timestamp : String

-- runtime.FrontendSession, the row of runtime_frontend_sessions
pub record FrontendSession : Type 0 where
  pub frontend_session_id : String
  pub backend_id : Option String
  pub agent_id : Option String
  pub server_name : String
  pub workspace_root : Option String
  pub protocol_version : Option String
  pub created_at : String
  pub last_seen_at : Option String

-- runtime.BackendSession, the row of runtime_backends
pub record BackendSession : Type 0 where
  pub backend_id : String
  pub catalog_id : String
  pub runtime_pool_key : String
  pub state : String
  pub pid : Option ℕ
  pub account_scope : Option String
  pub workspace_root : Option String
  pub backend_initialize_count : ℕ
  pub frontend_session_count : ℕ
  pub initialize_result_json : Option Json
  pub created_at : String
  pub last_used_at : Option String

-- auth.AuthTokenRecord with its hash, the row of auth_tokens
pub record AuthTokenRow : Type 0 where
  pub token_id : String
  pub token_hash : String
  pub subject_type : String
  pub subject_id : Option String
  pub scopes : List String
  pub token_ref : String
  pub created_at : String
  pub expires_at : Option String
  pub last_used_at : Option String
  pub revoked_at : Option String

-- auth.RegistrationTokenRecord with its hash, the row of agent_registration_tokens
pub record RegistrationTokenRow : Type 0 where
  pub registration_token_id : String
  pub token_hash : String
  pub agent_id : String
  pub agent_kind : String
  pub scopes : List String
  pub token_ref : String
  pub created_at : String
  pub expires_at : Option String
  pub consumed_at : Option String
  pub revoked_at : Option String

-- table observed_entries: its columns are the fields of the entry
pub record ObservedRow : Type 0 where
  pub entry : ObservedEntry
  pub last_seen_at : String

-- table catalog_entries: its columns are the fields of the entry but for the aliases and the
-- provenance, which are empty here
pub record CatalogRow : Type 0 where
  pub entry : CatalogEntry
  pub updated_at : String

-- table catalog_aliases
pub record AliasRow : Type 0 where
  pub alias_id : String
  pub catalog_id : String
  pub alias : String

-- table catalog_provenance
pub record ProvenanceRow : Type 0 where
  pub provenance_id : String
  pub catalog_id : String
  pub source : String
  pub source_ref : Option String
  pub observed_entry_id : Option String
  pub metadata : Json

-- table catalog_candidates
pub record CandidateRow : Type 0 where
  pub candidate : CatalogCandidate
  pub updated_at : String

-- credentials.CredentialRef, and the table credential_refs
pub record CredentialRef : Type 0 where
  pub credential_ref_id : String
  pub catalog_id : String
  pub name : String
  pub source_kind : String
  pub source_ref : String
  pub readiness_state : String
  pub last_checked_at : Option String
  pub metadata : Fields

pub record Database : Type 0 where
  pub agents : List AgentRow
  pub config_paths : List AgentConfigPath
  pub catalog_entries : List CatalogRow
  pub catalog_aliases : List AliasRow
  pub catalog_provenance : List ProvenanceRow
  pub catalog_candidates : List CandidateRow
  pub credential_refs : List CredentialRef
  pub observed_entries : List ObservedRow
  pub plans : List PlanRow
  pub approvals : List Approval
  pub backups : List ConfigBackup
  pub events : List EventRow
  pub frontend_sessions : List FrontendSession
  pub backends : List BackendSession
  pub auth_tokens : List AuthTokenRow
  pub registration_tokens : List RegistrationTokenRow

-- The database after the migration.
abbrev pub empty_database : Database
empty_database = record {
  agents = [];
  config_paths = [];
  catalog_entries = [];
  catalog_aliases = [];
  catalog_provenance = [];
  catalog_candidates = [];
  credential_refs = [];
  observed_entries = [];
  plans = [];
  approvals = [];
  backups = [];
  events = [];
  frontend_sessions = [];
  backends = [];
  auth_tokens = [];
  registration_tokens = [];
}

-- What a nullable foreign key asks: NULL, or a row of the table it references.
abbrev pub refers {ℓ} : {R : Type ℓ} → (R → String) → Option String → List R → Bool
refers key none rows = true
refers key (some k) rows = has_row (λ r. key r == k) rows
