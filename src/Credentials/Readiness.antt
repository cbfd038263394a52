-- ===== src/Credentials/Readiness.antt =====
-- credentials/__init__.py: the readiness of stored references, and what a backend is started with.
use mcp_multiplex.Prelude.{
  String, Bool, true, false, not, List, [], ◌∷◌, ◌++◌, Option, none, some, if◌then◌else◌, ◌==◌,
  ◌<>◌, text_or, elem, find_row, update_rows, take_text, sort_by, text_leb,
}
use mcp_multiplex.Json.{Fields, text, object, field, end}
use mcp_multiplex.Json.Canonical.{canonical, canonical_fields}
use mcp_multiplex.Exec.{
  Result, ok, err, and_then, credential_error, resolution_error, Action, pure, lift, reads,
  raise_if, modify, Sha256, Clock, ◌>>=◌, ◌>>◌,
}
use mcp_multiplex.Storage.{Database, CredentialRef}
use mcp_multiplex.Audit.{EventArgs, append}
use mcp_multiplex.Audit.Redact.{redact_fields}
use mcp_multiplex.Credentials.{readiness_states, with_id, show, list}
use mcp_multiplex.Credentials.Sources.{Sources, check, resolve}

abbrev credential_payload : CredentialRef → Fields
credential_payload c = field "credential_ref_id" (text c.credential_ref_id) (
    field "catalog_id" (text c.catalog_id) (
      field "name" (text c.name) (
        field "source_kind" (text c.source_kind) (
          field "source_ref" (text c.source_ref) (
            field "readiness_state" (text c.readiness_state)
              (field "metadata" (object c.metadata) end))))))

-- `_emit_credential_event`
unfoldable pub credential_event : Sha256 → Clock → CredentialRef → EventArgs
credential_event h k c = record {
  event_id =
      "evt_"
      <> take_text 24 (
          h.of_json (
            canonical (
              object (
                field "credential_ref_id" (text c.credential_ref_id) (
                  field "readiness_state" (text c.readiness_state)
                    (field "timestamp" (text k.now) (field "nonce" (text k.nonce) end)))))));
  event_type = "credential.readiness_checked";
  actor = "daemon";
  result = if c.readiness_state == "present" then "success" else "warning";
  payload = credential_payload c;
  agent_id = none;
  plan_id = none;
  target_path = none;
  before_hash = none;
  after_hash = none;
  backup_id = none;
  timestamp = some k.now;
}

-- `metadata or current.metadata`
abbrev metadata_or : Option Fields → Fields → Fields
metadata_or none current = current
metadata_or (some end) current = current
metadata_or (some (field k v fs)) current = field k v fs

-- UPDATE credential_refs SET …
unfoldable pub set_readiness : String → String → Fields → CredentialRef → CredentialRef
set_readiness state checked_at metadata c = record c {
  readiness_state = state;
  last_checked_at = some checked_at;
  metadata = canonical_fields metadata;
}

unfoldable pub store_readiness :
    Clock → String → String → Option Fields → Option String → CredentialRef → Database → Database
store_readiness k id state metadata checked_at current db = record db {
  credential_refs =
      update_rows (with_id id)
        (set_readiness state (text_or checked_at k.now)
          (redact_fields (metadata_or metadata current.metadata)))
        db.credential_refs;
}

unfoldable pub emit : Sha256 → Clock → Bool → CredentialRef → Action Database CredentialRef
emit h k emit_event c = elim emit_event [
  | false ↦ pure c
  | true ↦ do append h k (credential_event h k c); pure c
]

unfoldable pub update_readiness :
    Sha256
    → Clock
    → (id readiness_state : String) → (metadata : Option Fields) → (checked_at : Option String)
    → (emit_event : Bool) → Action Database CredentialRef
update_readiness h k id state metadata checked_at emit_event = do
  raise_if (not (elem state readiness_states))
      (credential_error ("unsupported credential readiness state: " <> state))
  current ← reads (show id)
  modify (store_readiness k id state metadata checked_at current)
  credential ← reads (show id)
  emit h k emit_event credential

unfoldable pub check_readiness :
    Sha256
    → Clock
    → Sources
    → (id : String) → (checked_at : Option String) → (emit_event : Bool)
    → Action Database CredentialRef
check_readiness h k s id checked_at emit_event = do
  credential ← reads (show id)
  result ← lift (check s credential)
  update_readiness h k id result.readiness_state (some result.metadata) checked_at emit_event

pub record ResolvedCredentials : Type 0 where
  pub env : List (String × String)
  pub resolved_names : List String

-- The values that were found, and the names that no reference has.
pub record Resolution : Type 0 where
  pub resolved : List (String × String)
  pub missing : List String

-- `resolved[name] = value`: a name that is there keeps its place.
abbrev pub put_env : String → String → List (String × String) → List (String × String)
put_env name value [] = (name, value) ∷ []
put_env name value ((n, v) ∷ env) =
    let rest = put_env name value env in if n == name then (name, value) ∷ env else (n, v) ∷ rest

-- The reference of a name; names are unique in a catalog entry.
abbrev pub named : String → CredentialRef → Bool
named name c = c.name == name

unfoldable pub resolve_each :
    Sources → List CredentialRef → Resolution → List String → Result Resolution
resolve_each s credentials r [] = ok r
resolve_each s credentials r (name ∷ names) = elim (find_row (named name) credentials) [
  | none ↦ resolve_each s credentials (record r { missing = r.missing ++ name ∷ [] }) names
  | some c ↦ and_then (resolve s c) λ value.
      resolve_each s credentials (record r { resolved = put_env name value r.resolved }) names
]

unfoldable pub joined : List String → String
joined [] = ""
joined (s ∷ []) = s
joined (s ∷ t ∷ ss) = s <> ", " <> joined (t ∷ ss)

abbrev pub all_found : List String → Resolution → Result ResolvedCredentials
all_found names r = elim r.missing [
  | [] ↦ ok (record { env = r.resolved; resolved_names = names })
  | m ∷ ms ↦ err (
      resolution_error
        ("required credentials are not configured: " <> joined (sort_by text_leb (m ∷ ms))))
]

unfoldable pub resolve_for_backend_startup :
    Sources → String → List String → Database → Result ResolvedCredentials
resolve_for_backend_startup s catalog_id names db =
    and_then (list (some catalog_id) db) λ credentials.
      and_then (resolve_each s credentials (record { resolved = []; missing = [] }) names)
        (all_found names)

-- The item of a reference in the summary, with a code where it is not ready.
abbrev summary_item : CredentialRef → Fields → Fields
summary_item c code = field "credential_ref_id" (text c.credential_ref_id) (
    field "catalog_id" (text c.catalog_id) (
      field "name" (text c.name) (
        field "source_kind" (text c.source_kind)
          (field "readiness_state" (text c.readiness_state) code))))

pub record CredentialReadinessSummary : Type 0 where
  pub healthy : Bool
  pub blockers : List Fields
  pub warnings : List Fields
  pub notices : List Fields

unfoldable pub is_ready : CredentialRef → Bool
is_ready c = c.readiness_state == "present"

-- The items of the references that satisfy a test, in their order.
unfoldable pub items_where : (CredentialRef → Bool) → Fields → List CredentialRef → List Fields
items_where p code [] = []
items_where p code (c ∷ cs) =
    let rest = items_where p code cs in if p c then summary_item c code ∷ rest else rest

abbrev pub blocks : List String → CredentialRef → Bool
blocks active c = if is_ready c then false else elem c.catalog_id active

abbrev pub warns : List String → CredentialRef → Bool
warns active c = if is_ready c then false else not (elem c.catalog_id active)

abbrev no_items : List Fields → Bool
no_items [] = true
no_items (i ∷ items) = false

unfoldable pub readiness_summary : List CredentialRef → List String → CredentialReadinessSummary
readiness_summary credentials active = record {
  healthy = no_items (
      items_where (blocks active) (field "code" (text "missing_active_credential") end)
        credentials);
  blockers =
      items_where (blocks active) (field "code" (text "missing_active_credential") end) credentials;
  warnings =
      items_where (warns active) (field "code" (text "dormant_credential_not_ready") end)
        credentials;
  notices = items_where is_ready end credentials;
}
