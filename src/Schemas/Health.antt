-- ===== src/Schemas/Health.antt =====
-- schemas/models.py: HealthPayload with its issues and its summary.
use mcp_multiplex.Prelude.{ℕ, String, Bool, not, ◌&&◌, List, [], ◌∷◌, Option, ◌==◌, eqb, length}
use mcp_multiplex.Json.{Items, Fields, nil, cons, object}
use mcp_multiplex.Json.Dict
use mcp_multiplex.Exec.{Result, ok, err, and_then, python_error}
use mcp_multiplex.Schemas.{
  ◌>>=◌, ◌>>◌, invalid_if, health_areas, require_string, optional_string, require_bool, require_int,
  require_schema_version, list_value, require_object, require_enum, reject_unknown_keys,
}

pub record HealthIssue : Type 0 where
  pub area : String
  pub code : String
  pub detail : String
  pub agent_id : Option String
  pub server : Option String

pub record HealthSummary : Type 0 where
  pub agents : ℕ
  pub blockers : ℕ
  pub warnings : ℕ
  pub notices : ℕ
  pub active_servers : ℕ
  pub hot_backends : ℕ
  pub pending_approvals : ℕ

pub record HealthPayload : Type 0 where
  pub schema_version : ℕ
  pub healthy : Bool
  pub summary : HealthSummary
  pub blockers : List HealthIssue
  pub warnings : List HealthIssue
  pub notices : List HealthIssue

unfoldable pub issue_from_dict : Fields → Result HealthIssue
issue_from_dict payload = do
  reject_unknown_keys "HealthIssue"
      ("schema_version" ∷ "area" ∷ "code" ∷ "detail" ∷ "agent_id" ∷ "server" ∷ []) payload
  area ← require_enum payload "area" health_areas
  code ← require_string payload "code"
  detail ← require_string payload "detail"
  agent_id ← optional_string payload "agent_id"
  server ← optional_string payload "server"
  ok (record { area = area; code = code; detail = detail; agent_id = agent_id; server = server })

-- `[HealthIssue.from_dict(item) for item in items]`; an item that is no dict raises.
unfoldable pub issues_from_list : Items → Result (List HealthIssue)
issues_from_list nil = ok []
issues_from_list (cons (object fs) items) = do
  issue ← issue_from_dict fs
  rest ← issues_from_list items
  ok (issue ∷ rest)
issues_from_list (cons item items) = err python_error

unfoldable pub summary_from_dict : Fields → Result HealthSummary
summary_from_dict payload = do
  reject_unknown_keys "HealthSummary"
      ("schema_version" ∷ "agents" ∷ "blockers" ∷ "warnings" ∷ "notices" ∷ "active_servers"
        ∷ "hot_backends" ∷ "pending_approvals" ∷ [])
      payload
  agents ← require_int payload "agents" 0
  blockers ← require_int payload "blockers" 0
  warnings ← require_int payload "warnings" 0
  notices ← require_int payload "notices" 0
  active_servers ← require_int payload "active_servers" 0
  hot_backends ← require_int payload "hot_backends" 0
  pending_approvals ← require_int payload "pending_approvals" 0
  ok (record {
    agents = agents;
    blockers = blockers;
    warnings = warnings;
    notices = notices;
    active_servers = active_servers;
    hot_backends = hot_backends;
    pending_approvals = pending_approvals;
  })

unfoldable pub from_dict : Fields → Result HealthPayload
from_dict payload = do
  reject_unknown_keys "HealthPayload"
      ("schema_version" ∷ "kind" ∷ "ok" ∷ "summary" ∷ "blockers" ∷ "warnings" ∷ "notices" ∷ [])
      payload
  schema_version ← require_schema_version (Dict.get "schema_version" payload)
  kind ← require_string payload "kind"
  invalid_if (not (kind == "MCPMultiplexHealth")) "kind must be MCPMultiplexHealth"
  healthy ← require_bool payload "ok"
  summary ← and_then (require_object payload "summary") summary_from_dict
  blockers ← and_then (list_value "blockers" (Dict.get "blockers" payload)) issues_from_list
  warnings ← and_then (list_value "warnings" (Dict.get "warnings" payload)) issues_from_list
  notices ← and_then (list_value "notices" (Dict.get "notices" payload)) issues_from_list
  invalid_if (not (eqb summary.blockers (length blockers)))
      "summary.blockers must match blockers length"
  invalid_if (not (eqb summary.warnings (length warnings)))
      "summary.warnings must match warnings length"
  invalid_if (not (eqb summary.notices (length notices)))
      "summary.notices must match notices length"
  invalid_if (healthy && not (eqb (length blockers) 0)) "ok health payloads cannot contain blockers"
  ok (record {
    schema_version = schema_version;
    healthy = healthy;
    summary = summary;
    blockers = blockers;
    warnings = warnings;
    notices = notices;
  })
