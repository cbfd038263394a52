-- ===== src/Health/RoundTrip.antt =====
-- A health payload of consistent parts is read back from its dict.
use mcp_multiplex.Prelude.{
  ℕ, String, true, false, not, ◌&&◌, List, [], ◌∷◌, Option, none, some, ◌≡◌, refl, arith, truthy,
  elem, eqb, leb, length, All,
}
use mcp_multiplex.Exec.{ok}
use mcp_multiplex.Schemas.{
  ◌>>=◌, ◌>>◌, invalid_if, string_value, require_int, health_areas, reject_unknown_keys, bool_value,
  object_value, list_value, optional_value, version_of,
}
use mcp_multiplex.Schemas.Values.{string-text, enum-elem, int-decimal, at_least-le}
use mcp_multiplex.Schemas.Health.{
  HealthIssue, HealthSummary, HealthPayload, issue_from_dict, issues_from_list, summary_from_dict,
  from_dict,
}
use mcp_multiplex.Health.{issue_dict, issue_items, summary_dict, payload_dict}

pub record IsIssue (i : HealthIssue) : Type 0 where
  pub area : truthy i.area ≡ true
  pub area_known : elem i.area health_areas ≡ true
  pub code : truthy i.code ≡ true
  pub detail : truthy i.detail ≡ true

issue-fields :
    (area code detail : String) (agent server : Option String)
    → let i : HealthIssue = record {
      area = area;
      code = code;
      detail = detail;
      agent_id = agent;
      server = server;
    } in
      IsIssue i → issue_from_dict (issue_dict i) ≡ ok i
unfolding ◌>>=◌ ◌>>◌ issue_from_dict issue_dict reject_unknown_keys optional_value
issue-fields area code detail none none v = rw (
  string-text "area" area v.area,
  enum-elem "area" area health_areas v.area_known,
  string-text "code" code v.code,
  string-text "detail" detail v.detail,
)
issue-fields area code detail none (some s) v = rw (
  string-text "area" area v.area,
  enum-elem "area" area health_areas v.area_known,
  string-text "code" code v.code,
  string-text "detail" detail v.detail,
)
issue-fields area code detail (some a) none v = rw (
  string-text "area" area v.area,
  enum-elem "area" area health_areas v.area_known,
  string-text "code" code v.code,
  string-text "detail" detail v.detail,
)
issue-fields area code detail (some a) (some s) v = rw (
  string-text "area" area v.area,
  enum-elem "area" area health_areas v.area_known,
  string-text "code" code v.code,
  string-text "detail" detail v.detail,
)

issues-items :
    (issues : List HealthIssue)
    → All IsIssue issues
    → issues_from_list (issue_items issues) ≡ ok issues
unfolding ◌>>=◌ issues_from_list issue_items
issues-items [] all = refl
issues-items (i ∷ issues) all =
    rw (issue-fields i.area i.code i.detail i.agent_id i.server all.0, issues-items issues all.1)

leb_zero : (n : ℕ) → leb 0 n ≡ true
leb_zero n = ground arith

summary-dict : (s : HealthSummary) → summary_from_dict (summary_dict s) ≡ ok s
unfolding ◌>>=◌ ◌>>◌ summary_from_dict summary_dict reject_unknown_keys require_int
summary-dict s = rw (
  int-decimal "agents" s.agents,
  at_least-le "agents" 0 s.agents (leb_zero s.agents),
  int-decimal "blockers" s.blockers,
  at_least-le "blockers" 0 s.blockers (leb_zero s.blockers),
  int-decimal "warnings" s.warnings,
  at_least-le "warnings" 0 s.warnings (leb_zero s.warnings),
  int-decimal "notices" s.notices,
  at_least-le "notices" 0 s.notices (leb_zero s.notices),
  int-decimal "active_servers" s.active_servers,
  at_least-le "active_servers" 0 s.active_servers (leb_zero s.active_servers),
  int-decimal "hot_backends" s.hot_backends,
  at_least-le "hot_backends" 0 s.hot_backends (leb_zero s.hot_backends),
  int-decimal "pending_approvals" s.pending_approvals,
  at_least-le "pending_approvals" 0 s.pending_approvals (leb_zero s.pending_approvals),
)

-- The counts of the summary are those of the issues, and a payload that is ok has no blockers.
pub record IsConsistent (p : HealthPayload) : Type 0 where
  pub version : p.schema_version ≡ 1
  pub blockers : All IsIssue p.blockers
  pub warnings : All IsIssue p.warnings
  pub notices : All IsIssue p.notices
  pub count_blockers : eqb p.summary.blockers (length p.blockers) ≡ true
  pub count_warnings : eqb p.summary.warnings (length p.warnings) ≡ true
  pub count_notices : eqb p.summary.notices (length p.notices) ≡ true
  pub no_blockers : (p.healthy && not (eqb (length p.blockers) 0)) ≡ false

pub payload-dict : (p : HealthPayload) → IsConsistent p → from_dict (payload_dict p) ≡ ok p
unfolding ◌>>=◌ ◌>>◌ invalid_if from_dict payload_dict reject_unknown_keys bool_value object_value
    list_value version_of string_value
payload-dict p v = rw (
  int-decimal "schema_version" p.schema_version,
  v.version,
  summary-dict p.summary,
  issues-items p.blockers v.blockers,
  issues-items p.warnings v.warnings,
  issues-items p.notices v.notices,
  v.count_blockers,
  v.count_warnings,
  v.count_notices,
  v.no_blockers,
)
