-- ===== src/Planning.antt =====
-- planning/__init__.py: the kinds of dry-run plans, each from an observed entry.
pub mod Names
pub mod Kinds
pub mod Entries
pub mod Groups
pub mod Run
pub mod Store
pub mod Ingested
pub mod Matched
pub mod Gated
pub mod Planned
pub mod Refused
pub mod Stored
pub mod Frame
pub mod Dangling
mod Tests
use mcp_multiplex.Prelude.{
  String, Bool, true, false, List, [], ◌∷◌, ◌++◌, Option, none, some, if◌then◌else◌, ◌<>◌,
}
use mcp_multiplex.Json.{Json, Items, Fields, null, boolean, number, text, array, object, field, end}
use mcp_multiplex.Json.Canonical.{canonical}
use mcp_multiplex.Exec.{Result, ok, err, Sha256}
use mcp_multiplex.Schemas.{text_items, nullable}
use mcp_multiplex.Schemas.Observed.{ObservedEntry, filters_to_dict}
use mcp_multiplex.Schemas.Plan.{RemediationPlan, from_dict}
use Names.{plan_id}

abbrev pub hub_base_url : String
hub_base_url = "http://127.0.0.1:30000"

abbrev pub control_plane_catalog_id : String
control_plane_catalog_id = "srv_mcp_hub_control_plane"

-- `"\n".join(difflib.unified_diff(…))` of the lines of two objects as `json.dumps` with sorted
-- keys and an indentation of two prints them; the arguments are in canonical form.
pub record Differ : Type 0 where
  pub unified : Json → Json → String

unfoldable pub unified_json_diff : Differ → Fields → Fields → String
unified_json_diff d before after = d.unified (canonical (object before)) (canonical (object after))

pub record PlanPolicyDecision : Type 0 where
  pub auto_apply_allowed : Bool
  pub approval_required : Bool
  pub approval_reason : String
  pub reasons : List String
  pub dry_run_only : Bool

-- The decision of every kind of plan: not applied automatically, and approved first.
abbrev pub gated : String → List String → PlanPolicyDecision
gated reason reasons = record {
  auto_apply_allowed = false;
  approval_required = true;
  approval_reason = reason;
  reasons = reasons;
  dry_run_only = true;
}

-- The policy of a plan: the decision, the target, and the entry before and after.
unfoldable pub policy_dict : PlanPolicyDecision → String → Fields → Fields → Fields
policy_dict p target_path before after = field "auto_apply_allowed" (boolean p.auto_apply_allowed) (
    field "approval_required" (boolean p.approval_required) (
      field "approval_reason" (text p.approval_reason) (
        field "dry_run_only" (boolean p.dry_run_only) (
          field "reasons" (array (text_items p.reasons)) (
            field "target_path" (text target_path)
              (field "before" (object before) (field "after" (object after) end)))))))

-- The dict `risk` of a plan
unfoldable pub risk_dict : String → List String → String → String → Fields
risk_dict tier reasons verification rollback = field "tier" (text tier) (
    field "reasons" (array (text_items reasons))
      (field "verification" (text verification) (field "rollback" (text rollback) end)))

-- The arguments of `_build_plan`; of `risk`, its parts.
pub record BuildArgs : Type 0 where
  pub plan_type : String
  pub agent_id : String
  pub target_path : String
  pub observed_entry_id : String
  pub catalog_id : String
  pub expected_preimage_hash : String
  pub before : Fields
  pub after : Fields
  pub policy : PlanPolicyDecision
  pub tier : String
  pub risk_reasons : List String
  pub verification : String
  pub rollback : String
  pub created_at : String

unfoldable pub plan_payload : Sha256 → Differ → BuildArgs → Fields
plan_payload h d a = field "schema_version" (number "1") (
    field "plan_id"
      (text (
        plan_id h (
          a.plan_type ∷ a.agent_id ∷ a.target_path ∷ a.observed_entry_id ∷ a.catalog_id
          ∷ a.expected_preimage_hash ∷ [])))
      (field "plan_type" (text a.plan_type) (
        field "status" (text (if a.policy.approval_required then "pending_approval" else "draft")) (
          field "agent_id" (text a.agent_id) (
            field "target_path" (text a.target_path) (
              field "observed_entry_id" (text a.observed_entry_id) (
                field "catalog_id" (text a.catalog_id) (
                  field "policy" (object (policy_dict a.policy a.target_path a.before a.after)) (
                    field "diff"
                      (object (
                        field "format" (text "unified")
                          (field "text" (text (unified_json_diff d a.before a.after)) end)))
                      (field "expected_preimage_hash" (text a.expected_preimage_hash) (
                        field "rollback_strategy" (text a.rollback) (
                          field "risk"
                            (object (risk_dict a.tier a.risk_reasons a.verification a.rollback))
                            (field "created_at" (text a.created_at) end)))))))))))))

unfoldable pub build_plan : Sha256 → Differ → BuildArgs → Result RemediationPlan
build_plan h d a = from_dict (plan_payload h d a)

-- `_observed_projection`, with what a rewrite changes: the transport, the command with its
-- arguments, and the URL.
unfoldable pub projection :
    ObservedEntry → String → Option String → List String → Option String → Fields
projection o transport command args url = field "target_path" (text o.config_path) (
    field "container_path" (array (text_items o.container_path)) (
      field "mount_name" (text o.mount_name) (
        field "enabled" (boolean o.enabled) (
          field "transport" (text transport) (
            field "command" (nullable command) (
              field "args" (array (text_items args)) (
                field "url" (nullable url) (
                  field "headers_present" (array (text_items o.headers_present)) (
                    field "env_names" (array (text_items o.env_names)) (
                      field "cwd" (nullable o.cwd) (
                        field "tool_filters" (object (filters_to_dict o.tool_filters))
                          (field "approval_policy" (nullable o.approval_policy) end))))))))))))

unfoldable pub observed_projection : ObservedEntry → Fields
observed_projection o = projection o o.transport o.command o.args o.url
