-- ===== src/Schemas/Plan.antt =====
-- schemas/models.py: RemediationPlan with its diff.
use mcp_multiplex.Prelude.{ℕ, String, Bool, false, not, ◌&&◌, List, [], ◌∷◌, Option, some}
use mcp_multiplex.Json.{Json, Fields, boolean, text, object, end, field}
use mcp_multiplex.Json.Dict
use mcp_multiplex.Json.Value.{is_true}
use mcp_multiplex.Exec.{Result, ok, and_then}
use mcp_multiplex.Schemas.{
  ◌>>=◌, ◌>>◌, invalid_if, plan_types, plan_statuses, require_string, require_schema_version,
  require_object, require_enum, require_id, reject_unknown_keys, int_json,
}

pub record DiffPayload : Type 0 where
  pub format : String
  pub text : String

pub record RemediationPlan : Type 0 where
  pub schema_version : ℕ
  pub plan_id : String
  pub plan_type : String
  pub status : String
  pub agent_id : String
  pub target_path : String
  pub observed_entry_id : String
  pub catalog_id : String
  pub policy : Fields
  pub diff : DiffPayload
  pub expected_preimage_hash : String
  pub rollback_strategy : String
  pub risk : Fields
  pub created_at : String

unfoldable pub diff_from_dict : Fields → Result DiffPayload
diff_from_dict payload = do
  reject_unknown_keys "DiffPayload" ("schema_version" ∷ "format" ∷ "text" ∷ []) payload
  format ← require_enum payload "format" ("unified" ∷ [])
  diff ← require_string payload "text"
  ok (record { format = format; text = diff })

abbrev pub plan_fields : List String
plan_fields =
    "schema_version" ∷ "plan_id" ∷ "plan_type" ∷ "status" ∷ "agent_id" ∷ "target_path"
    ∷ "observed_entry_id" ∷ "catalog_id" ∷ "policy" ∷ "diff" ∷ "expected_preimage_hash"
    ∷ "rollback_strategy" ∷ "risk" ∷ "created_at" ∷ []

-- `value is True`
abbrev pub is_literal_true : Option Json → Bool
is_literal_true (some (boolean b)) = b
is_literal_true _ = false

unfoldable pub from_dict : Fields → Result RemediationPlan
from_dict payload = do
  reject_unknown_keys "RemediationPlan" plan_fields payload
  policy ← require_object payload "policy"
  invalid_if
      (is_literal_true (Dict.get "approval_required" policy)
        && not (is_true (Dict.get "approval_reason" policy)))
      "approval_required plans need approval_reason"
  schema_version ← require_schema_version (Dict.get "schema_version" payload)
  plan_id ← require_id payload "plan_id" "plan_"
  plan_type ← require_enum payload "plan_type" plan_types
  status ← require_enum payload "status" plan_statuses
  agent_id ← require_string payload "agent_id"
  target_path ← require_string payload "target_path"
  observed_entry_id ← require_id payload "observed_entry_id" "obs_"
  catalog_id ← require_id payload "catalog_id" "srv_"
  diff ← and_then (require_object payload "diff") diff_from_dict
  expected_preimage_hash ← require_id payload "expected_preimage_hash" "sha256:"
  rollback_strategy ← require_string payload "rollback_strategy"
  risk ← require_object payload "risk"
  created_at ← require_string payload "created_at"
  ok (record {
    schema_version = schema_version;
    plan_id = plan_id;
    plan_type = plan_type;
    status = status;
    agent_id = agent_id;
    target_path = target_path;
    observed_entry_id = observed_entry_id;
    catalog_id = catalog_id;
    policy = policy;
    diff = diff;
    expected_preimage_hash = expected_preimage_hash;
    rollback_strategy = rollback_strategy;
    risk = risk;
    created_at = created_at;
  })

unfoldable pub to_dict : RemediationPlan → Fields
to_dict p = field "schema_version" (int_json p.schema_version) (
    field "plan_id" (text p.plan_id) (
      field "plan_type" (text p.plan_type) (
        field "status" (text p.status) (
          field "agent_id" (text p.agent_id) (
            field "target_path" (text p.target_path) (
              field "observed_entry_id" (text p.observed_entry_id) (
                field "catalog_id" (text p.catalog_id) (
                  field "policy" (object p.policy) (
                    field "diff"
                      (object
                        (field "format" (text p.diff.format) (field "text" (text p.diff.text) end)))
                      (field "expected_preimage_hash" (text p.expected_preimage_hash) (
                        field "rollback_strategy" (text p.rollback_strategy) (
                          field "risk" (object p.risk)
                            (field "created_at" (text p.created_at) end)))))))))))))
