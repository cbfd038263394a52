-- ===== src/Apply/Auto.antt =====
-- Automatic apply of apply/__init__.py: `evaluate_auto_apply` and `auto_apply_plan`.
pub mod Authorize
pub mod Authorized
pub mod Guards
mod Tests
use mcp_multiplex.Prelude.{
  String, Bool, true, false, not, ◌&&◌, ◌||◌, List, [], ◌∷◌, ◌++◌, Option, none, some,
  if◌then◌else◌, ◌==◌, ◌<>◌, text_or, truthy, elem, has_row, find_row, select_rows, update_rows,
  starts_with,
}
use mcp_multiplex.Json.{
  Json, Fields, Items, null, boolean, number, text, array, object, nil, cons, field, end,
}
use mcp_multiplex.Json.Dict
use mcp_multiplex.Json.Value.{is_true}
use mcp_multiplex.Exec.{
  Error, apply_error, Result, ok, err, and_then, Action, pure, lift, raise, reads, modify, Sha256,
  Clock, ◌>>=◌, ◌>>◌,
}
use mcp_multiplex.Storage.{Database, AgentRow, AgentConfigPath, PlanRow, EventRow, ConfigBackup}
use mcp_multiplex.Audit.{EventArgs, append, query}
use mcp_multiplex.Approvals
use mcp_multiplex.Apply.{
  World, on_db, read_file, Disk, ApplyPlan, Format, approval_required, load_apply_plan,
  policy_after, verify_preimage,
}
use mcp_multiplex.Apply.Backups.{event_id, list_backups}
use mcp_multiplex.Apply.Run.{ApplyResult, Options, apply_plan}

abbrev pub auto_apply_reason : String
auto_apply_reason = "certified_safe_known_direct"

-- `AutoApplyDecision`
pub record AutoApplyDecision : Type 0 where
  pub plan_id : String
  pub eligible : Bool
  pub reasons : List String

-- `AgentRegistry.show`, of the columns that are read, and its `can_auto_remediate`
abbrev pub find_agent : String → Database → Option AgentRow
find_agent id db = find_row (λ (a : AgentRow). a.agent_id == id) db.agents

abbrev pub can_auto_remediate : AgentRow → Bool
can_auto_remediate a = a.certification_level == "certified"

-- `_target_path_is_registered_non_project_shared`
abbrev pub own_path : String → String → AgentConfigPath → Bool
own_path agent_id target p = p.agent_id == agent_id && (p.path == target && not p.is_project_shared)

abbrev pub reason_unless : Bool → String → List String
reason_unless holds reason = if holds then [] else reason ∷ []

abbrev pub agent_reasons : Option AgentRow → String → Database → List String
agent_reasons none target db = "agent_not_registered" ∷ []
agent_reasons (some a) target db =
    reason_unless (can_auto_remediate a) ("agent_not_certified:" <> a.certification_level)
    ++ reason_unless (has_row (own_path a.agent_id target) db.config_paths)
        "target_path_missing_or_project_shared"

-- `reason in policy_reasons`
abbrev pub has_text : String → Items → Bool
has_text s nil = false
has_text s (cons (text t) xs) = t == s || has_text s xs
has_text s (cons x xs) = has_text s xs

abbrev pub reasons_of : Fields → Items
reasons_of policy = elim (Dict.get "reasons" policy) [ some (array xs) ↦ xs | _ ↦ nil ]

-- `_policy_before`
unfoldable pub policy_before : ApplyPlan → Result Fields
policy_before p = elim (Dict.get "before" p.policy) [
  | some (object fs) ↦ ok fs
  | _ ↦ err (apply_error "plan policy is missing before projection")
]

abbrev pub is_text : String → Option Json → Bool
is_text t (some (text s)) = s == t
is_text t _ = false

abbrev pub is_none : Option Json → Bool
is_none none = true
is_none (some null) = true
is_none (some _) = false

-- `env_names` is missing or an empty list.
abbrev pub no_names : Option Json → Bool
no_names none = true
no_names (some (array nil)) = true
no_names (some _) = false

abbrev pub local_url : Option Json → Bool
local_url (some (text s)) = starts_with s "http://127.0.0.1:30000/"
local_url _ = false

-- `except ApplyError as error`
abbrev pub preimage_reasons : Result (Unit {0}) → Result (List String)
preimage_reasons (ok u) = ok []
preimage_reasons (err (apply_error m)) = ok (("preimage_not_current:" <> m) ∷ [])
preimage_reasons (err e) = err e

abbrev pub is_mutation : EventRow → Bool
is_mutation e =
    elem e.event_type ("remediation.applied" ∷ "remediation.failed" ∷ "rollback.completed" ∷ [])

abbrev pub is_empty {ℓ} : {A : Type ℓ} → List A → Bool
is_empty [] = true
is_empty (x ∷ xs) = false

-- The reasons that the plan and the registry give.
abbrev pub plan_reasons : ApplyPlan → Fields → Fields → Database → List String
plan_reasons p before after db =
    reason_unless (p.plan_type == "rewrite_known_direct") "plan_type_not_known_direct_rewrite"
    ++ (reason_unless (p.status == "pending_approval")
          ("plan_status_not_pending_approval:" <> p.status)
        ++ (reason_unless (approval_required p) "plan_not_approval_gated"
            ++ (agent_reasons (find_agent (text_or p.agent_id "") db) p.target_path db
                ++ (reason_unless (has_text "known_direct_backend_match" (reasons_of p.policy))
                      "policy_missing_known_direct_backend_match"
                    ++ (reason_unless (has_text "match_confidence:high" (reasons_of p.policy))
                          "policy_match_confidence_not_high"
                        ++ (reason_unless
                              (has_text "match_reason:exact_backend_fingerprint"
                                (reasons_of p.policy))
                              "policy_missing_exact_backend_fingerprint"
                            ++ (reason_unless
                                  (is_text "stdio" (Dict.get "transport" before)
                                    && is_true (Dict.get "command" before))
                                  "before_state_not_stdio_direct"
                                ++ (reason_unless (is_none (Dict.get "cwd" before)) "cwd_ambiguity"
                                    ++ (reason_unless (no_names (Dict.get "env_names" before))
                                          "env_ambiguity"
                                        ++ (reason_unless (local_url (Dict.get "url" after))
                                            "after_state_not_local_hub_url"))))))))))

-- The reasons that an earlier apply gives.
abbrev pub loop_reasons : ApplyPlan → List ConfigBackup → Database → List String
loop_reasons p backups db =
    reason_unless (is_empty backups) "rewrite_loop_guard_backup_exists"
    ++ reason_unless (not (has_row is_mutation (query none none (some p.plan_id) db.events)))
        "rewrite_loop_guard_prior_mutation_event"

abbrev pub decision_of : String → List String → AutoApplyDecision
decision_of plan_id [] = record {
  plan_id = plan_id;
  eligible = true;
  reasons = auto_apply_reason ∷ [];
}
decision_of plan_id (r ∷ rs) = record { plan_id = plan_id; eligible = false; reasons = r ∷ rs }

unfoldable pub evaluate_auto_apply : Format → String → World → Result AutoApplyDecision
evaluate_auto_apply f plan_id w = and_then (load_apply_plan plan_id w.db) λ p.
    and_then (policy_before p) λ before. and_then (policy_after p) λ after.
      and_then (preimage_reasons (verify_preimage f p (read_file p.target_path w.files))) λ stale.
        and_then (list_backups (some p.plan_id) w.db) λ backups. ok (
          decision_of p.plan_id
            (plan_reasons p before after w.db ++ (stale ++ loop_reasons p backups w.db)))
