-- ===== src/Apply/Auto/Authorize.antt =====
-- `_authorize_auto_apply` and `auto_apply_plan` of apply/__init__.py.
use mcp_multiplex.Prelude.{String, true, false, List, [], ◌∷◌, none, some, ◌==◌, ◌<>◌, update_rows}
use mcp_multiplex.Json.{Fields, Items, boolean, text, array, nil, cons, field, end}
use mcp_multiplex.Json.Dict
use mcp_multiplex.Exec.{apply_error, Action, pure, raise, reads, modify, Sha256, Clock, ◌>>=◌, ◌>>◌}
use mcp_multiplex.Storage.{Database, PlanRow}
use mcp_multiplex.Audit.{EventArgs, append}
use mcp_multiplex.Approvals.{create_not_required}
use mcp_multiplex.Apply.{World, on_db, Disk, ApplyPlan, Format, load_apply_plan}
use mcp_multiplex.Apply.Backups.{event_id}
use mcp_multiplex.Apply.Run.{ApplyResult, Options, apply_plan}
use mcp_multiplex.Apply.Auto.{auto_apply_reason, AutoApplyDecision, evaluate_auto_apply}

abbrev text_items : List String → Items
text_items [] = nil
text_items (s ∷ xs) = cons (text s) (text_items xs)

-- `AutoApplyDecision.to_dict`
abbrev pub decision_fields : AutoApplyDecision → Fields
decision_fields d =
    field "plan_id" (text d.plan_id)
      (field "eligible" (boolean d.eligible) (field "reasons" (array (text_items d.reasons)) end))

abbrev bare_event :
    Sha256 → Clock → Options → String → (event_type result : String) → Fields → EventArgs
bare_event h c o plan_id event_type result payload = record {
  event_id = event_id h c plan_id event_type o.timestamp;
  event_type = event_type;
  actor = o.actor;
  result = result;
  payload = payload;
  agent_id = none;
  plan_id = some plan_id;
  target_path = none;
  before_hash = none;
  after_hash = none;
  backup_id = none;
  timestamp = o.timestamp;
}

unfoldable pub rejected_event : Sha256 → Clock → Options → String → AutoApplyDecision → EventArgs
rejected_event h c o plan_id d =
    bare_event h c o plan_id "auto_apply.rejected" "failure" (decision_fields d)

unfoldable pub authorized_event :
    Sha256 → Clock → Options → ApplyPlan → AutoApplyDecision → EventArgs
authorized_event h c o p d =
    record (bare_event h c o p.plan_id "auto_apply.authorized" "success" (decision_fields d)) {
      agent_id = p.agent_id;
      target_path = some p.target_path;
    }

-- The policy that lets the plan be applied without an approval.
abbrev pub authorized_policy : Fields → Fields
authorized_policy policy = Dict.set "auto_apply_reason" (text auto_apply_reason) (
    Dict.set "auto_apply_allowed" (boolean true)
      (Dict.set "approval_required" (boolean false) policy))

unfoldable pub authorize_auto_apply :
    Sha256 → Clock → Options → String → AutoApplyDecision → Action Database (Unit {0})
authorize_auto_apply h c o plan_id d = do
  p ← reads (load_apply_plan plan_id)
  modify (λ db. record db {
    plans =
        update_rows (λ (x : PlanRow). x.plan_id == plan_id)
          (λ (x : PlanRow). record x {
            status = "approved";
            policy = authorized_policy p.policy;
            updated_at = c.sql_now;
          })
          db.plans;
  })
  create_not_required h c plan_id o.actor "auto_policy" o.timestamp
  append h c (authorized_event h c o p d)
  pure tt

-- `', '.join(reasons)`
abbrev pub join : List String → String
join [] = ""
join (s ∷ []) = s
join (s ∷ t ∷ xs) = s <> ", " <> join (t ∷ xs)

unfoldable pub reject_auto_apply :
    Sha256 → Clock → Options → String → AutoApplyDecision → Action Database ApplyResult
reject_auto_apply h c o plan_id d = do
  append h c (rejected_event h c o plan_id d)
  raise (apply_error ("auto-apply rejected: " <> join d.reasons))

unfoldable pub auto_apply_plan :
    Sha256 → Clock → Format → Disk → Options → String → Action World ApplyResult
auto_apply_plan h c f disk o plan_id = do
  d ← reads (evaluate_auto_apply f plan_id)
  elim d.eligible [
    | false ↦ on_db (reject_auto_apply h c o plan_id d)
    | true ↦ do on_db (authorize_auto_apply h c o plan_id d); apply_plan h c f disk o plan_id
  ]
