-- ===== src/Approvals/Decide.antt =====
-- `_decide` of approvals/__init__.py: `approve` and `reject` are its calls with the two decisions.
use mcp_multiplex.Prelude.{
  String, not, Option, none, some, ◌==◌, ◌<>◌, text_or, elem, update_rows, take_text,
}
use mcp_multiplex.Json.{Json, text, null, field, end}
use mcp_multiplex.Exec.{
  approval_error, Result, ok, and_then, check, refuse_if, Action, lift, reads, modify, Sha256,
  Clock, ◌>>=◌, ◌>>◌,
}
use mcp_multiplex.Storage.{Database, PlanRow, Approval}
use mcp_multiplex.Audit.{EventArgs, append}
use mcp_multiplex.Approvals.{
  decision_channels, model_only_channels, approval_required, validate_approval, find_plan, show,
}

-- The checks of `_decide`, in their order.
unfoldable pub authorize_decision : String → String → Database → Result (Approval × PlanRow)
authorize_decision approval_id channel db =
    check
      (refuse_if (elem channel model_only_channels)
        (approval_error "model-only approval is insufficient for destructive operations"))
      (check
        (refuse_if (not (elem channel decision_channels))
          (approval_error ("unsupported approval decision channel: " <> channel)))
        (and_then (show approval_id db) λ existing.
          check
            (refuse_if (not (existing.state == "pending"))
              (approval_error ("approval " <> approval_id <> " is not pending")))
            (and_then (find_plan existing.plan_id db) λ plan.
              check
                (refuse_if (not (approval_required plan))
                  (approval_error "plan does not require approval"))
                (ok (existing, plan)))))

-- SET of the first UPDATE statement of `_decide`
abbrev pub with_decision : Approval → Approval → Approval
with_decision decided a = record a {
  state = decided.state;
  actor = decided.actor;
  channel = decided.channel;
  decision_at = decided.decision_at;
  comment = decided.comment;
}

-- The two UPDATE statements of `_decide`.
unfoldable pub record_decision : Approval → String → Database → Database
record_decision decided sql_now db = record db {
  approvals =
      update_rows (λ (a : Approval). a.approval_id == decided.approval_id) (with_decision decided)
        db.approvals;
  plans =
      update_rows (λ (p : PlanRow). p.plan_id == decided.plan_id)
        (λ (p : PlanRow). record p { status = decided.state; updated_at = sql_now }) db.plans;
}

abbrev nullable_comment : Option String → Json
nullable_comment none = null
nullable_comment (some s) = text s

-- `ApprovalDecision`
pub data Decision : Type 0 where
  approved rejected : Decision

abbrev pub decision_text : Decision → String
decision_text approved = "approved"
decision_text rejected = "rejected"

-- The event of a decision; `_event_id` is its id.
unfoldable pub decision_event : Sha256 → Approval → PlanRow → String → EventArgs
decision_event h decided plan time = record {
  event_id =
      "evt_"
      <> take_text 24
          (h.of_text (decided.approval_id <> "\0" <> "approval." <> decided.state <> "\0" <> time));
  event_type = "approval." <> decided.state;
  actor = decided.actor;
  result = "success";
  payload = field "approval_id" (text decided.approval_id) (
      field "state" (text decided.state) (
        field "channel" (text decided.channel)
          (field "comment" (nullable_comment decided.comment) end)));
  agent_id = plan.agent_id;
  plan_id = some plan.plan_id;
  target_path = plan.target_path;
  before_hash = none;
  after_hash = none;
  backup_id = none;
  timestamp = some time;
}

-- What `_decide` does once the decision is validated.
unfoldable pub commit_decision :
    Sha256 → Clock → Approval → PlanRow → String → Action Database Approval
commit_decision h c decided plan time = do
  modify (record_decision decided c.sql_now)
  append h c (decision_event h decided plan time)
  reads (show decided.approval_id)

-- The record of a decision.
abbrev pub decided_as : Approval → Decision → String → String → String → Option String → Approval
decided_as a d actor channel time comment = record a {
  state = decision_text d;
  actor = actor;
  channel = channel;
  decision_at = some time;
  comment = comment;
}

-- `_decide`; `approve` and `reject` are its calls with the two decisions.
unfoldable pub decide :
    Sha256
    → Clock
    → (approval_id : String) → Decision
    → (actor channel : String) → (decided_at comment : Option String) → Action Database Approval
decide h c approval_id decision actor channel decided_at comment = do
  found ← reads (authorize_decision approval_id channel)
  let time = text_or decided_at c.now
  decided ← lift (validate_approval (decided_as found.0 decision actor channel time comment))
  commit_decision h c decided found.1 time
