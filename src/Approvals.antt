-- ===== src/Approvals.antt =====
-- approvals/__init__.py: the approval lifecycle. The proofs are in the modules below.
pub mod Decide
pub mod Decisions
pub mod Lifecycle
pub mod Final
pub mod Operator
mod Tests
use mcp_multiplex.Prelude.{
  String, ℕ, Bool, true, false, not, ◌&&◌, List, [], ◌∷◌, ◌++◌, Option, none, some, if◌then◌else◌,
  leb, ◌==◌, ◌<>◌, text_or, truthy?, elem, has_row, find_row, select_rows, update_rows, sort_by,
  first, text_leb, take_text, eqb, opt_eq,
}
use mcp_multiplex.Json.{Json, boolean, text, null, field, end}
use mcp_multiplex.Json.Dict
use mcp_multiplex.Exec.{
  Error, validation_error, approval_error, key_error, integrity_error, Result, ok, err, and_then,
  check, check_all, require, refuse_if, Action, pure, lift, reads, modify, transaction, Sha256,
  Clock, ◌>>=◌, ◌>>◌,
}
use mcp_multiplex.Storage.{Database, PlanRow, Approval}
use mcp_multiplex.Audit.{EventArgs, append, require_string, validate_prefix}

abbrev pub decision_channels : List String
decision_channels = "cli" ∷ "tui" ∷ []

abbrev pub model_only_channels : List String
model_only_channels = "control_mcp" ∷ "mcp_hub" ∷ "agent" ∷ []

-- APPROVAL_STATES of schemas/models.py
abbrev pub approval_states : List String
approval_states =
    "not_required" ∷ "pending" ∷ "approved" ∷ "rejected" ∷ "expired" ∷ "applied" ∷ "revoked" ∷ []

abbrev terminal_states : List String
terminal_states = "approved" ∷ "rejected" ∷ "revoked" ∷ []

-- `PlanApprovalState.approval_required`: the policy says `true`, and not merely a true value.
unfoldable pub approval_required : PlanRow → Bool
approval_required p = elim (Dict.get "approval_required" p.policy) [
  | some (boolean b) ↦ b
  | _ ↦ false
]

unfoldable pub approval_checks : Approval → List (Result (Unit {0}))
approval_checks a =
    require_string "state" a.state
    ∷ refuse_if (not (elem a.state approval_states))
        (validation_error ("state has unsupported value: " <> a.state))
    ∷ refuse_if (elem a.state terminal_states && not (truthy? a.decision_at))
        (validation_error "terminal approval states require decision_at")
    ∷ refuse_if (not (eqb a.schema_version 1)) (validation_error "schema_version must be 1")
    ∷ require_string "approval_id" a.approval_id
    ∷ validate_prefix a.approval_id "appr_" "approval_id"
    ∷ require_string "plan_id" a.plan_id
    ∷ validate_prefix a.plan_id "plan_" "plan_id"
    ∷ require_string "actor" a.actor
    ∷ require_string "channel" a.channel
    ∷ require_string "created_at" a.created_at
    ∷ []

-- `Approval.from_dict`, at a dict whose keys are the fields.
unfoldable pub validate_approval : Approval → Result Approval
validate_approval a = check_all (approval_checks a) (ok a)

-- `_plan`
unfoldable pub find_plan : String → Database → Result PlanRow
find_plan plan_id db =
    require (find_row (λ (p : PlanRow). p.plan_id == plan_id) db.plans)
      (approval_error ("unknown plan: " <> plan_id))

unfoldable pub plan_status : String → Database → Result String
plan_status plan_id db = and_then (find_plan plan_id db) (λ p. ok p.status)

unfoldable pub show : String → Database → Result Approval
show approval_id db =
    and_then
      (require (find_row (λ (a : Approval). a.approval_id == approval_id) db.approvals)
        (key_error approval_id))
      validate_approval

-- ORDER BY created_at, approval_id
abbrev earlier : Approval → Approval → Bool
earlier a b =
    if a.created_at == b.created_at
    then text_leb a.approval_id b.approval_id
    else text_leb a.created_at b.created_at

unfoldable pub find_by_plan : String → Database → Result (Option Approval)
find_by_plan plan_id db =
    elim (first
      (sort_by earlier (select_rows (λ (a : Approval). a.plan_id == plan_id) db.approvals))) [
        | none ↦ ok none
        | some a ↦ and_then (show a.approval_id db) (λ b. ok (some b))
      ]

unfoldable pub approval_id_for_plan : Sha256 → String → String
approval_id_for_plan h plan_id = "appr_" <> take_text 24 (h.of_text plan_id)

-- `_insert`, with the primary key and the foreign key of the table
unfoldable pub insert : Approval → Database → Result (Unit {0} × Database)
insert a db =
    if not (has_row (λ (b : Approval). b.approval_id == a.approval_id) db.approvals)
      && has_row (λ (p : PlanRow). p.plan_id == a.plan_id) db.plans
    then ok (tt, record db { approvals = db.approvals ++ a ∷ [] })
    else err integrity_error

-- The second halves of `create_pending` and `create_not_required`: what is there is returned.
unfoldable pub get_or_insert : String → Approval → Action Database Approval
get_or_insert plan_id fresh = do
  existing ← reads (find_by_plan plan_id)
  elim existing [
    | some a ↦ pure a
    | none ↦ do
      approval ← lift (validate_approval fresh)
      transaction (insert approval)
      pure approval
  ]

-- The approval that `create_pending` makes.
abbrev pub pending_approval :
    Sha256
    → Clock
    → String
    → String
    → String
    → Option String
    → Option String
    → Option String
    → Approval
pending_approval h c plan_id actor channel created_at expires_at comment = record {
  approval_id = approval_id_for_plan h plan_id;
  schema_version = 1;
  plan_id = plan_id;
  state = "pending";
  actor = actor;
  channel = channel;
  created_at = text_or created_at c.now;
  expires_at = expires_at;
  decision_at = none;
  comment = comment;
}

unfoldable pub create_pending :
    Sha256
    → Clock
    → (plan_id actor channel : String) → (created_at expires_at comment : Option String)
    → Action Database Approval
create_pending h c plan_id actor channel created_at expires_at comment = do
  plan ← reads (find_plan plan_id)
  lift (
      refuse_if (not (approval_required plan))
        (approval_error "plan policy does not require approval"))
  get_or_insert plan_id (pending_approval h c plan_id actor channel created_at expires_at comment)

-- The approval that `create_not_required` makes.
abbrev pub not_required_approval :
    Sha256 → Clock → String → String → String → Option String → Approval
not_required_approval h c plan_id actor channel created_at =
    record (pending_approval h c plan_id actor channel created_at none none) {
      state = "not_required";
    }

unfoldable pub create_not_required :
    Sha256 → Clock → (plan_id actor channel : String) → Option String → Action Database Approval
create_not_required h c plan_id actor channel created_at = do
  plan ← reads (find_plan plan_id)
  lift (
      refuse_if (approval_required plan)
        (approval_error "approval-required plan cannot be marked not_required"))
  get_or_insert plan_id (not_required_approval h c plan_id actor channel created_at)

-- The order of `list`: by state, then as `earlier`.
abbrev state_rank : String → ℕ
state_rank s =
    if s == "pending" then 0 else if s == "approved" then 1 else if s == "rejected" then 2 else 3

abbrev operator_order : Approval → Approval → Bool
operator_order a b =
    if eqb (state_rank a.state) (state_rank b.state)
    then earlier a b
    else leb (state_rank a.state) (state_rank b.state)

abbrev has_value : Option String → String → Bool
has_value none column = true
has_value (some v) column = column == v

show_all : List Approval → Database → Result (List Approval)
show_all [] db = ok []
show_all (a ∷ rows) db =
    and_then (show a.approval_id db) λ b. and_then (show_all rows db) λ rest. ok (b ∷ rest)

unfoldable pub list : Option String → Option String → Database → Result (List Approval)
unfolding show_all
list state plan_id db =
    show_all
      (sort_by operator_order (
        select_rows (λ (a : Approval). has_value state a.state && has_value plan_id a.plan_id)
          db.approvals))
      db
