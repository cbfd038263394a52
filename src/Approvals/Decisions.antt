-- ===== src/Approvals/Decisions.antt =====
-- What `approve` and `reject` do, and when.
use mathlib.Core.Option
use mcp_multiplex.Prelude.{
  String, true, false, Option, some, ◌≡◌, ◌⊎◌, inl, inr, refl, sym, ap, ◌∙◌, arith, ◌==◌, eq_iff,
  elem, text_or, find_row, find_row-update, find_row-update_other, find_row-holds,
}
use mcp_multiplex.Exec.{
  Error, ok, err, Sha256, Clock, Result-cases, check_all-eq-ok, and_then-eq-ok, require-eq-ok,
}
use mcp_multiplex.Storage.{Database, PlanRow, Approval}
use mcp_multiplex.Audit.{append}
use mcp_multiplex.Audit.Chain.{append-keeps}
use mcp_multiplex.Approvals.{
  decision_channels, model_only_channels, approval_required, approval_checks, validate_approval,
  find_plan, show,
}
use mcp_multiplex.Approvals.Decide.{
  authorize_decision, record_decision, decision_event, decided_as, commit_decision, Decision,
  decide,
}

-- Validation returns the record that it was given.
pub validate_approval-eq : (a b : Approval) → validate_approval a ≡ ok b → b ≡ a
unfolding validate_approval
validate_approval-eq a b h = cc (check_all-eq-ok (approval_checks a) (ok a) b h)

pub show-eq-ok :
    (id : String) (db : Database) (a : Approval)
    → show id db ≡ ok a
    → (find_row (λ (b : Approval). b.approval_id == id) db.approvals ≡ some a)
      × (a.approval_id ≡ id)
unfolding show
show-eq-ok id db a h =
    let (b, found, valid) = and_then-eq-ok _ validate_approval a h in
    let same = validate_approval-eq b a valid in
    let row = require-eq-ok _ _ b found in
    (
      row ∙ ap some (sym same),
      rw same ((eq_iff b.approval_id id).0 (find_row-holds _ b db.approvals row)),
    )

pub record IsAuthorized (id channel : String) (db : Database) (a : Approval) (p : PlanRow)
    : Type 0 where
  pub operator : elem channel decision_channels ≡ true
  pub not_model : elem channel model_only_channels ≡ false
  pub shown : show id db ≡ ok a
  pub pending : a.state ≡ "pending"
  pub planned : find_plan a.plan_id db ≡ ok p
  pub gated : approval_required p ≡ true

pub authorize_decision-IsAuthorized :
    (id channel : String) (db : Database) (a : Approval) (p : PlanRow)
    → authorize_decision id channel db ≡ ok (a, p)
    → IsAuthorized id channel db a p
unfolding authorize_decision
authorize_decision-IsAuthorized id channel db a p h = elim (Result-cases (show id db)) [
  | inl (b, shown) ↦ elim (Result-cases (find_plan b.plan_id db)) [
    | inl (q, planned) ↦ ground (arith, eq_iff b.state "pending")
    | inr (x, missing) ↦ ground arith
  ]
  | inr (x, missing) ↦ ground arith
]

module _ (h : Sha256) (c : Clock) (id : String) (d : Decision) (actor channel : String)
    (decided_at comment : Option String) (db : Database) where
  -- A decision that is refused changes nothing; any other one is committed.
  pub decide_cases :
      ((x : Error) × (decide h c id d actor channel decided_at comment db ≡ (err x, db)))
      ⊎ ((a : Approval) × (p : PlanRow) × IsAuthorized id channel db a p
          × let time = text_or decided_at c.now in
            (decide h c id d actor channel decided_at comment db
              ≡ commit_decision h c (decided_as a d actor channel time comment) p time db))
  unfolding decide
  decide_cases = elim (Result-cases (authorize_decision id channel db)) [
    | inl ((a, p), found) ↦
        let e = decided_as a d actor channel (text_or decided_at c.now) comment in
        elim (Result-cases (validate_approval e)) [
          | inl (e', valid) ↦ inr (
            a,
            p,
            authorize_decision-IsAuthorized id channel db a p found,
            ground (arith, validate_approval-eq e e' valid),
          )
          | inr (x, invalid) ↦ inl (x, ground arith)
        ]
    | inr (x, refused) ↦ inl (x, ground arith)
  ]

-- The tables after a decision was committed, whether or not its event could be stored.
pub commit_decision-tables :
    (h : Sha256) (c : Clock) (e : Approval) (p : PlanRow) (time : String) (db : Database)
    → ((commit_decision h c e p time db).1.approvals ≡ (record_decision e c.sql_now db).approvals)
      × ((commit_decision h c e p time db).1.plans ≡ (record_decision e c.sql_now db).plans)
unfolding commit_decision
commit_decision-tables h c e p time db =
    let now = record_decision e c.sql_now db in
    let keeps = append-keeps h c (decision_event h e p time) now in
    let approvals = ap (λ (x : Database). x.approvals) keeps in
    let plans = ap (λ (x : Database). x.plans) keeps in
    elim (Result-cases (append h c (decision_event h e p time) now).0) [
      | inl (x, stored) ↦ (ground arith, ground arith)
      | inr (x, failed) ↦ (ground arith, ground arith)
    ]

-- A decision that returned has shown the approval in the tables that it left.
pub commit_decision-shows :
    (h : Sha256) (c : Clock) (e r : Approval) (p : PlanRow) (time : String) (db : Database)
    → (commit_decision h c e p time db).0 ≡ ok r
    → show e.approval_id (commit_decision h c e p time db).1 ≡ ok r
unfolding commit_decision
commit_decision-shows h c e r p time db done =
    elim (Result-cases
      (append h c (decision_event h e p time) (record_decision e c.sql_now db)).0) [
        | inl (x, stored) ↦ ground arith
        | inr (x, failed) ↦ ground arith
      ]

abbrev pub find_approval : String → Database → Option Approval
find_approval id db = find_row (λ (b : Approval). b.approval_id == id) db.approvals

-- A decision is found under its id.
pub find-record_decision :
    (a e : Approval) (t : String) (db : Database)
    → find_approval a.approval_id db ≡ some a
    → e.approval_id ≡ a.approval_id
    → find_approval a.approval_id (record_decision e t db)
      ≡ some (record a {
        state = e.state;
        actor = e.actor;
        channel = e.channel;
        decision_at = e.decision_at;
        comment = e.comment;
      })
unfolding record_decision
find-record_decision a e t db found same = rw same (
    find_row-update (λ (b : Approval). b.approval_id == a.approval_id) _ db.approvals (λ b. refl)
    ∙ ap (Option.map _) found)

pub find-record_decision_other :
    (e : Approval) (t j : String) (db : Database)
    → (e.approval_id == j) ≡ false
    → find_approval j (record_decision e t db) ≡ find_approval j db
unfolding record_decision
find-record_decision_other e t j db apart =
    find_row-update_other (λ (b : Approval). b.approval_id == j)
      (λ (b : Approval). b.approval_id == e.approval_id) _ db.approvals
      (λ b m. ground (arith, eq_iff b.approval_id e.approval_id))
      (λ b m. ground (arith, eq_iff b.approval_id e.approval_id))

pub plan-record_decision :
    (e : Approval) (t : String) (p : PlanRow) (db : Database)
    → find_plan e.plan_id db ≡ ok p
    → find_plan e.plan_id (record_decision e t db)
      ≡ ok (record p { status = e.state; updated_at = t })
unfolding record_decision find_plan
plan-record_decision e t p db found =
    rw
      (find_row-update (λ (q : PlanRow). q.plan_id == e.plan_id)
        (λ (q : PlanRow). record q { status = e.state; updated_at = t }) db.plans (λ q. refl))
      (rw (require-eq-ok _ _ p found))

pub plan-record_decision_other :
    (e : Approval) (t j : String) (db : Database)
    → (e.plan_id == j) ≡ false
    → find_plan j (record_decision e t db) ≡ find_plan j db
unfolding record_decision find_plan
plan-record_decision_other e t j db apart = rw (
    find_row-update_other (λ (q : PlanRow). q.plan_id == j)
      (λ (q : PlanRow). q.plan_id == e.plan_id)
      (λ (q : PlanRow). record q { status = e.state; updated_at = t }) db.plans
      (λ q m. ground (arith, eq_iff q.plan_id e.plan_id))
      (λ q m. ground (arith, eq_iff q.plan_id e.plan_id)))
