-- ===== src/Approvals/Lifecycle.antt =====
-- The lifecycle of an approval: what a decision does, that it is made once, and by an operator.
use mathlib.Core.Path.{subst}
use mathlib.Core.Option.{some-injective}
use mcp_multiplex.Prelude.{
  String, false, Option, some, ◌≡◌, ◌⊎◌, inl, inr, refl, sym, ◌∙◌, ◌==◌, text_or,
}
use mcp_multiplex.Exec.{Error, ok, err, Sha256, Clock}
use mcp_multiplex.Storage.{Database, PlanRow, Approval}
use mcp_multiplex.Approvals.{find_plan}
use mcp_multiplex.Approvals.Decide.{record_decision, Decision, decided_as, decide, commit_decision}
use mcp_multiplex.Approvals.Decisions.{
  IsAuthorized, show-eq-ok, decide_cases, commit_decision-tables, commit_decision-shows,
  find_approval, find-record_decision, find-record_decision_other, plan-record_decision,
  plan-record_decision_other,
}

-- What a decision leaves behind: the approval and its plan as decided, all others as they were.
pub record Decides (id : String) (a : Approval) (p : PlanRow) (e : Approval) (sql_now : String)
    (db db' : Database) : Type 0 where
  pub approval_now : find_approval id db' ≡ some e
  pub plan_now : find_plan a.plan_id db' ≡ ok (record p { status = e.state; updated_at = sql_now })
  pub other_approvals : (j : String) → (id == j) ≡ false → find_approval j db' ≡ find_approval j db
  pub other_plans : (j : String) → (a.plan_id == j) ≡ false → find_plan j db' ≡ find_plan j db

find_plan-cong : (j : String) (x y : Database) → x.plans ≡ y.plans → find_plan j x ≡ find_plan j y
unfolding find_plan
find_plan-cong j x y e = rw e

commit_decision-Decides :
    (h : Sha256) (c : Clock) (a : Approval) (p : PlanRow) (d : Decision)
    (actor channel time : String) (comment : Option String) (db : Database)
    → find_approval a.approval_id db ≡ some a
    → find_plan a.plan_id db ≡ ok p
    → let e = decided_as a d actor channel time comment in
      Decides a.approval_id a p e c.sql_now db (commit_decision h c e p time db).1
commit_decision-Decides h c a p d actor channel time comment db found planned =
    let e = decided_as a d actor channel time comment in
    let (approvals, plans) = commit_decision-tables h c e p time db in
    let now = record_decision e c.sql_now db in
    record {
      approval_now = rw approvals (find-record_decision a e c.sql_now db found refl);
      plan_now =
          find_plan-cong a.plan_id _ now plans ∙ plan-record_decision e c.sql_now p db planned;
      other_approvals = λ j apart. rw approvals (find-record_decision_other e c.sql_now j db apart);
      other_plans = λ j apart.
          find_plan-cong j _ now plans ∙ plan-record_decision_other e c.sql_now j db apart;
    }

-- What is returned is what is found.
returned_decision :
    (h : Sha256) (c : Clock) (a e r : Approval) (p : PlanRow) (time : String) (db : Database)
    → find_approval e.approval_id (commit_decision h c e p time db).1 ≡ some e
    → (commit_decision h c e p time db).0 ≡ ok r
    → r ≡ e
returned_decision h c a e r p time db found done =
    let (shown, _) = show-eq-ok e.approval_id _ r (commit_decision-shows h c e r p time db done) in
    some-injective r e (sym shown ∙ found)

module _ (h : Sha256) (c : Clock) (id : String) (d : Decision) (actor channel : String)
    (decided_at comment : Option String) (db : Database) where
  -- A decision either fails and leaves the database as it was; or its approval was pending, its
  -- plan there and gated by its policy, and its channel an operator's, and then the approval and
  -- the plan stand as decided, also if the event of the decision could not be stored, and all
  -- other approvals and plans as they were. A decision that returned, returns the decided approval.
  pub decide_outcome :
      ((x : Error) × (decide h c id d actor channel decided_at comment db ≡ (err x, db)))
      ⊎ ((a : Approval) × (p : PlanRow) × IsAuthorized id channel db a p
          × let e = decided_as a d actor channel (text_or decided_at c.now) comment in
            Decides id a p e c.sql_now db (decide h c id d actor channel decided_at comment db).1
            × ((r : Approval)
                → (decide h c id d actor channel decided_at comment db).0 ≡ ok r
                → r ≡ e))
  decide_outcome = elim (decide_cases h c id d actor channel decided_at comment db) [
    | inl failed ↦ inl failed
    | inr (a, p, auth, committed) ↦
        let time = text_or decided_at c.now in
        let (found, same) = show-eq-ok id db a auth.shown in
        let found' = subst (λ k. find_approval k db ≡ some a) (sym same) found in
        let e = decided_as a d actor channel time comment in
        let decides =
          commit_decision-Decides h c a p d actor channel time comment db found' auth.planned in
        inr (
          a,
          p,
          auth,
          (
            rw committed (
                subst (λ k. Decides k a p e c.sql_now db (commit_decision h c e p time db).1) same
                  decides),
            λ r done.
                returned_decision h c a e r p time db decides.approval_now (rw committed at done),
          ),
        )
  ]
