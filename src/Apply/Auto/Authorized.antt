-- ===== src/Apply/Auto/Authorized.antt =====
-- What the authorization of a plan leaves in the database.
use mathlib.Core.Path.{subst}
use mcp_multiplex.Prelude.{
  String, Bool, true, false, Option, some, ◌≡◌, inl, inr, refl, sym, ap, ◌∙◌, arith, if◌then◌else◌,
  ◌==◌, ◌<>◌, eq_iff, find_row, update_rows, find_row-update_other, find_row-update_found,
  find_row-holds, Bool-cases,
}
use mcp_multiplex.Json.{Json, Fields, boolean, text}
use mcp_multiplex.Json.Dict
use mcp_multiplex.Json.Dict.{get-set}
use mcp_multiplex.Exec.{
  Result, ok, require-eq-ok, bind_elim, require, act_moves, bound, pure, reads, modify, ◌>>◌,
  apply_error, Sha256, Clock,
}
use mcp_multiplex.Storage.{Database, PlanRow}
use mcp_multiplex.Audit.{EventArgs, append}
use mcp_multiplex.Audit.Chain.{append-keeps}
use mcp_multiplex.Approvals.{create_not_required}
use mcp_multiplex.Approvals.Final.{create_not_required-Adds}
use mcp_multiplex.Apply.{ApplyPlan, plan_of_row, load_apply_plan}
use mcp_multiplex.Apply.Run.{Options}
use mcp_multiplex.Apply.Auto.{AutoApplyDecision}
use mcp_multiplex.Apply.Auto.Authorize.{authorized_event, authorized_policy, authorize_auto_apply}

-- What the policy of an authorized plan says under a key: no approval is required, an automatic apply
-- is allowed, for a reason, and all else is as it was.
abbrev pub authorized_value : String → Option Json → Option Json
authorized_value k before =
    if "auto_apply_reason" == k
    then some (text "certified_safe_known_direct")
    else if "auto_apply_allowed" == k
    then some (boolean true)
    else if "approval_required" == k
    then some (boolean false)
    else before

-- A plan that was authorized: it is approved, its policy says so, and nothing else of it changed.
pub record IsApproved (p q : ApplyPlan) : Type 0 where
  pub same : q ≡ record p { status = "approved"; policy = q.policy }
  pub policy : (k : String) → Dict.get k q.policy ≡ authorized_value k (Dict.get k p.policy)

-- After the authorization of a plan, it is there as approved, each other plan is as it was, and only
-- the plans, the approvals and the events may have changed.
pub record Authorizes (id : String) (p : ApplyPlan) (before after : Database) : Type 0 where
  pub plan : ApplyPlan
  pub approved : IsApproved p plan
  pub plans :
      (k : String)
      → load_apply_plan k after ≡ (if id == k then ok plan else load_apply_plan k before)
  pub frame :
      after
      ≡ record before { plans = after.plans; approvals = after.approvals; events = after.events }

-- Only approvals and events change.
record Keeps (before after : Database) : Type 0 where
  frame : after ≡ record before { approvals = after.approvals; events = after.events }

Keeps-trans : (a b c : Database) → Keeps a b → Keeps b c → Keeps a c
Keeps-trans a b c first second =
    let f = first.frame in let g = second.frame in record { frame = ground arith }

create-Keeps :
    (h : Sha256) (c : Clock) (id actor channel : String) (at : Option String) (db : Database)
    → Keeps db (create_not_required h c id actor channel at db).1
create-Keeps h c id actor channel at db =
    elim (create_not_required-Adds h c id actor channel at db) [
      | inl same ↦ record { frame = rw same }
      | inr (a, undecided, added) ↦ record { frame = rw added }
    ]

append-Keeps :
    (h : Sha256) (c : Clock) (e : EventArgs) (db : Database) → Keeps db (append h c e db).1
append-Keeps h c e db = record { frame = ground (arith, append-keeps h c e db) }

abbrev approved_row : Clock → ApplyPlan → PlanRow → PlanRow
approved_row c p x = record x {
  status = "approved";
  policy = authorized_policy p.policy;
  updated_at = c.sql_now;
}

abbrev has_id : String → PlanRow → Bool
has_id id x = x.plan_id == id

-- The database after the UPDATE.
abbrev approved_in : Clock → String → ApplyPlan → Database → Database
approved_in c id p db = record db { plans = update_rows (has_id id) (approved_row c p) db.plans }

authorize-Keeps :
    (h : Sha256) (c : Clock) (o : Options) (id : String) (d : AutoApplyDecision) (p : ApplyPlan)
    (db : Database)
    → load_apply_plan id db ≡ ok p
    → Keeps (approved_in c id p db) (authorize_auto_apply h c o id d db).1
unfolding authorize_auto_apply
authorize-Keeps h c o id d p db loaded =
    let f = λ (q : ApplyPlan).
      modify (λ (db : Database). approved_in c id q db)
      >> (create_not_required h c id o.actor "auto_policy" o.timestamp
          >> (append h c (authorized_event h c o q d) >> pure tt)) in
    subst (λ (r : Result (Unit {0}) × Database). Keeps (approved_in c id p db) r.1)
      (sym (bound (reads (load_apply_plan id)) f db p db (ap (λ r. (r, db)) loaded)))
      (act_moves Keeps Keeps-trans (create_not_required h c id o.actor "auto_policy" o.timestamp)
        (approved_in c id p db) _ (create-Keeps h c id o.actor "auto_policy" o.timestamp _)
        λ a _.
          act_moves Keeps Keeps-trans (append h c (authorized_event h c o p d)) _ _
            (append-Keeps h c (authorized_event h c o p d) _) λ e _. record { frame = refl })

abbrev approved_plan : ApplyPlan → ApplyPlan
approved_plan p = record p { status = "approved"; policy = authorized_policy p.policy }

approved_plan-IsApproved : (p : ApplyPlan) → IsApproved p (approved_plan p)
approved_plan-IsApproved p = record { same = refl; policy = λ k. authorized-get k p.policy }
  where
    authorized-get :
        (k : String) (fs : Fields)
        → Dict.get k (authorized_policy fs) ≡ authorized_value k (Dict.get k fs)
    authorized-get k fs =
        let allowed = Dict.set "approval_required" (boolean false) fs in
        let reason = Dict.set "auto_apply_allowed" (boolean true) allowed in
        rw
          (
            get-set "auto_apply_reason" k (text "certified_safe_known_direct") reason,
            get-set "auto_apply_allowed" k (boolean true) allowed,
            get-set "approval_required" k (boolean false) fs,
          )
          refl

-- The row of the plan, and what is read from it.
approved-row :
    (c : Clock) (p : ApplyPlan) (r : PlanRow)
    → plan_of_row r ≡ ok p
    → plan_of_row (approved_row c p r) ≡ ok (approved_plan p)
unfolding plan_of_row
approved-row c p r e = ground arith

approved-plans :
    (c : Clock) (id k : String) (p : ApplyPlan) (db : Database)
    → load_apply_plan id db ≡ ok p
    → load_apply_plan k (approved_in c id p db)
      ≡ (if id == k then ok (approved_plan p) else load_apply_plan k db)
unfolding load_apply_plan
approved-plans c id k p db loaded = elim (Bool-cases (id == k)) [
  | inr apart ↦
      let other =
        find_row-update_other (has_id k) (has_id id) (approved_row c p) db.plans
          (λ r here. ground (arith, eq_iff r.plan_id id, eq_iff r.plan_id k, eq_iff id k))
          (λ r here. ground (arith, eq_iff r.plan_id id, eq_iff r.plan_id k, eq_iff id k)) in
      rw (other, apart) refl
  | inl same ↦
      bind_elim (require (find_row (has_id id) db.plans) (apply_error ("unknown plan: " <> id)))
        plan_of_row p loaded
        λ r found read.
          let found = require-eq-ok (find_row (has_id id) db.plans) _ r found in
          let after =
            find_row-update_found (has_id id) (has_id id) (approved_row c p) r db.plans (λ x. refl)
              found in
          let this = find_row-holds (has_id id) r db.plans found in
          subst
            (λ k.
              load_apply_plan k (approved_in c id p db)
              ≡ (if id == k then ok (approved_plan p) else load_apply_plan k db))
            ((eq_iff id k).0 same)
            (rw (after, this, (eq_iff id id).1 refl) (approved-row c p r read))
]

same-plans :
    (k : String) (before after : Database)
    → after.plans ≡ before.plans
    → load_apply_plan k after ≡ load_apply_plan k before
unfolding load_apply_plan
same-plans k before after same = rw same refl

-- Where the plan is found, this is what authorizing it leaves, whether it returns or raises.
pub authorize-Authorizes :
    (h : Sha256) (c : Clock) (o : Options) (id : String) (d : AutoApplyDecision) (p : ApplyPlan)
    (db : Database)
    → load_apply_plan id db ≡ ok p
    → Authorizes id p db (authorize_auto_apply h c o id d db).1
authorize-Authorizes h c o id d p db loaded =
    let kept = authorize-Keeps h c o id d p db loaded in
    let after = (authorize_auto_apply h c o id d db).1 in
    record {
      plan = approved_plan p;
      approved = approved_plan-IsApproved p;
      plans = λ k.
          same-plans k _ _ (ap (λ (x : Database). x.plans) kept.frame)
          ∙ approved-plans c id k p db loaded;
      frame = let f = kept.frame in ground arith;
    }
