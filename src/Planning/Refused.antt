-- ===== src/Planning/Refused.antt =====
-- The row of a plan of a dry run, and why `apply_plan` refuses the plan.
use mcp_multiplex.Prelude.{
  String, true, some, ◌≡◌, inl, inr, refl, ap, ◌∙◌, arith, ◌==◌, eq_iff, has_row, find_row,
  has_row-find, find_row-append, Bool-cases,
}
use mathlib.Core.Path.{subst}
use mcp_multiplex.Json.{boolean}
use mcp_multiplex.Json.Dict
use mcp_multiplex.Json.Canonical.{canonical, canonical_fields, insert_field}
use mcp_multiplex.Exec.{Error, ok, err, Result-cases, ok-injective, Sha256, Clock}
use mcp_multiplex.Security.{Urls}
use mcp_multiplex.Schemas.Observed.{ObservedEntry}
use mcp_multiplex.Schemas.Catalog.{CatalogEntry}
use mcp_multiplex.Schemas.Plan.{RemediationPlan}
use mcp_multiplex.Storage.{Database, PlanRow}
use mcp_multiplex.Catalog.Matching.{CatalogMatch}
use mcp_multiplex.Apply.{
  World, Disk, Format, ApplyPlan, plan_of_row, load_apply_plan, require_apply_allowed,
  approval_required,
}
use mcp_multiplex.Apply.Run.{Options, inspect, apply_plan}
use mcp_multiplex.Apply.Outcome.{require_apply_allowed-approved}
use mcp_multiplex.Planning.{BuildArgs, policy_dict}
use mcp_multiplex.Planning.Store.{plan_row, put_plan, has_references}
use mcp_multiplex.Planning.Gated.{IsBuilt, IsPlanned, planned-args, planned-IsGated}

-- What the row of a plan says of the approval, once it was printed and read.
canonical-approval :
    (a : BuildArgs) (p : RemediationPlan)
    → IsBuilt a p
    → Dict.get "approval_required" (canonical_fields p.policy)
      ≡ some (boolean a.policy.approval_required)
unfolding policy_dict canonical canonical_fields insert_field
canonical-approval a p b = rw b.policy

-- A plan that asks for an approval it does not have is not applied.
waiting_refused :
    (q : ApplyPlan) (db : Database)
    → approval_required q ≡ true
    → q.status ≡ "pending_approval"
    → (x : Error) × (require_apply_allowed q db ≡ err x)
waiting_refused q db gated waiting = elim (Result-cases (require_apply_allowed q db)) [
  | inr refused ↦ refused
  | inl (v, allowed) ↦
      let (a, found, granted, approved) = (require_apply_allowed-approved q db allowed).1 gated in
      cc (rw waiting at approved)
]

-- A plan that has just been inserted is what its id finds.
pub inserted-found :
    (k : Clock) (p : RemediationPlan) (db after : Database)
    → put_plan k p db ≡ ok (true, after)
    → find_row (λ (r : PlanRow). r.plan_id == p.plan_id) after.plans ≡ some (plan_row k p)
unfolding put_plan plan_row
inserted-found k p db after put =
    let id = λ (r : PlanRow). r.plan_id == p.plan_id in
    elim (Bool-cases (has_row id db.plans)) [
      | inl there ↦ cc (ap (λ o. o.0) (ok-injective _ _ (rw there at put)))
      | inr absent ↦ elim (Bool-cases (has_references p db)) [
        | inr dangling ↦ cc (rw (absent, dangling) at put)
        | inl held ↦
            let same : (p.plan_id == p.plan_id) ≡ true = (eq_iff _ _).1 refl in
            subst (λ (x : Database). find_row id x.plans ≡ some (plan_row k p))
              (ap (λ o. o.1) (ok-injective _ _ (rw (absent, held) at put)))
              (rw (
                find_row-append id (plan_row k p) db.plans (has_row-find id db.plans absent),
                same,
              ))
      ]
    ]

-- The plan that `_load_apply_plan` makes of a row has the row's policy and status.
loaded-row :
    (r : PlanRow) (q : ApplyPlan)
    → plan_of_row r ≡ ok q
    → (q.status ≡ r.status) × (q.policy ≡ r.policy) × (q.plan_type ≡ r.plan_type)
unfolding plan_of_row
loaded-row r q e = (ground arith, ground arith, ground arith)

-- The database has the plan's row as it was inserted.
abbrev pub HasRow : Clock → RemediationPlan → Database → Type 0
HasRow k p db = find_row (λ (r : PlanRow). r.plan_id == p.plan_id) db.plans ≡ some (plan_row k p)

asks_approval :
    (q : ApplyPlan)
    → Dict.get "approval_required" q.policy ≡ some (boolean true)
    → approval_required q ≡ true
unfolding approval_required
asks_approval q e = ground arith

pub row-refused :
    (h : Sha256) (u : Urls) (From : ObservedEntry → CatalogEntry → CatalogMatch → Type 0)
    (k : Clock) (p : RemediationPlan) (f : Format) (w : World)
    → IsPlanned h u From p
    → HasRow k p w.db
    → (x : Error) × (inspect f p.plan_id w ≡ err x)
unfolding inspect load_apply_plan plan_row
row-refused h u From k p f w planned at = elim (Result-cases (plan_of_row (plan_row k p))) [
  | inr (x, incomplete) ↦ (x, rw (at, incomplete))
  | inl (q, loaded) ↦
      let (a, gated, built) = planned-args h u From p planned in
      let (status, policy, _) = loaded-row (plan_row k p) q loaded in
      let asks = asks_approval q (
        ap (Dict.get "approval_required") policy
        ∙ canonical-approval a p built
        ∙ ap (λ b. some (boolean b)) gated.approval) in
      let (x, refused) =
        waiting_refused q w.db asks (status ∙ (planned-IsGated h u From p planned).waiting) in
      (x, rw (at, loaded, refused))
]

-- `apply_plan` raises, and changes neither the database nor a file.
abbrev pub IsRefused : RemediationPlan → World → Type 0
IsRefused p w =
    (h : Sha256) (c : Clock) (f : Format) (disk : Disk) (o : Options)
    → (x : Error) × (apply_plan h c f disk o p.plan_id w ≡ (err x, w))

pub refused :
    (h : Sha256) (c : Clock) (f : Format) (disk : Disk) (o : Options) (id : String) (w : World)
    (x : Error)
    → inspect f id w ≡ err x
    → apply_plan h c f disk o id w ≡ (err x, w)
unfolding apply_plan
refused h c f disk o id w x e = ground arith
