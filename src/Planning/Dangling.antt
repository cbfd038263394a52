-- ===== src/Planning/Dangling.antt =====
-- What `audit plan` does with a plan that names a row which is not there.
use mcp_multiplex.Prelude.{
  String, Bool, true, false, ◌&&◌, List, [], ◌∷◌, ◌++◌, ◌≡◌, inl, inr, refl, sym, ap, ◌∙◌, arith,
  ◌==◌, eq_iff, if◌then◌else◌, has_row, has_row-append, Bool-cases,
}
use mathlib.Core.Path.{subst}
use mcp_multiplex.Exec.{
  Error, Action, pure, ◌>>=◌, bound, bound_raised, transaction_ok, transaction_raised, err, ok,
  integrity_error, Sha256, Clock,
}
use mcp_multiplex.Security.{Urls}
use mcp_multiplex.Schemas.Observed.{ObservedEntry}
use mcp_multiplex.Schemas.Plan.{RemediationPlan}
use mcp_multiplex.Storage.{Database, PlanRow}
use mcp_multiplex.ConfigAudit.{RunArgs}
use mcp_multiplex.Planning.{Differ}
use mcp_multiplex.Planning.Run.{SelfHealingDryRunResult, plan_self_healing_dry_run}
use mcp_multiplex.Planning.Store.{
  plan_row, has_references, put_plan, insert_remediation_plan, StoredPlans, store_plans, audit_plan,
}

abbrev pub plan_with : String → RemediationPlan → Bool
plan_with id p = p.plan_id == id

abbrev pub row_with : String → PlanRow → Bool
row_with id r = r.plan_id == id

-- A plan with the id whose agent, observed entry and catalog entry are there.
abbrev pub storable : String → Database → RemediationPlan → Bool
storable id db p = p.plan_id == id && has_references p db

unfoldable added : Clock → RemediationPlan → Database → Database
added k p db = record db { plans = db.plans ++ plan_row k p ∷ [] }

added-references :
    (k : Clock) (p q : RemediationPlan) (db : Database)
    → has_references q (added k p db) ≡ has_references q db
unfolding has_references added
added-references k p q db = refl

added-storable :
    (k : Clock) (p : RemediationPlan) (id : String) (plans : List RemediationPlan) (db : Database)
    → has_row (storable id (added k p db)) plans ≡ has_row (storable id db) plans
added-storable k p id [] db = refl
added-storable k p id (q ∷ plans) db =
    rw (added-references k p q db, added-storable k p id plans db)

added-fresh :
    (k : Clock) (p : RemediationPlan) (id : String) (db : Database)
    → has_row (row_with id) db.plans ≡ false
    → (p.plan_id == id) ≡ false
    → has_row (row_with id) (added k p db).plans ≡ false
unfolding added plan_row
added-fresh k p id db fresh other = has_row-append (row_with id) (plan_row k p) db.plans fresh other

inserted-old :
    (k : Clock) (p : RemediationPlan) (db : Database)
    → has_row (row_with p.plan_id) db.plans ≡ true
    → insert_remediation_plan k p db ≡ (ok false, db)
unfolding insert_remediation_plan put_plan
inserted-old k p db old = transaction_ok (put_plan k p) db false db (ground arith)

inserted-new :
    (k : Clock) (p : RemediationPlan) (db : Database)
    → has_row (row_with p.plan_id) db.plans ≡ false
    → has_references p db ≡ true
    → insert_remediation_plan k p db ≡ (ok true, added k p db)
unfolding insert_remediation_plan put_plan added
inserted-new k p db new refers = transaction_ok (put_plan k p) db true (added k p db) (ground arith)

inserted-dangling :
    (k : Clock) (p : RemediationPlan) (db : Database)
    → has_row (row_with p.plan_id) db.plans ≡ false
    → has_references p db ≡ false
    → insert_remediation_plan k p db ≡ (err integrity_error, db)
unfolding insert_remediation_plan put_plan
inserted-dangling k p db new dangles =
    transaction_raised (put_plan k p) db integrity_error (ground arith)

-- The loop's counts after a plan, and the rest of the loop.
abbrev counted : StoredPlans → RemediationPlan → Bool → StoredPlans
counted s p new =
    if new
    then record s { inserted = s.inserted ++ p.plan_id ∷ [] }
    else record s { existing = s.existing ++ p.plan_id ∷ [] }

abbrev next :
    Clock
    → StoredPlans
    → RemediationPlan
    → List RemediationPlan
    → Bool
    → Action Database StoredPlans
next k s p plans new = store_plans k (counted s p new) plans

raises :
    (k : Clock) (s : StoredPlans) (id : String) (plans : List RemediationPlan) (db : Database)
    → has_row (plan_with id) plans ≡ true
    → has_row (storable id db) plans ≡ false
    → has_row (row_with id) db.plans ≡ false
    → (store_plans k s plans db).0 ≡ err integrity_error
unfolding store_plans
raises k s id [] db there nowhere fresh = cc there
raises k s id (p ∷ plans) db there nowhere fresh = elim (Bool-cases (p.plan_id == id)) [
  | inl same ↦
      let new =
        subst (λ x. has_row (row_with x) db.plans ≡ false) (sym ((eq_iff p.plan_id id).0 same))
          fresh in
      let dangles : has_references p db ≡ false = ground arith in
      ap (λ x. x.0)
        (bound_raised (insert_remediation_plan k p) (next k s p plans) db _ db
          (inserted-dangling k p db new dangles))
  | inr other ↦
      let there' : has_row (plan_with id) plans ≡ true = ground arith in
      let nowhere' : has_row (storable id db) plans ≡ false = ground arith in
      elim (Bool-cases (has_row (row_with p.plan_id) db.plans)) [
        | inl old ↦
            ap (λ x. x.0)
              (bound (insert_remediation_plan k p) (next k s p plans) db false db
                (inserted-old k p db old))
            ∙ raises k (counted s p false) id plans db there' nowhere' fresh
        | inr new ↦ elim (Bool-cases (has_references p db)) [
          | inl refers ↦
              ap (λ x. x.0)
                (bound (insert_remediation_plan k p) (next k s p plans) db true (added k p db)
                  (inserted-new k p db new refers))
              ∙ (raises k (counted s p true) id plans (added k p db) there'
                  (added-storable k p id plans db ∙ nowhere') (added-fresh k p id db fresh other))
          | inr dangles ↦
              ap (λ x. x.0)
                (bound_raised (insert_remediation_plan k p) (next k s p plans) db _ db
                  (inserted-dangling k p db new dangles))
        ]
      ]
]

abbrev nothing : StoredPlans
nothing = record { inserted = []; existing = [] }

raised :
    {A B : Type 0} (m : Action Database A) (f : A → Action Database B) (db : Database) (x : Error)
    → (m db).0 ≡ err x
    → ((m >>= f) db).0 ≡ err x
raised m f db x e = ap (λ y. y.0) (bound_raised m f db x (m db).1 (ap (λ r. (r, (m db).1)) e))

-- `audit plan` raises sqlite3.IntegrityError where its dry run made a plan that is not in the table
-- yet, and no plan of the run with its id names an agent, an observed entry and a catalog entry that
-- are there: the foreign keys of the table refuse it.
pub audit_plan_raises :
    (h : Sha256) (u : Urls) (d : Differ) (k : Clock) (a : RunArgs) (include : Bool)
    (entries : List ObservedEntry) (db after : Database) (r : SelfHealingDryRunResult) (id : String)
    → plan_self_healing_dry_run h u d k a include entries db ≡ (ok r, after)
    → has_row (plan_with id) r.plans ≡ true
    → has_row (storable id after) r.plans ≡ false
    → has_row (row_with id) after.plans ≡ false
    → (audit_plan h u d k a include entries db).0 ≡ err integrity_error
unfolding audit_plan
audit_plan_raises h u d k a include entries db after r id run there nowhere fresh =
    ap (λ x. x.0)
      (bound (plan_self_healing_dry_run h u d k a include entries)
        (λ result. store_plans k nothing result.plans >>= λ stored. pure (result, stored)) db r
        after run)
    ∙ raised (store_plans k nothing r.plans) (λ stored. pure (r, stored)) after integrity_error
        (raises k nothing id r.plans after there nowhere fresh)
