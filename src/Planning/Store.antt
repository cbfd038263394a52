-- ===== src/Planning/Store.antt =====
-- cli/__init__.py: `audit plan`, which runs the dry run and stores its plans.
use mcp_multiplex.Prelude.{
  String, Bool, true, false, ◌&&◌, List, [], ◌∷◌, ◌++◌, some, if◌then◌else◌, ◌==◌, has_row,
}
use mcp_multiplex.Json.Canonical.{canonical_fields}
use mcp_multiplex.Exec.{
  Result, ok, err, integrity_error, Action, pure, transaction, Sha256, Clock, ◌>>=◌,
}
use mcp_multiplex.Security.{Urls}
use mcp_multiplex.Schemas.Observed.{ObservedEntry}
use mcp_multiplex.Schemas.Plan.{RemediationPlan}
use mcp_multiplex.Storage.{Database, AgentRow, PlanRow, CatalogRow, ObservedRow}
use mcp_multiplex.ConfigAudit.{RunArgs}
use mcp_multiplex.Planning.{Differ}
use mcp_multiplex.Planning.Run.{SelfHealingDryRunResult, plan_self_healing_dry_run}

-- The row of a plan, of the columns that are read.
unfoldable pub plan_row : Clock → RemediationPlan → PlanRow
plan_row c p = record {
  plan_id = p.plan_id;
  plan_type = p.plan_type;
  status = p.status;
  agent_id = some p.agent_id;
  target_path = some p.target_path;
  observed_entry_id = some p.observed_entry_id;
  policy = canonical_fields p.policy;
  expected_preimage_hash = some p.expected_preimage_hash;
  updated_at = c.sql_now;
}

abbrev pub has_agent : String → Database → Bool
has_agent id db = has_row (λ (a : AgentRow). a.agent_id == id) db.agents

abbrev pub has_observed : String → Database → Bool
has_observed id db =
    has_row (λ (r : ObservedRow). r.entry.observed_entry_id == id) db.observed_entries

abbrev pub has_catalog : String → Database → Bool
has_catalog id db = has_row (λ (r : CatalogRow). r.entry.catalog_id == id) db.catalog_entries

-- The foreign keys of the table remediation_plans
unfoldable pub has_references : RemediationPlan → Database → Bool
has_references p db =
    has_agent p.agent_id db && (has_observed p.observed_entry_id db && has_catalog p.catalog_id db)

-- `_insert_remediation_plan`: INSERT … ON CONFLICT(plan_id) DO NOTHING. Was a row inserted?
unfoldable pub put_plan : Clock → RemediationPlan → Database → Result (Bool × Database)
put_plan c p db =
    if has_row (λ (r : PlanRow). r.plan_id == p.plan_id) db.plans
    then ok (false, db)
    else if has_references p db
    then ok (true, record db { plans = db.plans ++ plan_row c p ∷ [] })
    else err integrity_error

unfoldable pub insert_remediation_plan : Clock → RemediationPlan → Action Database Bool
insert_remediation_plan c p = transaction (put_plan c p)

pub record StoredPlans : Type 0 where
  pub inserted : List String
  pub existing : List String

-- The loop of `audit_plan_command`, after the plans that it has stored.
unfoldable pub store_plans :
    Clock → StoredPlans → List RemediationPlan → Action Database StoredPlans
store_plans c s [] = pure s
store_plans c s (p ∷ plans) = do
  new ← insert_remediation_plan c p
  store_plans c
      (if new
        then record s { inserted = s.inserted ++ p.plan_id ∷ [] }
        else record s { existing = s.existing ++ p.plan_id ∷ [] })
      plans

-- `audit_plan_command`, of the entries that the adapters parsed
unfoldable pub audit_plan :
    Sha256
    → Urls
    → Differ
    → Clock
    → RunArgs
    → (include_missing_control_plane : Bool) → List ObservedEntry
    → Action Database (SelfHealingDryRunResult × StoredPlans)
audit_plan h u d c a include entries = do
  result ← plan_self_healing_dry_run h u d c a include entries
  stored ← store_plans c (record { inserted = []; existing = [] }) result.plans
  pure (result, stored)
