-- ===== src/Planning/Run.antt =====
-- planning/__init__.py: the dry run over observed entries, with its event.
use mcp_multiplex.Prelude.{
  String, Bool, true, false, List, [], ◌∷◌, ◌++◌, some, map, text_or, length,
}
use mcp_multiplex.Json.{Fields, boolean, array, field, end}
use mcp_multiplex.Exec.{Action, pure, lift, Sha256, Clock, ◌>>=◌}
use mcp_multiplex.Security.{Urls}
use mcp_multiplex.Schemas.{text_items, int_json}
use mcp_multiplex.Schemas.Observed.{ObservedEntry}
use mcp_multiplex.Schemas.Plan.{RemediationPlan}
use mcp_multiplex.Storage.{Database, EventRow}
use mcp_multiplex.Audit.{append}
use mcp_multiplex.ConfigAudit.{RunArgs, IngestionResult, run_event, ingest_observed_entries}
use mcp_multiplex.Planning.{Differ}
use mcp_multiplex.Planning.Entries.{PlanningOutcome, plan_each, plans_of}
use mcp_multiplex.Planning.Groups.{plan_run_id, control_plane_outcomes}

abbrev planned_payload : List RemediationPlan → Fields
planned_payload plans = field "plan_count" (int_json (length plans)) (
    field "plan_ids" (array (text_items (map (λ (p : RemediationPlan). p.plan_id) plans))) (
      field "plan_types" (array (text_items (map (λ (p : RemediationPlan). p.plan_type) plans)))
        (field "dry_run_only" (boolean true) end)))

-- The event of a run that made plans.
unfoldable pub planning_events :
    Sha256 → Clock → RunArgs → String → List RemediationPlan → Action Database (List EventRow)
planning_events h c a run [] = pure []
planning_events h c a run (p ∷ plans) = elim a.emit_events [
  | false ↦ pure []
  | true ↦ do
    e ←
        append h c
          (run_event h run "remediation.planned" a.actor (planned_payload (p ∷ plans)) a.timestamp)
    pure (e ∷ [])
]

pub record SelfHealingDryRunResult : Type 0 where
  pub ingestion : IngestionResult
  pub outcomes : List PlanningOutcome
  pub plans : List RemediationPlan
  pub events : List EventRow

unfoldable pub plan_self_healing_dry_run :
    Sha256
    → Urls
    → Differ
    → Clock
    → RunArgs
    → (include_missing_control_plane : Bool) → List ObservedEntry
    → Action Database SelfHealingDryRunResult
plan_self_healing_dry_run h u d c a include entries = do
  let run = text_or a.run_id (plan_run_id h entries)
  let created_at = text_or a.timestamp c.now
  ingestion ← ingest_observed_entries h c (record a { run_id = some run }) entries
  known ← plan_each h u d c created_at ingestion.classifications
  missing ← lift (control_plane_outcomes h d include created_at ingestion.observed_entries)
  let outcomes = known ++ missing
  events ← planning_events h c a run (plans_of outcomes)
  pure (record {
    ingestion = ingestion;
    outcomes = outcomes;
    plans = plans_of outcomes;
    events = ingestion.events ++ events;
  })
