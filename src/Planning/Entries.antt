-- ===== src/Planning/Entries.antt =====
-- planning/__init__.py: what is planned for each observed entry.
use mcp_multiplex.Prelude.{
  String, Bool, true, false, not, ◌&&◌, List, [], ◌∷◌, Option, none, some, if◌then◌else◌, ◌==◌,
  text_or, is_some,
}
use mcp_multiplex.Exec.{Result, ok, and_then, Action, pure, lift, reads, Sha256, Clock, ◌>>=◌}
use mcp_multiplex.Security.{Urls}
use mcp_multiplex.Schemas.Observed.{ObservedEntry}
use mcp_multiplex.Schemas.Catalog.{CatalogEntry}
use mcp_multiplex.Schemas.Candidate.{CatalogCandidate}
use mcp_multiplex.Schemas.Plan.{RemediationPlan}
use mcp_multiplex.Storage.{Database}
use mcp_multiplex.Catalog
use mcp_multiplex.Catalog.Matching.{CatalogMatch, match_observed_entry_from_store}
use mcp_multiplex.Catalog.Candidates.{CandidateStageResult, stage_unknown_candidate}
use mcp_multiplex.ConfigAudit.Classify.{ClassifiedObservedEntry}
use mcp_multiplex.Planning.{Differ}
use mcp_multiplex.Planning.Kinds.{
  is_routed, generate_known_direct_rewrite_plan, generate_unknown_import_plan,
  generate_unsafe_local_http_plan,
}

pub record PlanningOutcome : Type 0 where
  pub action : String
  pub observed_entry_id : String
  pub agent_id : String
  pub target_path : String
  pub classification : String
  pub plan : Option RemediationPlan
  pub match : Option CatalogMatch
  pub candidate_stage : Option CandidateStageResult
  pub reason : String

-- The outcome of an entry.
abbrev pub outcome :
    ObservedEntry
    → (action classification reason : String) → Option RemediationPlan
    → Option CatalogMatch
    → Option CandidateStageResult
    → PlanningOutcome
outcome o action classification reason plan m stage = record {
  action = action;
  observed_entry_id = o.observed_entry_id;
  agent_id = o.agent_id;
  target_path = o.config_path;
  classification = classification;
  plan = plan;
  match = m;
  candidate_stage = stage;
  reason = reason;
}

abbrev pub compliant : ObservedEntry → String → CatalogMatch → PlanningOutcome
compliant o classification m =
    outcome o "already_compliant" classification "entry is already routed through the Hub" none
      (some m) none

-- The match names an entry, with high confidence.
abbrev pub is_high : CatalogMatch → Bool
is_high m = is_some m.catalog_id && m.confidence == "high"

-- An entry that its parser does not fully understand is not planned for.
unfoldable pub plan_unsupported :
    Urls → ObservedEntry → CatalogMatch → Database → Result PlanningOutcome
plan_unsupported u o m db =
    let blocked =
      outcome o "blocked_unsupported_entry" "unsupported_entry"
        "parser confidence is incomplete; planning is audit-only" none none none in
    let routed =
      and_then (Catalog.show u (text_or m.catalog_id "") db)
        (λ e. ok (if is_routed o e then compliant o "unsupported_entry" m else blocked)) in
    if is_high m && m.routable then routed else ok blocked

-- An entry of the catalog is routed, if it may be.
unfoldable pub plan_known :
    Sha256
    → Urls
    → Differ
    → ObservedEntry
    → (classification created_at : String) → CatalogMatch
    → Database
    → Result PlanningOutcome
plan_known h u d o classification created_at m db =
    let rewrite = λ (e : CatalogEntry).
      and_then (generate_known_direct_rewrite_plan h d o e m created_at) (λ p. ok (
        outcome o "planned_known_direct_rewrite" classification
          "high-confidence catalog match can be routed through the Hub" (some p) (some m) none)) in
    let known =
      and_then (Catalog.show u (text_or m.catalog_id "") db)
        (λ e. if is_routed o e then ok (compliant o classification m) else rewrite e) in
    if not m.routable
    then ok (
        outcome o "blocked_known_match_not_routable" classification
          "catalog match is known but not routable" none (some m) none)
    else known

-- The plan for a candidate that was staged.
unfoldable pub plan_candidate :
    Sha256
    → Urls
    → Differ
    → ObservedEntry
    → (classification created_at : String) → CatalogMatch
    → CandidateStageResult
    → Option CatalogCandidate
    → Result PlanningOutcome
plan_candidate h u d o classification created_at m stage none = ok (
    outcome o "no_candidate_available" classification "entry did not produce a catalog candidate"
      none (some m) (some stage))
plan_candidate h u d o classification created_at m stage (some c) =
    if c.classification == "unknown_local_http"
    then and_then (generate_unsafe_local_http_plan h u d o c created_at) (λ p. ok (
        outcome o "planned_unsafe_local_http" classification
          "unknown loopback HTTP endpoint requires operator review" (some p) (some m) (some stage)))
    else and_then (generate_unknown_import_plan h u d o c created_at) (λ p. ok (
        outcome o "planned_unknown_import" classification
          "unknown direct MCP is staged as a candidate" (some p) (some m) (some stage)))

-- `_plan_for_classified_entry`
unfoldable pub plan_for_classified_entry :
    Sha256
    → Urls
    → Differ
    → Clock
    → ObservedEntry
    → (classification created_at : String) → Action Database PlanningOutcome
plan_for_classified_entry h u d c o classification created_at = do
  m ← reads (match_observed_entry_from_store h u o)
  elim (classification == "compliant_hub_routed") [
    | true ↦ pure (compliant o classification m)
    | false ↦ elim (classification == "unsupported_entry") [
      | true ↦ reads (plan_unsupported u o m)
      | false ↦ elim (is_high m) [
        | true ↦ reads (plan_known h u d o classification created_at m)
        | false ↦ do
          stage ← stage_unknown_candidate h u c o
          lift (plan_candidate h u d o classification created_at m stage stage.candidate)
      ]
    ]
  ]

-- The loop over the classified entries.
unfoldable pub plan_each :
    Sha256
    → Urls
    → Differ
    → Clock
    → String
    → List ClassifiedObservedEntry
    → Action Database (List PlanningOutcome)
plan_each h u d c created_at [] = pure []
plan_each h u d c created_at (i ∷ items) = do
  first ← plan_for_classified_entry h u d c i.observed_entry i.classification created_at
  rest ← plan_each h u d c created_at items
  pure (first ∷ rest)

-- The plans of the outcomes.
unfoldable pub plans_of : List PlanningOutcome → List RemediationPlan
plans_of [] = []
plans_of (o ∷ outcomes) =
    let rest = plans_of outcomes in elim o.plan [ none ↦ rest | some p ↦ p ∷ rest ]
