-- ===== src/Approvals/Tests.antt =====
-- Runs of the approval lifecycle on one plan.
use mcp_multiplex.Prelude.{
  String, true, List, [], ◌∷◌, none, some, is_some, elem, text_or, ◌≡◌, ◌⊎◌, refl, arith, apart,
}
use mcp_multiplex.Json.Canonical.{canonical, canonical_fields, insert_field}
use mcp_multiplex.Exec.{Error, approval_error, ok, err, Clock}
use mcp_multiplex.Storage.{PlanRow, Approval}
use mcp_multiplex.Samples.{sample_sha, sample_clock, sample_database, sample_approval}
use mcp_multiplex.Audit.{
  event_hash_payload, compute_event_hash, latest_event_hash, validate_event, build_event,
  stored_event, event_allowed, insert_event, append,
}
use mcp_multiplex.Audit.Redact.{redact_secrets, is_secret_key}
use mcp_multiplex.Approvals.{
  approval_required, approval_checks, validate_approval, find_plan, show, decision_channels,
}
use mcp_multiplex.Approvals.Decide.{
  authorize_decision, record_decision, decision_event, commit_decision, approved, rejected,
  decided_as, decide,
}
use mcp_multiplex.Approvals.Decisions.{IsAuthorized, find_approval}
use mcp_multiplex.Approvals.Lifecycle.{Decides, decide_outcome}
use mcp_multiplex.Approvals.Final.{Call, decision, run_all, decision_is_final}
use mcp_multiplex.Approvals.Operator.{IsOperated, decided_by_operator}

abbrev approve : String → Call
approve channel = decision "appr_1" approved "ana" channel none (some "looks right")

abbrev granted : Approval
granted =
    decided_as sample_approval approved "ana" "tui" "2026-01-02T03:04:05Z" (some "looks right")

-- The operator's decision is made, the model's is refused.
decide-run :
    (decide sample_sha sample_clock "appr_1" approved "ana" "tui" none
      (some "looks right")
      sample_database).0
    ≡ ok granted
unfolding approval_required approval_checks validate_approval find_plan show authorize_decision
    record_decision decision_event commit_decision decide event_hash_payload compute_event_hash
    latest_event_hash validate_event build_event stored_event event_allowed insert_event append
    redact_secrets is_secret_key canonical canonical_fields insert_field
decide-run = refl

model_refused :
    decide sample_sha sample_clock "appr_1" approved "bot" "agent" none none sample_database ≡ (
      err (approval_error "model-only approval is insufficient for destructive operations"),
      sample_database,
    )
unfolding authorize_decision decide
model_refused = refl

abbrev calls : List (Clock × Call)
calls = (sample_clock, approve "tui") ∷ []

approved_found : find_approval "appr_1" (run_all sample_sha calls sample_database) ≡ some granted
unfolding approval_required approval_checks validate_approval find_plan show authorize_decision
    record_decision decision_event commit_decision decide event_hash_payload compute_event_hash
    latest_event_hash validate_event build_event stored_event event_allowed insert_event append
    redact_secrets is_secret_key canonical canonical_fields insert_field
approved_found = refl

decide_outcome_example :
    ((x : Error) × (decide sample_sha sample_clock "appr_1" approved "ana" "tui" none none
          sample_database
        ≡ (err x, sample_database)))
    ⊎ ((a : Approval) × (p : PlanRow) × IsAuthorized "appr_1" "tui" sample_database a p
        × let e = decided_as a approved "ana" "tui" (text_or none sample_clock.now) none in
          let db' =
            decide sample_sha sample_clock "appr_1" approved "ana" "tui" none none
              sample_database in
          Decides "appr_1" a p e sample_clock.sql_now sample_database db'.1
          × ((r : Approval) → db'.0 ≡ ok r → r ≡ e))
decide_outcome_example =
    decide_outcome sample_sha sample_clock "appr_1" approved "ana" "tui" none none sample_database

decision_is_final_example :
    find_approval "appr_1" (
      run_all sample_sha
        ((sample_clock, decision "appr_1" rejected "eve" "cli" none none) ∷ [])
        (run_all sample_sha calls sample_database))
    ≡ some granted
decision_is_final_example =
    decision_is_final sample_sha
      ((sample_clock, decision "appr_1" rejected "eve" "cli" none none) ∷ []) "appr_1" granted
      (run_all sample_sha calls sample_database) approved_found (apart "approved" "pending" refl)

none_decided : IsOperated sample_approval
none_decided = record { channel = λ d. ground arith; time = λ d. ground arith }

decided_by_operator_example :
    (elem granted.channel decision_channels ≡ true) × (is_some granted.decision_at ≡ true)
decided_by_operator_example =
    decided_by_operator sample_sha calls "appr_1" granted sample_database (none_decided, tt)
      approved_found refl
