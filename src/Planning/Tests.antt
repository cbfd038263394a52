-- ===== src/Planning/Tests.antt =====
-- Dry runs over an entry that the catalog knows, and over one that it does not.
use mcp_multiplex.Prelude.{
  String, Bool, true, false, not, ◌&&◌, has_row, ap, List, [], ◌∷◌, Option, some, none, ◌≡◌, refl,
  All, map, strip_left, strip_right,
}
use mathlib.Core.Path.{subst}
use mcp_multiplex.Exec.{Result, ok, err, integrity_error}
use mcp_multiplex.Storage.{Database}
use mcp_multiplex.Schemas.Plan.{RemediationPlan, diff_from_dict}
use mcp_multiplex.Schemas.Observed.{ObservedEntry, filters_to_dict}
use mcp_multiplex.Samples.{
  sample_sha, sample_urls, sample_clock, sample_observed, unknown_observed, observed_database,
}
use mcp_multiplex.ConfigAudit.{
  RunArgs, event_id, ingestion_events, run_id, put_each, upsert_many, put_observed,
  ingest_observed_entries, drift_events,
}
use mcp_multiplex.Planning.{
  Differ, projection, observed_projection, policy_dict, build_plan, risk_dict, unified_json_diff,
  plan_payload,
}
use mcp_multiplex.Planning.Entries.{
  plan_known, plan_candidate, plan_unsupported, plan_each, plans_of, plan_for_classified_entry,
}
use mcp_multiplex.Planning.Groups.{
  plan_run_id, plan_groups, plan_control_plane, config_snapshot_hash, missing_control_plane,
}
use mcp_multiplex.Planning.Run.{SelfHealingDryRunResult, plan_self_healing_dry_run, planning_events}
use mcp_multiplex.Planning.Dangling.{plan_with, row_with, storable, audit_plan_raises}
use mcp_multiplex.Planning.Frame.{Observes, dry_run-Observes}
use mcp_multiplex.Exec.{Clock}
use mcp_multiplex.Apply.Auto.{AutoApplyDecision, evaluate_auto_apply}
use mcp_multiplex.Apply.{World, Format, ApplyPlan, load_apply_plan}
use mcp_multiplex.Planning.Gated.{IsGated}
use mcp_multiplex.Planning.Store.{put_plan, audit_plan, has_references}
use mcp_multiplex.Planning.Refused.{HasRow, IsRefused}
use mcp_multiplex.Planning.Stored.{IsRewrite, dry_run_plans_wait, only_rewrites_apply_automatically}
use mcp_multiplex.Audit.{
  latest_event_hash, insert_event, build_event, event_allowed, event_hash_payload, stored_event,
  compute_event_hash, append, validate_event,
}
use mcp_multiplex.Schemas.Catalog.{
  transport_to_dict, active_set_from_dict, runtime_to_dict, transport_from_dict, backend_from_dict,
  runtime_from_dict, active_set_to_dict, backend_to_dict,
}
use mcp_multiplex.Planning.Names.{future_catalog_id, plan_id, synthetic_observed_id}
use mcp_multiplex.Schemas.{
  bool_value, validate_hub_path, with_prefix, enum_value, list_value, string_value, text_items,
  texts, require_int, safe_command, object_value, safe_http_url, as_validation, invalid_if,
  texts_value, ◌>>◌, version_of, optional_value, ◌>>=◌, reject_unknown_keys, int_value,
}
use mcp_multiplex.Security.{has_shell_meta, validate_http_url, is_space, validate_command_name}
use mcp_multiplex.Catalog.Candidates.{
  put_candidate, candidate_from_observed_entry, candidate_reasons, candidate_row, refreshed,
  backend_shape, candidate_id, stage, is_local_http_url, candidate_classification,
  stage_unknown_candidate, upsert,
}
use mcp_multiplex.Json.Number.{decimal, read_int}
use mcp_multiplex.Catalog.Matching.{
  score_entry, match_reasons, normalize_url, key_leb, is_exact_hub_url_match,
  is_normalized_backend_url_match, match_observed_entry_from_store, confidence_for_reasons,
  score_all, matched, match_observed_entry, is_alias_name_match, best, match_of,
  is_exact_backend_fingerprint_match, backend_fingerprint_for_observed_entry,
  backend_fingerprint_for_catalog_entry,
}
use mcp_multiplex.Schemas.Health.{issues_from_list, issue_from_dict, summary_from_dict}
use mcp_multiplex.Planning.Kinds.{
  generate_known_direct_rewrite_plan, local_http_args, control_plane_after, import_args,
  generate_missing_control_plane_plan, generate_unsafe_local_http_plan, control_plane_args,
  import_after, control_plane_auth_contract, rewritten, rewrite_args, generate_unknown_import_plan,
}
use mcp_multiplex.Health.{issue_items, summary_dict, empty_summary, payload_dict, issue_dict}
use mcp_multiplex.Catalog.{provenance_of, list, aliases_of}
use mcp_multiplex.Catalog.Routable.{validate_routable_catalog_entry, routing_reasons}
use mcp_multiplex.ConfigAudit.Classify.{
  issues, classified_dict, sorted_observed_entries, classify_observed_entry,
  health_payload_for_classifications, validated_health, classify_observed_entries, count_distinct,
  is_hub_routed, has_drift, classified_items,
}
use mcp_multiplex.Audit.Redact.{redact_secrets, is_secret_key}
use mcp_multiplex.Json.Canonical.{canonical_fields, insert_field, canonical}

abbrev differ : Differ
differ = record { unified = λ a b. "diff" }

abbrev args : RunArgs
args = record { actor = "operator"; run_id = none; timestamp = none; emit_events = true }

unfoldable run : List ObservedEntry → Result SelfHealingDryRunResult × Database
run entries =
    plan_self_healing_dry_run sample_sha sample_urls differ sample_clock args false entries
      observed_database

abbrev kinds_of : Result SelfHealingDryRunResult → Option (List String)
kinds_of (ok r) = some (map (λ (p : RemediationPlan). p.plan_type) r.plans)
kinds_of (err e) = none

-- The plan for the unknown entry names a catalog entry that is not there.
abbrev dangles : String → Result SelfHealingDryRunResult → Database → Bool
dangles id (ok r) db =
    has_row (plan_with id) r.plans
    && (not (has_row (storable id db) r.plans) && not (has_row (row_with id) db.plans))
dangles id (err e) db = false

runs :
    (kinds_of (run (sample_observed ∷ [])).0 ≡ some ("rewrite_known_direct" ∷ []))
    × (kinds_of (run (unknown_observed ∷ [])).0 ≡ some ("import_unknown_candidate" ∷ []))
    × (dangles "plan_import_unknown_candidate"
          (run (unknown_observed ∷ [])).0
          (run (unknown_observed ∷ [])).1
        ≡ true)
unfolding run plan_self_healing_dry_run ingest_observed_entries upsert_many put_each put_observed
    validated_health mcp_multiplex.Schemas.Health.from_dict ◌>>◌ reject_unknown_keys payload_dict
    ◌>>=◌ int_value read_int decimal health_payload_for_classifications version_of string_value
    invalid_if bool_value object_value summary_from_dict summary_dict require_int count_distinct
    issues classify_observed_entries sorted_observed_entries classify_observed_entry is_hub_routed
    empty_summary list_value issues_from_list issue_items issue_from_dict issue_dict enum_value
    optional_value ingestion_events append validate_event build_event latest_event_hash event_id
    plan_run_id canonical compute_event_hash event_hash_payload insert_field redact_secrets
    insert_event event_allowed drift_events has_drift stored_event plan_each
    plan_for_classified_entry match_observed_entry_from_store list mcp_multiplex.Catalog.show
    mcp_multiplex.Schemas.Catalog.from_dict mcp_multiplex.Schemas.Catalog.to_dict
    transport_from_dict transport_to_dict validate_hub_path backend_from_dict backend_to_dict
    safe_command as_validation validate_command_name has_shell_meta is_space safe_http_url
    validate_http_url texts_value texts text_items runtime_from_dict runtime_to_dict with_prefix
    aliases_of active_set_from_dict active_set_to_dict match_observed_entry score_all score_entry
    validate_routable_catalog_entry match_reasons is_exact_hub_url_match
    is_normalized_backend_url_match matched match_of is_exact_backend_fingerprint_match
    backend_fingerprint_for_observed_entry backend_fingerprint_for_catalog_entry is_alias_name_match
    stage_unknown_candidate candidate_from_observed_entry candidate_classification
    mcp_multiplex.Schemas.Candidate.from_dict candidate_id backend_shape candidate_reasons
    is_secret_key candidate_row is_local_http_url put_candidate refreshed
    mcp_multiplex.Catalog.Candidates.show stage upsert best confidence_for_reasons key_leb
    normalize_url routing_reasons provenance_of classified_dict classified_items run_id
    canonical_fields control_plane_after control_plane_args control_plane_auth_contract
    generate_known_direct_rewrite_plan generate_missing_control_plane_plan
    generate_unknown_import_plan generate_unsafe_local_http_plan import_after import_args
    local_http_args rewrite_args rewritten future_catalog_id plan_id synthetic_observed_id
    config_snapshot_hash missing_control_plane plan_candidate plan_control_plane plan_groups
    plan_known plan_unsupported planning_events plans_of build_plan observed_projection plan_payload
    policy_dict projection risk_dict unified_json_diff strip_left strip_right
    mcp_multiplex.Schemas.Candidate.to_dict filters_to_dict mcp_multiplex.Schemas.Observed.to_dict
    diff_from_dict mcp_multiplex.Schemas.Plan.from_dict has_references
runs = (refl, refl, refl)

returned :
    (x : Result SelfHealingDryRunResult × Database) (kinds : List String)
    → kinds_of x.0 ≡ some kinds
    → (r : SelfHealingDryRunResult) × (x ≡ (ok r, x.1))
returned (ok r, db) kinds h = (r, refl)
returned (err e, db) kinds h = cc h

known_returns :
    (r : SelfHealingDryRunResult) × (run (sample_observed ∷ [])
      ≡ (ok r, (run (sample_observed ∷ [])).1))
known_returns = returned (run (sample_observed ∷ [])) _ runs.0

unknown_returns :
    (r : SelfHealingDryRunResult) × (run (unknown_observed ∷ [])
      ≡ (ok r, (run (unknown_observed ∷ [])).1))
unknown_returns = returned (run (unknown_observed ∷ [])) _ runs.1

dry_run_plans_wait_example :
    All
      (λ p.
        IsGated p
        × ((t : Clock) (before stored : Database)
            → put_plan t p before ≡ ok (true, stored)
            → HasRow t p stored)
        × ((t : Clock) (w : World) → HasRow t p w.db → IsRefused p w))
      unknown_returns.0.plans
unfolding run
dry_run_plans_wait_example =
    dry_run_plans_wait sample_sha sample_urls differ sample_clock args false (unknown_observed ∷ [])
      unknown_returns.0 observed_database (run (unknown_observed ∷ [])).1 unknown_returns.1

only_rewrites_apply_automatically_example :
    All
      (λ p.
        (f : Format) (w : World) (q : ApplyPlan) (t : AutoApplyDecision)
        → load_apply_plan p.plan_id w.db ≡ ok q
        → q.plan_type ≡ p.plan_type
        → evaluate_auto_apply f p.plan_id w ≡ ok t
        → t.eligible ≡ true
        → IsRewrite sample_sha sample_urls differ (sample_observed ∷ []) observed_database p)
      known_returns.0.plans
unfolding run
only_rewrites_apply_automatically_example =
    only_rewrites_apply_automatically sample_sha sample_urls differ sample_clock args false
      (sample_observed ∷ []) known_returns.0 observed_database (run (sample_observed ∷ [])).1
      known_returns.1

dry_run-Observes_example :
    Observes observed_database
      (plan_self_healing_dry_run sample_sha sample_urls differ sample_clock args false
        (unknown_observed ∷ [])
        observed_database).1
dry_run-Observes_example =
    dry_run-Observes sample_sha sample_urls differ sample_clock args false (unknown_observed ∷ [])
      observed_database

split3 : (a b c : Bool) → (a && (not b && not c)) ≡ true → (a ≡ true) × (b ≡ false) × (c ≡ false)
split3 true false false h = (refl, refl, refl)
split3 true false true h = cc h
split3 true true c h = cc h
split3 false b c h = cc h

dangling :
    let r = unknown_returns.0 in
    let db = (run (unknown_observed ∷ [])).1 in
    (has_row (plan_with "plan_import_unknown_candidate") r.plans ≡ true)
    × (has_row (storable "plan_import_unknown_candidate" db) r.plans ≡ false)
    × (has_row (row_with "plan_import_unknown_candidate") db.plans ≡ false)
dangling = split3 _ _ _ (
    subst (λ x. dangles "plan_import_unknown_candidate" x (run (unknown_observed ∷ [])).1 ≡ true)
      (ap (λ o. o.0) unknown_returns.1) runs.2)

audit_plan_raises_example :
    (audit_plan sample_sha sample_urls differ sample_clock args false
      (unknown_observed ∷ [])
      observed_database).0
    ≡ err integrity_error
unfolding run
audit_plan_raises_example =
    audit_plan_raises sample_sha sample_urls differ sample_clock args false (unknown_observed ∷ [])
      observed_database (run (unknown_observed ∷ [])).1 unknown_returns.0
      "plan_import_unknown_candidate" unknown_returns.1 dangling.0 dangling.1 dangling.2
