-- ===== src/Apply/Tests.antt =====
-- Runs of an apply: one that succeeds, and one whose new configuration a validator refuses.
use mathlib.Core.Path.{subst}
use mathlib.Core.Option.{some-injective}
use mcp_multiplex.Prelude.{String, false, none, some, ◌≡◌, ◌⊎◌, refl, sym, ap, ◌==◌}
use mcp_multiplex.Json.Canonical.{canonical, canonical_fields, canonical_items, insert_field}
use mcp_multiplex.Exec.{Result, ok, err}
use mcp_multiplex.Samples.{sample_sha, sample_clock}
use mcp_multiplex.Audit.{
  event_hash_payload, compute_event_hash, latest_event_hash, validate_event, build_event,
  stored_event, event_allowed, insert_event, append,
}
use mcp_multiplex.Audit.Redact.{redact_secrets, redact_fields, redact_items, is_secret_key}
use mcp_multiplex.Approvals.{approval_checks, validate_approval, show, find_by_plan}
use mcp_multiplex.Apply.{
  read_file, ApplyPlan, approval_required, plan_of_row, load_apply_plan, require_apply_allowed,
  policy_after, verify_preimage, verify_post_state,
}
use mcp_multiplex.Json.Number.{decimal}
use mcp_multiplex.Apply.Backups.{
  sha256_bytes, backup_id, event_id, new_backup, show_backup, insert_backup, write, create_backup,
  mark_restored, rollback_event, load_backup, record_rollback, rollback_backup,
}
use mcp_multiplex.Apply.Run.{
  inspect, rewritten, attempt, apply_event, report_failure, recover, report_applied, finish,
  apply_with_backup, apply_plan,
}
use mcp_multiplex.Apply.Restores.{Restored, Applied}
use mcp_multiplex.Apply.Outcome.{IsAllowed, Refused, apply_outcome}
use mcp_multiplex.Apply.Samples.{target, row, format, disk, options, refusing, world}

apply_run :
    read_file target
      (apply_plan sample_sha sample_clock format disk (options none) "plan_1" world).1.files
    ≡ some "new"
unfolding approval_checks validate_approval show find_by_plan approval_required plan_of_row
    load_apply_plan require_apply_allowed policy_after verify_preimage verify_post_state
    sha256_bytes backup_id event_id decimal show_backup insert_backup write create_backup inspect
    rewritten attempt apply_event report_applied finish apply_with_backup apply_plan
    event_hash_payload compute_event_hash latest_event_hash validate_event build_event stored_event
    event_allowed insert_event append redact_secrets redact_fields redact_items is_secret_key
    canonical canonical_fields canonical_items insert_field
apply_run = refl

refused_run :
    read_file target
      (apply_plan sample_sha sample_clock format disk (options refusing) "plan_1" world).1.files
    ≡ some "old"
unfolding approval_checks validate_approval show find_by_plan approval_required plan_of_row
    load_apply_plan require_apply_allowed policy_after verify_preimage verify_post_state
    sha256_bytes backup_id event_id decimal show_backup insert_backup write create_backup
    mark_restored rollback_event load_backup record_rollback rollback_backup inspect rewritten
    attempt apply_event report_failure recover apply_with_backup apply_plan event_hash_payload
    compute_event_hash latest_event_hash validate_event build_event stored_event event_allowed
    insert_event append redact_secrets redact_fields redact_items is_secret_key canonical
    canonical_fields canonical_items insert_field
refused_run = refl

abbrev plan : ApplyPlan
plan = record {
  plan_id = "plan_1";
  plan_type = "rewrite_known_direct";
  status = "approved";
  agent_id = none;
  target_path = target;
  observed_entry_id = "obs_1";
  policy = row.policy;
  expected_preimage_hash = "sha256:e1";
}

abbrev plan_or : Result ApplyPlan → ApplyPlan
plan_or (ok p) = p
plan_or (err e) = plan

kept_apart :
    (p : ApplyPlan) (before : String)
    → load_apply_plan "plan_1" world.db ≡ ok p
    → read_file p.target_path world.files ≡ some before
    → (p.target_path
        == (new_backup sample_sha sample_clock p.plan_id p.target_path "/c/.mcp-multiplex-backups"
            before none).backup_path)
      ≡ false
unfolding load_apply_plan plan_of_row sha256_bytes backup_id
kept_apart p before loaded read =
    let same : plan ≡ p = ap plan_or loaded in
    let old : "old" ≡ before = some-injective "old" before (
      subst (λ (q : ApplyPlan). read_file q.target_path world.files ≡ some before) (sym same)
        read) in
    subst
      (λ (q : ApplyPlan).
        (q.target_path
          == (new_backup sample_sha sample_clock q.plan_id q.target_path "/c/.mcp-multiplex-backups"
              before none).backup_path)
        ≡ false)
      same
      (subst
        (λ (b : String).
          (target
            == (new_backup sample_sha sample_clock "plan_1" target "/c/.mcp-multiplex-backups" b
                none).backup_path)
          ≡ false)
        old refl)

apply_outcome_example :
    let r = apply_plan sample_sha sample_clock format disk (options refusing) "plan_1" world in
    Refused world r
    ⊎ ((p : ApplyPlan) × (before : String) × IsAllowed "plan_1" p world.db
        × (read_file p.target_path world.files ≡ some before)
        × (Restored p.target_path before r ⊎ Applied format (options refusing) p before r))
apply_outcome_example =
    apply_outcome sample_sha sample_clock format disk (options refusing) "plan_1" world refl
      kept_apart

decimal_run : decimal 1209 ≡ "1209"
unfolding decimal
decimal_run = refl
