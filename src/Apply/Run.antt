-- ===== src/Apply/Run.antt =====
-- `apply_plan` of apply/__init__.py.
use mcp_multiplex.Prelude.{String, Bool, true, not, Option, none, some, ◌==◌, ◌<>◌, update_rows}
use mcp_multiplex.Json.{Fields, boolean, text, field, end}
use mcp_multiplex.Exec.{
  Error, apply_error, os_error, Result, ok, err, and_then, require, refuse_if, Action, pure, lift,
  raise, reads, modify, Sha256, Clock, ◌>>=◌, ◌>>◌,
}
use mcp_multiplex.Storage.{Database, PlanRow, ConfigBackup}
use mcp_multiplex.Audit.{EventArgs, append}
use mcp_multiplex.Apply.{
  World, on_db, read_file, Disk, ApplyPlan, Format, load_apply_plan, require_apply_allowed,
  verify_preimage, verify_post_state,
}
use mcp_multiplex.Apply.Backups.{
  sha256_bytes, event_id, new_backup, create_backup, write, rollback_backup,
}

-- `ApplyResult`
pub record ApplyResult : Type 0 where
  pub plan_id : String
  pub target_path : String
  pub backup : ConfigBackup
  pub before_hash : String
  pub after_hash : String
  pub verified : Bool

-- The arguments: who applies, at what time, where backups go, and what is checked after the write,
-- which reads the target; a printer of exceptions is `str(error)`.
pub record Options : Type 0 where
  pub actor : String
  pub timestamp : Option String
  pub backup_dir : String
  pub post_write_validator : Option (Option String → Result (Unit {0}))
  pub print : Error → String

-- What is read and checked before anything is written: the plan and the bytes of its target.
unfoldable pub inspect : Format → String → World → Result (ApplyPlan × String)
inspect f plan_id w = and_then (load_apply_plan plan_id w.db) λ plan.
    and_then (require_apply_allowed plan w.db) λ u.
      and_then
        (refuse_if (not (plan.plan_type == "rewrite_known_direct"))
          (apply_error ("unsupported apply plan_type: " <> plan.plan_type)))
        λ u.
          and_then
            (require (read_file plan.target_path w.files)
              (apply_error ("cannot read target config: " <> plan.target_path)))
            λ before.
              and_then (verify_preimage f plan (read_file plan.target_path w.files))
                λ u. ok (plan, before)

abbrev pub run_validator :
    Option (Option String → Result (Unit {0})) → Option String → Result (Unit {0})
run_validator none content = ok tt
run_validator (some validator) content = validator content

-- The new text of the target, checked.
unfoldable pub rewritten : Format → ApplyPlan → String → Result String
rewritten f plan before = and_then (f.decode before) λ old.
    and_then (f.rewrite plan old) λ new. and_then (f.validate plan new) λ u. ok (f.encode new)

-- The body of `try`.
unfoldable pub attempt : Format → Disk → Options → ApplyPlan → String → Action World (Unit {0})
attempt f disk o plan before = do
  after ← lift (rewritten f plan before)
  write disk.takes_config plan.target_path after
  reads (λ w. run_validator o.post_write_validator (read_file plan.target_path w.files))
  reads (λ w. verify_post_state f plan (read_file plan.target_path w.files))

abbrev pub set_status : Clock → String → String → Database → Database
set_status c status plan_id db = record db {
  plans =
      update_rows (λ (p : PlanRow). p.plan_id == plan_id)
        (λ (p : PlanRow). record p { status = status; updated_at = c.sql_now }) db.plans;
}

unfoldable pub apply_event :
    Sha256
    → Clock
    → Options
    → ApplyPlan
    → ConfigBackup
    → (event_type result before_hash after_hash : String) → Fields
    → EventArgs
apply_event h c o plan backup event_type result before_hash after_hash payload = record {
  event_id = event_id h c plan.plan_id event_type o.timestamp;
  event_type = event_type;
  actor = o.actor;
  result = result;
  payload = payload;
  agent_id = plan.agent_id;
  plan_id = some plan.plan_id;
  target_path = some plan.target_path;
  before_hash = some before_hash;
  after_hash = some after_hash;
  backup_id = some backup.backup_id;
  timestamp = o.timestamp;
}

-- `_mark_plan_failed`, the event of the failure, and the ApplyError.
unfoldable pub report_failure :
    Sha256
    → Clock
    → Options
    → ApplyPlan
    → ConfigBackup
    → (before_hash restored_hash : String) → Error
    → Action Database ApplyResult
report_failure h c o plan backup before_hash restored_hash error = do
  modify (set_status c "failed" plan.plan_id)
  append h c (
      apply_event h c o plan backup "remediation.failed" "failure" before_hash restored_hash
        (field "error" (text (o.print error)) (field "rollback_complete" (boolean true) end)))
  raise (apply_error ("apply failed and rollback completed: " <> o.print error))

-- The body of `except`.
unfoldable pub recover :
    Sha256
    → Clock
    → Disk
    → Options
    → ApplyPlan
    → ConfigBackup
    → String
    → Error
    → Action World ApplyResult
recover h c disk o plan backup before_hash error = do
  rollback ←
      rollback_backup h c disk.takes_restored backup.backup_id o.actor (o.print error) o.timestamp
  on_db (report_failure h c o plan backup before_hash rollback.restored_hash error)

-- What follows the `try` where it did not raise.
unfoldable pub report_applied :
    Sha256
    → Clock
    → Options
    → ApplyPlan
    → ConfigBackup
    → (before_hash after_hash : String) → Action Database ApplyResult
report_applied h c o plan backup before_hash after_hash = do
  modify (set_status c "applied" plan.plan_id)
  append h c (
      apply_event h c o plan backup "remediation.applied" "success" before_hash after_hash
        (field "verified" (boolean true) end))
  pure (record {
    plan_id = plan.plan_id;
    target_path = plan.target_path;
    backup = backup;
    before_hash = before_hash;
    after_hash = after_hash;
    verified = true;
  })

unfoldable pub finish :
    Sha256 → Clock → Options → ApplyPlan → ConfigBackup → String → Action World ApplyResult
finish h c o plan backup before_hash = do
  after ← reads (λ w. require (read_file plan.target_path w.files) (os_error plan.target_path))
  on_db (report_applied h c o plan backup before_hash (sha256_bytes h after))

-- `try` and what follows.
unfoldable pub apply_with_backup :
    Sha256
    → Clock
    → Format
    → Disk
    → Options
    → ApplyPlan
    → String
    → ConfigBackup
    → Action World ApplyResult
apply_with_backup h c f disk o plan before backup w =
    let (outcome, now) = attempt f disk o plan before w in
    elim outcome [
      | ok u ↦ finish h c o plan backup (sha256_bytes h before) now
      | err e ↦ recover h c disk o plan backup (sha256_bytes h before) e now
    ]

unfoldable pub apply_plan :
    Sha256 → Clock → Format → Disk → Options → String → Action World ApplyResult
apply_plan h c f disk o plan_id = do
  inspected ← reads (inspect f plan_id)
  let fresh =
      new_backup h c inspected.0.plan_id inspected.0.target_path o.backup_dir inspected.1
        o.timestamp
  backup ← create_backup disk.takes_backup fresh inspected.1
  apply_with_backup h c f disk o inspected.0 inspected.1 backup
