-- ===== src/Apply/Restores.antt =====
-- An apply either rewrites its target and has verified it, or leaves the target's exact bytes.
use mathlib.Core.Path.{subst}
use mcp_multiplex.Prelude.{
  String, true, false, Option, some, ◌≡◌, ◌⊎◌, inl, inr, sym, ap, ◌∙◌, arith, ◌==◌, ◌<>◌, eq_iff,
  Option-cases,
}
use mcp_multiplex.Exec.{Error, apply_error, Result, ok, err, Result-cases, Sha256, Clock}
use mcp_multiplex.Storage.{Database, ConfigBackup}
use mcp_multiplex.Apply.{World, read_file, write_file, Disk, ApplyPlan, Format}
use mcp_multiplex.Apply.Backups.{sha256_bytes, show_backup, write, load_backup, rollback_backup}
use mcp_multiplex.Audit.{append}
use mcp_multiplex.Json.{field, text, boolean, end}
use mcp_multiplex.Apply.Run.{
  ApplyResult, Options, set_status, apply_event, report_failure, recover, finish, apply_with_backup,
}
use mcp_multiplex.Apply.Files.{read-write, read-write_other, Verified, attempt-cases}

load_backup-eq :
    (h : Sha256) (b : ConfigBackup) (content : String) (w : World)
    → show_backup b.backup_id w.db ≡ ok b
    → read_file b.backup_path w.files ≡ some content
    → b.before_hash ≡ sha256_bytes h content
    → load_backup h b.backup_id w ≡ ok (b, content)
unfolding load_backup
load_backup-eq h b content w shown read hash =
    ground (arith, eq_iff (sha256_bytes h content) b.before_hash)

-- A rollback puts the backup's bytes into the target.
pub rollback-files :
    (h : Sha256) (c : Clock) (b : ConfigBackup) (content actor reason : String) (t : Option String)
    (w : World)
    → show_backup b.backup_id w.db ≡ ok b
    → read_file b.backup_path w.files ≡ some content
    → b.before_hash ≡ sha256_bytes h content
    → (rollback_backup h c true b.backup_id actor reason t w).1.files
      ≡ write_file b.target_path content w.files
unfolding rollback_backup write
rollback-files h c b content actor reason t w shown read hash =
    let loaded = load_backup-eq h b content w shown read hash in ground arith

report_failure-raises :
    (h : Sha256) (c : Clock) (o : Options) (p : ApplyPlan) (b : ConfigBackup)
    (before_hash restored_hash : String) (e : Error) (db : Database)
    → (x : Error) × ((report_failure h c o p b before_hash restored_hash e db).0 ≡ err x)
unfolding report_failure
report_failure-raises h c o p b before_hash restored_hash e db =
    let event =
      apply_event h c o p b "remediation.failed" "failure" before_hash restored_hash
        (field "error" (text (o.print e)) (field "rollback_complete" (boolean true) end)) in
    elim (Result-cases (append h c event (set_status c "failed" p.plan_id db)).0) [
      | inl (r, stored) ↦
          (apply_error ("apply failed and rollback completed: " <> o.print e), ground arith)
      | inr (x, failed) ↦ (x, ground arith)
    ]

-- A recovery raises, and leaves the files that the rollback left.
recover-raises :
    (h : Sha256) (c : Clock) (disk : Disk) (o : Options) (p : ApplyPlan) (b : ConfigBackup)
    (before_hash : String) (e : Error) (w : World)
    → ((x : Error) × ((recover h c disk o p b before_hash e w).0 ≡ err x))
      × ((recover h c disk o p b before_hash e w).1.files
          ≡ (rollback_backup h c disk.takes_restored b.backup_id o.actor
              (o.print e)
              o.timestamp
              w).1.files)
unfolding recover
recover-raises h c disk o p b before_hash e w =
    let rolled =
      rollback_backup h c disk.takes_restored b.backup_id o.actor (o.print e) o.timestamp w in
    elim (Result-cases rolled.0) [
      | inl (r, done) ↦
          let (x, raised) =
            report_failure-raises h c o p b before_hash r.restored_hash e rolled.1.db in
          ((x, ground arith), ground arith)
      | inr (x, failed) ↦ ((x, ground arith), ground arith)
    ]

-- What follows the `try` writes no file.
finish-files :
    (h : Sha256) (c : Clock) (o : Options) (p : ApplyPlan) (b : ConfigBackup) (before_hash : String)
    (w : World)
    → (finish h c o p b before_hash w).1.files ≡ w.files
unfolding finish
finish-files h c o p b before_hash w = elim (Option-cases (read_file p.target_path w.files)) [
  | inl gone ↦ ground arith
  | inr (after, read) ↦ ground arith
]

-- The target as it was, and an exception.
pub record Restored (target before : String) (r : Result ApplyResult × World) : Type 0 where
  pub raised : (x : Error) × (r.0 ≡ err x)
  pub content : read_file target r.1.files ≡ some before

-- The target rewritten, and verified.
pub record Applied (f : Format) (o : Options) (p : ApplyPlan) (before : String)
    (r : Result ApplyResult × World) : Type 0 where
  pub after : String
  pub content : read_file p.target_path r.1.files ≡ some after
  pub verified : Verified f o p before after

recover-Restored :
    (h : Sha256) (c : Clock) (disk : Disk) (o : Options) (p : ApplyPlan) (before : String)
    (b : ConfigBackup) (before_hash : String) (e : Error) (w : World)
    → disk.takes_restored ≡ true
    → show_backup b.backup_id w.db ≡ ok b
    → read_file b.backup_path w.files ≡ some before
    → b.before_hash ≡ sha256_bytes h before
    → b.target_path ≡ p.target_path
    → Restored p.target_path before (recover h c disk o p b before_hash e w)
recover-Restored h c disk o p before b before_hash e w takes shown read hash target =
    let (raised, files) = recover-raises h c disk o p b before_hash e w in
    let rolled = rollback-files h c b before o.actor (o.print e) o.timestamp w shown read hash in
    let same : (recover h c disk o p b before_hash e w).1.files
        ≡ write_file p.target_path before w.files =
      files ∙ (rw takes (rolled ∙ ap (λ t. write_file t before w.files) target)) in
    record {
      raised = raised;
      content = ap (read_file p.target_path) same ∙ read-write p.target_path before w.files;
    }

-- The apply once the backup is made.
pub with_backup-outcome :
    (h : Sha256) (c : Clock) (f : Format) (disk : Disk) (o : Options) (p : ApplyPlan)
    (before : String) (b : ConfigBackup) (w : World)
    → disk.takes_restored ≡ true
    → show_backup b.backup_id w.db ≡ ok b
    → read_file b.backup_path w.files ≡ some before
    → b.before_hash ≡ sha256_bytes h before
    → b.target_path ≡ p.target_path
    → (p.target_path == b.backup_path) ≡ false
    → Restored p.target_path before (apply_with_backup h c f disk o p before b w)
      ⊎ Applied f o p before (apply_with_backup h c f disk o p before b w)
unfolding apply_with_backup
with_backup-outcome h c f disk o p before b w takes shown read hash target apart =
    let bh = sha256_bytes h before in
    let T = λ (r : Result ApplyResult × World).
      Restored p.target_path before r ⊎ Applied f o p before r in
    elim (attempt-cases f disk o p before w) [
      | inl (x, inl untouched) ↦
          let e : apply_with_backup h c f disk o p before b w ≡ recover h c disk o p b bh x w =
            ground arith in
          subst T (sym e)
            (inl (recover-Restored h c disk o p before b bh x w takes shown read hash target))
      | inl (x, inr (after, written)) ↦
          let now = record w { files = write_file p.target_path after w.files } in
          let e : apply_with_backup h c f disk o p before b w ≡ recover h c disk o p b bh x now =
            ground arith in
          let kept = read-write_other b.backup_path p.target_path after w.files apart ∙ read in
          subst T (sym e)
            (inl (recover-Restored h c disk o p before b bh x now takes shown kept hash target))
      | inr (after, written, verified) ↦
          let now = record w { files = write_file p.target_path after w.files } in
          let e : apply_with_backup h c f disk o p before b w ≡ finish h c o p b bh now =
            ground arith in
          subst T (sym e) (
            inr (record {
              after = after;
              content =
                  ap (read_file p.target_path) (finish-files h c o p b bh now)
                  ∙ read-write p.target_path after w.files;
              verified = verified;
            }))
    ]
