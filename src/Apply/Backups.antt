-- ===== src/Apply/Backups.antt =====
-- apply/__init__.py: ConfigBackupStore, the atomic write, and rollback.
use Prim.Native.String.{count}
use mcp_multiplex.Prelude.{
  String, Bool, true, not, ◌&&◌, List, [], ◌∷◌, ◌++◌, Option, none, some, if◌then◌else◌, ◌==◌, ◌<>◌,
  text_or, has_row, find_row, select_rows, update_rows, sort_by, text_leb, take_text,
}
use mcp_multiplex.Json.{number, text, field, end}
use mcp_multiplex.Json.Number.{decimal}
use mcp_multiplex.Exec.{
  rollback_error, key_error, os_error, integrity_error, Result, ok, err, and_then, require,
  refuse_if, Action, pure, raise_if, reads, modify, transaction, Sha256, Clock, ◌>>=◌, ◌>>◌,
}
use mcp_multiplex.Storage.{Database, PlanRow, ConfigBackup}
use mcp_multiplex.Audit.{EventArgs, append}
use mcp_multiplex.Apply.{World, on_db, read_file, write_file}

unfoldable pub sha256_bytes : Sha256 → String → String
sha256_bytes h content = "sha256:" <> h.of_bytes content

unfoldable pub backup_id : Sha256 → String → String → String → String
backup_id h plan_id before_hash timestamp =
    "bak_" <> take_text 24 (h.of_text (plan_id <> "\0" <> before_hash <> "\0" <> timestamp))

-- `_event_id`
unfoldable pub event_id : Sha256 → Clock → String → String → Option String → String
event_id h c plan_id event_type timestamp =
    "evt_"
    <> take_text 24 (h.of_text (plan_id <> "\0" <> event_type <> "\0" <> text_or timestamp c.now))

-- The backup that `create` makes of a file's bytes; its directory is given, or that beside the target.
abbrev pub new_backup :
    Sha256 → Clock → (plan_id target directory content : String) → Option String → ConfigBackup
new_backup h c plan_id target directory content created_at =
    let timestamp = text_or created_at c.now in
    let before_hash = sha256_bytes h content in
    let id = backup_id h plan_id before_hash timestamp in
    record {
      backup_id = id;
      plan_id = plan_id;
      target_path = target;
      backup_path = directory <> "/" <> id <> ".bak";
      before_hash = before_hash;
      bytes = count content;
      created_at = timestamp;
      restored_at = none;
    }

unfoldable pub show_backup : String → Database → Result ConfigBackup
show_backup id db =
    require (find_row (λ (b : ConfigBackup). b.backup_id == id) db.backups) (key_error id)

abbrev earlier : ConfigBackup → ConfigBackup → Bool
earlier a b =
    if a.created_at == b.created_at
    then text_leb a.backup_id b.backup_id
    else text_leb a.created_at b.created_at

abbrev of_plan : Option String → ConfigBackup → Bool
of_plan none b = true
of_plan (some id) b = b.plan_id == id

show_all : List ConfigBackup → Database → Result (List ConfigBackup)
show_all [] db = ok []
show_all (b ∷ rows) db =
    and_then (show_backup b.backup_id db) λ x. and_then (show_all rows db) λ rest. ok (x ∷ rest)

unfoldable pub list_backups : Option String → Database → Result (List ConfigBackup)
unfolding show_all
list_backups plan_id db = show_all (sort_by earlier (select_rows (of_plan plan_id) db.backups)) db

-- INSERT INTO config_backups, with the primary key and the foreign key to the plans
unfoldable pub insert_backup : ConfigBackup → Database → Result (Unit {0} × Database)
insert_backup b db =
    if not (has_row (λ (x : ConfigBackup). x.backup_id == b.backup_id) db.backups)
      && has_row (λ (p : PlanRow). p.plan_id == b.plan_id) db.plans
    then ok (tt, record db { backups = db.backups ++ b ∷ [] })
    else err integrity_error

-- A write that the disk takes or refuses.
unfoldable pub write : Bool → String → String → Action World (Unit {0})
write taken path content = do
  raise_if (not taken) (os_error path)
  modify (λ w. record w { files = write_file path content w.files })

-- `create`: the bytes are written first, then the row.
unfoldable pub create_backup : Bool → ConfigBackup → String → Action World ConfigBackup
create_backup taken b content = do
  write taken b.backup_path content
  on_db (transaction (insert_backup b))
  on_db (reads (show_backup b.backup_id))

unfoldable pub mark_restored : Clock → String → Option String → Action Database ConfigBackup
mark_restored c id restored_at = do
  modify (λ db. record db {
    backups =
        update_rows (λ (b : ConfigBackup). b.backup_id == id)
          (λ b. record b { restored_at = some (text_or restored_at c.now) }) db.backups;
  })
  reads (show_backup id)

-- `RollbackResult`
pub record RollbackResult : Type 0 where
  pub backup : ConfigBackup
  pub restored_hash : String

unfoldable pub rollback_event :
    Sha256
    → Clock
    → ConfigBackup
    → (restored_hash actor reason : String) → Option String
    → EventArgs
rollback_event h c b restored_hash actor reason timestamp = record {
  event_id = event_id h c b.plan_id ("rollback." <> b.backup_id) timestamp;
  event_type = "rollback.completed";
  actor = actor;
  result = "success";
  payload = field "reason" (text reason) (field "restored_bytes" (number (decimal b.bytes)) end);
  agent_id = none;
  plan_id = some b.plan_id;
  target_path = some b.target_path;
  before_hash = some b.before_hash;
  after_hash = some restored_hash;
  backup_id = some b.backup_id;
  timestamp = timestamp;
}

-- What `rollback_backup` reads before it writes: the backup and its bytes, which have its hash.
unfoldable pub load_backup : Sha256 → String → World → Result (ConfigBackup × String)
load_backup h id w = and_then (show_backup id w.db) λ b.
    and_then
      (require (read_file b.backup_path w.files)
        (rollback_error ("backup bytes missing: " <> b.backup_path)))
      λ content.
        and_then
          (refuse_if (not (sha256_bytes h content == b.before_hash))
            (rollback_error "backup content hash does not match metadata"))
          λ u. ok (b, content)

-- What it does after it wrote the target.
unfoldable pub record_rollback :
    Sha256
    → Clock
    → ConfigBackup
    → (restored_hash actor reason : String) → Option String
    → Action Database RollbackResult
record_rollback h c b restored_hash actor reason timestamp = do
  restored ← mark_restored c b.backup_id timestamp
  append h c (rollback_event h c b restored_hash actor reason timestamp)
  pure (record { backup = restored; restored_hash = restored_hash })

unfoldable pub rollback_backup :
    Sha256 → Clock → Bool → (id actor reason : String) → Option String → Action World RollbackResult
rollback_backup h c taken id actor reason timestamp = do
  loaded ← reads (load_backup h id)
  write taken loaded.0.target_path loaded.1
  on_db (record_rollback h c loaded.0 (sha256_bytes h loaded.1) actor reason timestamp)
