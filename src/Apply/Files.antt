-- ===== src/Apply/Files.antt =====
-- What the steps of an apply do to the files.
use mcp_multiplex.Prelude.{
  String, Bool, true, false, not, ◌&&◌, List, [], ◌∷◌, ◌++◌, some, ◌≡◌, ◌⊎◌, inl, inr, refl, arith,
  ◌==◌, eq_iff, has_row, has_row-find, find_row-append, Bool-cases,
}
use mcp_multiplex.Exec.{Error, os_error, integrity_error, ok, err, Result-cases}
use mcp_multiplex.Storage.{Database, PlanRow, ConfigBackup}
use mcp_multiplex.Apply.{World, read_file, write_file, Disk, ApplyPlan, Format, verify_post_state}
use mcp_multiplex.Apply.Backups.{show_backup, insert_backup, write, create_backup}
use mcp_multiplex.Apply.Run.{Options, run_validator, rewritten, attempt}

pub read-write :
    (p c : String) (fs : List (String × String)) → read_file p (write_file p c fs) ≡ some c
read-write p c [] = ground (arith, eq_iff p p)
read-write p c ((q, old) ∷ fs) = ground (arith, eq_iff p p, read-write p c fs)

pub read-write_other :
    (p q c : String) (fs : List (String × String))
    → (q == p) ≡ false
    → read_file p (write_file q c fs) ≡ read_file p fs
read-write_other p q c [] apart = ground arith
read-write_other p q c ((x, old) ∷ fs) apart =
    ground (arith, eq_iff x q, read-write_other p q c fs apart)

insert_backup-cases :
    (b : ConfigBackup) (db : Database)
    → ((x : Error) × (insert_backup b db ≡ err x))
      ⊎ ((insert_backup b db ≡ ok (tt, record db { backups = db.backups ++ b ∷ [] }))
          × (has_row (λ (x : ConfigBackup). x.backup_id == b.backup_id) db.backups ≡ false))
unfolding insert_backup
insert_backup-cases b db =
    elim (Bool-cases (
      not (has_row (λ (x : ConfigBackup). x.backup_id == b.backup_id) db.backups)
      && has_row (λ (p : PlanRow). p.plan_id == b.plan_id) db.plans)) [
        | inl allowed ↦ inr (rw allowed refl, ground arith)
        | inr refused ↦ inl (integrity_error, rw refused refl)
      ]

-- A backup that was made: its bytes are in its file, and its row is there.
pub record BacksUp (b : ConfigBackup) (content : String) (before after : World) : Type 0 where
  pub files : after.files ≡ write_file b.backup_path content before.files
  pub shown : show_backup b.backup_id after.db ≡ ok b

pub create_backup-cases :
    (taken : Bool) (b : ConfigBackup) (content : String) (w : World)
    → ((x : Error) × ((create_backup taken b content w).0 ≡ err x)
        × (((create_backup taken b content w).1.files ≡ w.files)
            ⊎ ((create_backup taken b content w).1.files
                ≡ write_file b.backup_path content w.files)))
      ⊎ ((now : World) × (create_backup taken b content w ≡ (ok b, now)) × BacksUp b content w now)
unfolding create_backup write show_backup
create_backup-cases false b content w = inl (os_error b.backup_path, refl, inl refl)
create_backup-cases true b content w = elim (insert_backup-cases b w.db) [
  | inl (x, refused) ↦ inl (x, ground arith, inr (ground arith))
  | inr (inserted, fresh) ↦
      let db = record w.db { backups = w.db.backups ++ b ∷ [] } in
      let found =
        find_row-append (λ (x : ConfigBackup). x.backup_id == b.backup_id) b w.db.backups
          (has_row-find _ w.db.backups fresh) in
      let shown : show_backup b.backup_id db ≡ ok b =
        ground (arith, eq_iff b.backup_id b.backup_id) in
      inr (
        record { db = db; files = write_file b.backup_path content w.files },
        ground arith,
        record { files = refl; shown = shown },
      )
]

-- An attempt leaves the database alone. It fails, with the target as it was or written, or it has
-- written the new content, and both checks have passed on it.
pub record Verified (f : Format) (o : Options) (p : ApplyPlan) (before after : String)
    : Type 0 where
  pub new_content : rewritten f p before ≡ ok after
  pub validator : run_validator o.post_write_validator (some after) ≡ ok tt
  pub post_state : verify_post_state f p (some after) ≡ ok tt

pub attempt-cases :
    (f : Format) (disk : Disk) (o : Options) (p : ApplyPlan) (before : String) (w : World)
    → ((x : Error) × ((attempt f disk o p before w ≡ (err x, w))
          ⊎ ((after : String) × (attempt f disk o p before w
                ≡ (err x, record w { files = write_file p.target_path after w.files })))))
      ⊎ ((after : String) × (attempt f disk o p before w
            ≡ (ok tt, record w { files = write_file p.target_path after w.files }))
          × Verified f o p before after)
unfolding attempt write
attempt-cases f disk o p before w = elim (Result-cases (rewritten f p before)) [
  | inl (after, new) ↦ elim (Bool-cases disk.takes_config) [
    | inl taken ↦
        let read = read-write p.target_path after w.files in
        elim (Result-cases (run_validator o.post_write_validator (some after))) [
          | inl (u, valid) ↦ elim (Result-cases (verify_post_state f p (some after))) [
            | inl (v, post) ↦ inr (
              after,
              ground arith,
              record { new_content = new; validator = valid; post_state = post },
            )
            | inr (x, bad) ↦ inl (x, inr (after, ground arith))
          ]
          | inr (x, invalid) ↦ inl (x, inr (after, ground arith))
        ]
    | inr refused ↦ inl (os_error p.target_path, inl (ground arith))
  ]
  | inr (x, failed) ↦ inl (x, inl (ground arith))
]
