-- ===== src/Apply/Outcome.antt =====
-- The outcome of `apply_plan`.
use mathlib.Core.Path.{subst}
use mcp_multiplex.Prelude.{
  String, true, false, none, some, ◌≡◌, ◌⊎◌, inl, inr, refl, sym, ap, ◌∙◌, arith, ◌==◌, ◌<>◌,
  eq_iff, Bool-cases, Option-cases,
}
use mcp_multiplex.Exec.{Error, apply_error, Result, ok, err, Result-cases, Sha256, Clock}
use mcp_multiplex.Storage.{Database, Approval}
use mcp_multiplex.Approvals
use mcp_multiplex.Apply.{
  World, read_file, Disk, ApplyPlan, Format, load_apply_plan, require_apply_allowed,
  approval_required, verify_preimage,
}
use mcp_multiplex.Apply.Backups.{new_backup, create_backup}
use mcp_multiplex.Apply.Run.{ApplyResult, Options, inspect, apply_with_backup, apply_plan}
use mcp_multiplex.Apply.Files.{read-write, read-write_other, create_backup-cases}
use mcp_multiplex.Apply.Restores.{Restored, Applied, with_backup-outcome}

-- The plan is there and may be applied: none that is rejected; one that its policy gates has an
-- approved approval and is approved itself.
pub record IsAllowed (id : String) (p : ApplyPlan) (db : Database) : Type 0 where
  pub loaded : load_apply_plan id db ≡ ok p
  pub kind : (p.plan_type == "rewrite_known_direct") ≡ true
  pub not_rejected : (p.status == "rejected") ≡ false
  pub approved :
      approval_required p ≡ true
      → (a : Approval) × (Approvals.find_by_plan p.plan_id db ≡ ok (some a))
        × ((a.state == "approved") ≡ true)
        × ((p.status == "approved") ≡ true)

pub require_apply_allowed-approved :
    (p : ApplyPlan) (db : Database)
    → require_apply_allowed p db ≡ ok tt
    → ((p.status == "rejected") ≡ false)
      × (approval_required p ≡ true
          → (a : Approval) × (Approvals.find_by_plan p.plan_id db ≡ ok (some a))
            × ((a.state == "approved") ≡ true)
            × ((p.status == "approved") ≡ true))
unfolding require_apply_allowed
require_apply_allowed-approved p db allowed = (
  ground arith,
  λ gated. elim (Result-cases (Approvals.find_by_plan p.plan_id db)) [
    | inl (none, found) ↦ ground arith
    | inl (some a, found) ↦ (a, found, ground arith, ground arith)
    | inr (x, failed) ↦ ground arith
  ],
)

inspect-cases :
    (f : Format) (id : String) (w : World)
    → ((x : Error) × (inspect f id w ≡ err x))
      ⊎ ((p : ApplyPlan) × (before : String) × (inspect f id w ≡ ok (p, before))
          × IsAllowed id p w.db
          × (read_file p.target_path w.files ≡ some before))
unfolding inspect
inspect-cases f id w = elim (Result-cases (load_apply_plan id w.db)) [
  | inl (p, loaded) ↦ elim (Result-cases (require_apply_allowed p w.db)) [
    | inl (u, allowed) ↦ elim (Bool-cases (p.plan_type == "rewrite_known_direct")) [
      | inl kind ↦ elim (Option-cases (read_file p.target_path w.files)) [
        | inl gone ↦
            inl (apply_error ("cannot read target config: " <> p.target_path), ground arith)
        | inr (before, read) ↦ elim (Result-cases (verify_preimage f p (some before))) [
          | inl (v, preimage) ↦
              let (not_rejected, approved) = require_apply_allowed-approved p w.db allowed in
              inr (
                p,
                before,
                ground arith,
                record {
                  loaded = loaded;
                  kind = kind;
                  not_rejected = not_rejected;
                  approved = approved;
                },
                read,
              )
          | inr (x, bad) ↦ inl (x, ground arith)
        ]
      ]
      | inr other ↦ inl (apply_error ("unsupported apply plan_type: " <> p.plan_type), ground arith)
    ]
    | inr (x, refused) ↦ inl (x, ground arith)
  ]
  | inr (x, unknown) ↦ inl (x, ground arith)
]

flipped : (s t : String) → (s == t) ≡ false → (t == s) ≡ false
flipped s t h = ground (arith, eq_iff s t, eq_iff t s)

-- A call that raised before the target was touched.
pub record Refused (w : World) (r : Result ApplyResult × World) : Type 0 where
  pub raised : (x : Error) × (r.0 ≡ err x)
  pub files : r.1.files ≡ w.files

module _ (h : Sha256) (c : Clock) (f : Format) (disk : Disk) (o : Options) (id : String)
    (w : World) where
  -- Where the disk takes the bytes that a rollback writes, and the backup has a file of its own:
  -- `apply_plan` raises and changes no file; or its plan may be applied, and either it raises and
  -- the target has the exact bytes it had, or the target has its new content, which passed the
  -- validator and the check of the post state.
  pub apply_outcome :
      disk.takes_restored ≡ true
      → ((p : ApplyPlan) (before : String)
          → load_apply_plan id w.db ≡ ok p
          → read_file p.target_path w.files ≡ some before
          → (p.target_path
              == (new_backup h c p.plan_id p.target_path o.backup_dir before
                  o.timestamp).backup_path)
            ≡ false)
      → let r = apply_plan h c f disk o id w in
        Refused w r
        ⊎ ((p : ApplyPlan) × (before : String) × IsAllowed id p w.db
            × (read_file p.target_path w.files ≡ some before)
            × (Restored p.target_path before r ⊎ Applied f o p before r))
  unfolding apply_plan
  apply_outcome takes kept = elim (inspect-cases f id w) [
    | inl (x, failed) ↦ inl (record { raised = (x, ground arith); files = ground arith })
    | inr (p, before, inspected, allowed, read) ↦
        let b = new_backup h c p.plan_id p.target_path o.backup_dir before o.timestamp in
        let apart = kept p before allowed.loaded read in
        let T = λ (r : Result ApplyResult × World).
          Restored p.target_path before r ⊎ Applied f o p before r in
        inr (
          p,
          before,
          allowed,
          read,
          elim (create_backup-cases disk.takes_backup b before w) [
            | inl (x, raised, inl same) ↦
                let after = (create_backup disk.takes_backup b before w).1 in
                let e : apply_plan h c f disk o id w ≡ (err x, after) = ground arith in
                subst T (sym e) (
                  inl (record {
                    raised = (x, refl);
                    content = ap (read_file p.target_path) same ∙ read;
                  }))
            | inl (x, raised, inr written) ↦
                let after = (create_backup disk.takes_backup b before w).1 in
                let e : apply_plan h c f disk o id w ≡ (err x, after) = ground arith in
                subst T (sym e) (
                  inl (record {
                    raised = (x, refl);
                    content =
                        ap (read_file p.target_path) written
                        ∙ (read-write_other p.target_path b.backup_path before w.files
                              (flipped p.target_path b.backup_path apart)
                            ∙ read);
                  }))
            | inr (now, made, backs) ↦
                let e : apply_plan h c f disk o id w
                    ≡ apply_with_backup h c f disk o p before b now =
                  ground arith in
                let kept_bytes =
                  ap (read_file b.backup_path) backs.files
                  ∙ read-write b.backup_path before w.files in
                subst T (sym e) (
                  with_backup-outcome h c f disk o p before b now takes backs.shown kept_bytes refl
                    refl apart)
          ],
        )
  ]
