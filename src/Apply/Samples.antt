-- ===== src/Apply/Samples.antt =====
-- A world with one plan that is approved, for the tests of an apply.
use mcp_multiplex.Prelude.{String, true, List, [], ◌∷◌, Option, none, some, ◌==◌, if◌then◌else◌}
use mcp_multiplex.Json.{text, object, field, end}
use mcp_multiplex.Exec.{value_error, Result, ok, err}
use mcp_multiplex.Storage.{PlanRow, Approval}
use mcp_multiplex.Samples.{sample_database, sample_plan, sample_approval}
use mcp_multiplex.Apply.{World, Disk, ObservedEntry, Format}
use mcp_multiplex.Apply.Run.{Options}

abbrev pub target : String
target = "/c/mcp.json"

abbrev pub row : PlanRow
row = record sample_plan {
  plan_type = "rewrite_known_direct";
  status = "approved";
  target_path = some target;
  observed_entry_id = some "obs_1";
  expected_preimage_hash = some "sha256:e1";
  policy =
      field "after"
        (object (field "mount_name" (text "fs") (field "url" (text "http://hub/fs") end)))
        sample_plan.policy;
}

abbrev pub approval : Approval
approval = record sample_approval { state = "approved"; decision_at = some "2026-01-01T00:00:00Z" }

abbrev pub entry : Option String → List ObservedEntry
entry (some content) =
    if content == "new"
    then record {
      observed_entry_id = "obs_2";
      entry_hash = "sha256:e2";
      mount_name = "fs";
      transport = "streamable_http";
      url = some "http://hub/fs";
      command = none;
      args = [];
    }
      ∷ []
    else record {
      observed_entry_id = "obs_1";
      entry_hash = "sha256:e1";
      mount_name = "fs";
      transport = "stdio";
      url = none;
      command = some "npx";
      args = [];
    }
      ∷ []
entry none = []

abbrev pub format : Format
format = record {
  parse = λ p phase content. ok (entry content);
  rewrite = λ p old. ok "new";
  validate = λ p new. ok tt;
  decode = λ s. ok s;
  encode = λ s. s;
}

abbrev pub disk : Disk
disk = record { takes_backup = true; takes_config = true; takes_restored = true }

abbrev pub options : Option (Option String → Result (Unit {0})) → Options
options validator = record {
  actor = "daemon";
  timestamp = none;
  backup_dir = "/c/.mcp-multiplex-backups";
  post_write_validator = validator;
  print = λ e. "refused";
}

abbrev pub refusing : Option (Option String → Result (Unit {0}))
refusing = some (λ content. err (value_error "no"))

abbrev pub world : World
world = record {
  db = record sample_database { plans = row ∷ []; approvals = approval ∷ [] };
  files = (target, "old") ∷ [];
}
