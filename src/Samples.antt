-- ===== src/Samples.antt =====
-- Concrete values for the tests: a database with one plan under approval, a clock, and digests
-- that print what they are of.
use mcp_multiplex.Prelude.{String, none, some, [], ◌∷◌, true, ◌<>◌}
use mcp_multiplex.Json.{
  Json, Fields, null, number, array, cons, text, boolean, object, end, field, nil,
}
use mcp_multiplex.Schemas.Catalog.{CatalogEntry}
use mcp_multiplex.Exec.{Sha256, Clock, err, value_error}
use mcp_multiplex.Security.{Urls}
use mcp_multiplex.Schemas.Observed.{ObservedEntry}
use mcp_multiplex.Storage.{Database, PlanRow, Approval, empty_database}
use mcp_multiplex.Audit.{EventArgs}

abbrev pub texts_of : Fields → String
texts_of end = ""
texts_of (field k (text s) fs) = s <> " " <> texts_of fs
texts_of (field k _ fs) = texts_of fs

abbrev pub digest_of : Json → String
digest_of (object fs) = texts_of fs
digest_of _ = ""

abbrev pub sample_sha : Sha256
sample_sha = record {
  of_bytes = λ s. s;
  of_text = λ s. s;
  of_json = digest_of;
  of_dump = digest_of;
}

abbrev pub sample_clock : Clock
sample_clock = record {
  now = "2026-01-02T03:04:05Z";
  event_now = "2026-01-02T03:04:05Z";
  sql_now = "2026-01-02 03:04:05";
  nonce = "n1";
  instant = 1000;
  secret = "s1";
}

abbrev pub sample_plan : PlanRow
sample_plan = record {
  plan_id = "plan_1";
  plan_type = "rewrite";
  status = "pending";
  agent_id = none;
  target_path = some "/home/u/.mcp.json";
  observed_entry_id = none;
  policy = field "approval_required" (boolean true) end;
  expected_preimage_hash = none;
  updated_at = "2026-01-01 00:00:00";
}

abbrev pub sample_approval : Approval
sample_approval = record {
  approval_id = "appr_1";
  schema_version = 1;
  plan_id = "plan_1";
  state = "pending";
  actor = "planner";
  channel = "cli";
  created_at = "2026-01-01T00:00:00Z";
  expires_at = none;
  decision_at = none;
  comment = none;
}

-- A catalog entry that may be routed.
abbrev pub sample_entry : CatalogEntry
sample_entry = record {
  schema_version = 1;
  catalog_id = "cat_1";
  name = "files";
  canonical_name = "files";
  family_id = "files";
  variant_name = none;
  display_label = "Files";
  aliases = [];
  review_state = "approved";
  lifecycle_state = "enabled";
  risk_tier = "normal";
  provenance = nil;
  transport = record {
    frontend = "streamable_http";
    hub_path = "/servers/files/mcp";
    backend = record {
      type = "stdio";
      command = some "files-mcp";
      args = [];
      cwd_policy = "none";
      env = [];
      url = none;
    };
  };
  runtime = record {
    shareability = "global";
    concurrency = "serialized";
    idle_timeout_sec = 600;
    health_check = "initialize";
  };
  credentials = nil;
  active_set = record { eligible_profiles = []; default_enabled = true };
}

abbrev pub sample_database : Database
sample_database = record empty_database {
  catalog_entries = record { entry = sample_entry; updated_at = "2026-01-01 00:00:00" } ∷ [];
  plans = sample_plan ∷ [];
  approvals = sample_approval ∷ [];
}

abbrev pub sample_event : String → EventArgs
sample_event id = record {
  event_id = id;
  event_type = "config.changed";
  actor = "watcher";
  result = "success";
  payload = field "api_token" (text "hunter2") (field "path" (text "/etc") end);
  agent_id = none;
  plan_id = none;
  target_path = none;
  before_hash = none;
  after_hash = none;
  backup_id = none;
  timestamp = some "2026-01-01T00:00:00Z";
}

-- No URL can be split; the case of letters is kept.
abbrev pub sample_urls : Urls
sample_urls = record {
  split = λ s. err (value_error "no URL");
  sort_query = λ s. s;
  unsplit = λ scheme netloc path query. path;
  lower = λ s. s;
  str = λ value. "";
}

-- An entry for a command that the catalog has.
abbrev pub sample_observed : ObservedEntry
sample_observed = record {
  schema_version = 1;
  observed_entry_id = "obs_1";
  agent_id = "agent_1";
  agent_kind = "claude_code";
  config_path = "/home/u/.mcp.json";
  container_path = "mcpServers" ∷ [];
  mount_name = "files";
  enabled = true;
  transport = "stdio";
  command = some "files-mcp";
  args = [];
  url = none;
  headers_present = [];
  env_names = [];
  cwd = none;
  tool_filters = record { enabled_tools = none; disabled_tools = [] };
  approval_policy = none;
  entry_hash = "sha256:e1";
  raw_shape = "json_object";
  parser_confidence = "complete";
}

-- The sample entry under an id that the schemas accept.
abbrev pub routable_entry : CatalogEntry
routable_entry = record sample_entry { catalog_id = "srv_files" }

abbrev pub observed_database : Database
observed_database = record empty_database {
  agents =
      record {
        agent_id = "agent_1";
        agent_kind = "claude_code";
        auth_token_ref = none;
        certification_level = "none";
        last_seen_at = none;
      }
      ∷ [];
  catalog_entries = record { entry = routable_entry; updated_at = "2026-01-01 00:00:00" } ∷ [];
}

-- An entry that the catalog does not have.
abbrev pub unknown_observed : ObservedEntry
unknown_observed = record sample_observed {
  observed_entry_id = "obs_2";
  mount_name = "notes";
  command = some "notes-mcp";
}

-- The payload of the entry, whose tool filters are empty.
abbrev pub observed_payload : Fields
observed_payload = field "schema_version" (number "1") (
    field "observed_entry_id" (text "obs_1") (
      field "agent_id" (text "agent_1") (
        field "agent_kind" (text "claude_code") (
          field "config_path" (text "/home/u/.mcp.json") (
            field "container_path" (array (cons (text "mcpServers") nil)) (
              field "mount_name" (text "files") (
                field "enabled" (boolean true) (
                  field "transport" (text "stdio") (
                    field "command" (text "files-mcp") (
                      field "args" (array nil) (
                        field "url" null (
                          field "headers_present" (array nil) (
                            field "env_names" (array nil) (
                              field "cwd" null (
                                field "tool_filters" (object end) (
                                  field "approval_policy" null (
                                    field "entry_hash" (text "sha256:e1") (
                                      field "raw_shape" (text "json_object") (
                                        field "parser_confidence" (text "complete")
                                          end)))))))))))))))))))
