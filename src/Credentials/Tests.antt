-- ===== src/Credentials/Tests.antt =====
-- The start of a backend whose secret is in the environment.
use mcp_multiplex.Prelude.{
  String, false, List, [], ◌∷◌, none, some, ◌≡◌, refl, elem, All, strip_left, strip_right,
}
use mcp_multiplex.Json.{end}
use mcp_multiplex.Exec.{ok, err, os_error}
use mcp_multiplex.Storage.{Database, CredentialRef, empty_database}
use mcp_multiplex.Credentials.{list, show}
use mcp_multiplex.Credentials.Dotenv.{
  dotenv_assignments, lines, assignments_of, split_first, assignment, split_last,
  strip_dotenv_value, removed,
}
use mcp_multiplex.Credentials.Sources.{Sources, resolve}
use mcp_multiplex.Credentials.Readiness.{
  ResolvedCredentials, resolve_for_backend_startup, resolve_each,
}
use mcp_multiplex.Credentials.Startup.{IsResolved, has_name, starts_with_required}
use mcp_multiplex.Security.{is_space}

abbrev sources : Sources
sources = record {
  env = λ key. some "v1";
  pass_status = λ entry. none;
  exists = λ path. false;
  read_text = λ path. err (os_error path);
  path_text = λ path. path;
}

abbrev reference : CredentialRef
reference = record {
  credential_ref_id = "cred_1";
  catalog_id = "srv_files";
  name = "FILES_KEY";
  source_kind = "env";
  source_ref = "secretref:env/KEY";
  readiness_state = "present";
  last_checked_at = none;
  metadata = end;
}

abbrev database : Database
database = record empty_database { credential_refs = reference ∷ [] }

abbrev started : ResolvedCredentials
started = record { env = ("FILES_KEY", "v1") ∷ []; resolved_names = "FILES_KEY" ∷ [] }

start_run : resolve_for_backend_startup sources "srv_files" ("FILES_KEY" ∷ []) database ≡ ok started
unfolding resolve_for_backend_startup list show resolve_each resolve
start_run = refl

starts_with_required_example :
    (credentials : List CredentialRef) × (list (some "srv_files") database ≡ ok credentials)
    × All (IsResolved sources credentials) started.env
    × ((n : String) → has_name n started.env ≡ elem n ("FILES_KEY" ∷ []))
starts_with_required_example =
    starts_with_required sources "srv_files" ("FILES_KEY" ∷ []) database started start_run

dotenv_run :
    dotenv_assignments "# keys\nexport A = 'x=1'\r\n\nB=two\nC" ≡ ("A", "x=1") ∷ ("B", "two") ∷ []
unfolding dotenv_assignments assignments_of lines assignment split_first strip_right strip_left
    is_space removed strip_dotenv_value split_last
dotenv_run = refl
