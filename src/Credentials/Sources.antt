-- ===== src/Credentials/Sources.antt =====
-- credentials/__init__.py: the sources of secrets, their readiness, and the values for a start.
use mcp_multiplex.Prelude.{
  String, Bool, true, false, not, ◌&&◌, Option, none, some, if◌then◌else◌, ◌==◌, ◌<>◌, truthy,
  is_some, elem,
}
use mcp_multiplex.Json.{Fields, boolean, text, field, end}
use mcp_multiplex.Exec.{Result, ok, err, and_then, os_error, credential_error, resolution_error}
use mcp_multiplex.Storage.{CredentialRef}
use mcp_multiplex.Credentials.{readiness_states}
use mcp_multiplex.Credentials.Dotenv.{removed, removed_or, split_last, value_of, dotenv_assignments}

-- What the process reads: an environment variable; the status that is known of an entry of `pass`;
-- whether a path is there, and the text of its file, which raises an OSError, or a ValueError where
-- the bytes are no UTF-8; and the text of `Path(path)`.
pub record Sources : Type 0 where
  pub env : String → Option String
  pub pass_status : String → Option String
  pub exists : String → Bool
  pub read_text : String → Result String
  pub path_text : String → String

unfoldable pub parse_env_ref : CredentialRef → String
parse_env_ref c = removed_or c.name "secretref:env/" c.source_ref

unfoldable pub parse_pass_ref : CredentialRef → String
parse_pass_ref c =
    removed_or (removed_or c.source_ref "secretref:" c.source_ref) "secretref:pass/" c.source_ref

abbrev dotenv_parts : Option (String × String) → Result (String × String)
dotenv_parts none =
    err (credential_error "dotenv source_ref must be secretref:dotenv:/path/to/.env#NAME")
dotenv_parts (some (path, name)) =
    if truthy path && truthy name
    then ok (path, name)
    else err (credential_error "dotenv source_ref must include path and variable name")

-- The path as it is written, and the name.
unfoldable pub parse_dotenv_ref : CredentialRef → Result (String × String)
parse_dotenv_ref c = dotenv_parts (elim (removed "secretref:dotenv:" c.source_ref) [
  | none ↦ none
  | some location ↦ split_last b'#' location
])

pub record ReadinessCheck : Type 0 where
  pub readiness_state : String
  pub metadata : Fields

abbrev present : Bool → String
present b = if b then "present" else "missing"

abbrev dotenv_check : Sources → String → String → String → ReadinessCheck
dotenv_check s path name state = record {
  readiness_state = state;
  metadata = field "provider" (text "dotenv") (
      field "path" (text (s.path_text path))
        (field "name" (text name) (field "resolved" (boolean false) end)));
}

-- `except OSError`
abbrev dotenv_state : String → Result String → Result String
dotenv_state name (ok content) = ok (present (is_some (value_of name (dotenv_assignments content))))
dotenv_state name (err (os_error m)) = ok "permission_denied"
dotenv_state name (err e) = err e

unfoldable pub check_dotenv : Sources → CredentialRef → Result ReadinessCheck
check_dotenv s c = and_then (parse_dotenv_ref c) λ parts.
    if not (s.exists parts.0)
    then ok (dotenv_check s parts.0 parts.1 "source_unavailable")
    else and_then (dotenv_state parts.1 (s.read_text parts.0))
        λ state. ok (dotenv_check s parts.0 parts.1 state)

abbrev known_state : String → String
known_state state = if elem state readiness_states then state else "source_unavailable"

abbrev or_locked : Option String → String
or_locked none = "locked"
or_locked (some state) = state

-- `CredentialReadinessChecker.check`
unfoldable pub check : Sources → CredentialRef → Result ReadinessCheck
check s c =
    if c.source_kind == "env"
    then ok (record {
      readiness_state = present (is_some (s.env (parse_env_ref c)));
      metadata =
          field "provider" (text "env")
            (field "name" (text (parse_env_ref c)) (field "resolved" (boolean false) end));
    })
    else if c.source_kind == "dotenv"
    then check_dotenv s c
    else if c.source_kind == "keychain"
    then ok (record {
      readiness_state = "source_unavailable";
      metadata =
          field "provider" (text "keychain")
            (field "placeholder" (boolean true) (field "resolved" (boolean false) end));
    })
    else if c.source_kind == "pass"
    then ok (record {
      readiness_state = known_state (or_locked (s.pass_status (parse_pass_ref c)));
      metadata = field "provider" (text "pass") (
          field "entry" (text (parse_pass_ref c))
            (field "prompted" (boolean false) (field "resolved" (boolean false) end)));
    })
    else ok (record {
      readiness_state = "source_unavailable";
      metadata = field "provider" (text c.source_kind) (field "resolved" (boolean false) end);
    })

abbrev or_refused : String → Option String → Result String
or_refused message none = err (resolution_error message)
or_refused message (some value) = ok value

-- `except OSError`, and the value of the name
abbrev dotenv_value : String → String → Result String → Result String
dotenv_value label key (ok content) =
    or_refused ("required dotenv credential is missing: " <> label)
      (value_of key (dotenv_assignments content))
dotenv_value label key (err (os_error m)) =
    err (resolution_error ("required dotenv credential source is unreadable: " <> label))
dotenv_value label key (err e) = err e

unfoldable pub resolve_dotenv : Sources → CredentialRef → Result String
resolve_dotenv s c = and_then (parse_dotenv_ref c) λ parts.
    if not (s.exists parts.0)
    then err (resolution_error ("required dotenv credential source is unavailable: " <> c.name))
    else dotenv_value c.name parts.1 (s.read_text parts.0)

-- `CredentialResolver.resolve`
unfoldable pub resolve : Sources → CredentialRef → Result String
resolve s c =
    if c.source_kind == "env"
    then or_refused ("required env credential is missing: " <> c.name) (s.env (parse_env_ref c))
    else if c.source_kind == "dotenv"
    then resolve_dotenv s c
    else if c.source_kind == "keychain"
    then err (resolution_error "keychain resolution is not implemented")
    else if c.source_kind == "pass"
    then err (resolution_error "pass resolution requires an explicit auth flow")
    else err
        (resolution_error ("credential source cannot be resolved for startup: " <> c.source_kind))
