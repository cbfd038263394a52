-- ===== src/Auth/Local.antt =====
-- Local tokens: issue, verification and revocation.
pub mod Issue
pub mod Accept
use mcp_multiplex.Prelude.{
  String, Bool, false, not, ◌&&◌, List, [], ◌∷◌, ◌++◌, Option, none, some, is_some, if◌then◌else◌,
  ◌==◌, ◌<>◌, text_or, elem, has_row, find_row, update_rows,
}
use mcp_multiplex.Json.{array, text, field, end}
use mcp_multiplex.Exec.{
  auth_error, key_error, integrity_error, Result, ok, err, and_then, require, refuse_if, check,
  Action, pure, lift, reads, gets, modify, transaction, Sha256, Clock, Calendar, ◌>>=◌, ◌>>◌,
}
use mcp_multiplex.Storage.{Database, AuthTokenRow}
use mcp_multiplex.Audit.{EventArgs, append}
use mcp_multiplex.Auth.{
  subject_types, IssuedToken, validate_subject, validate_scopes, hash_token, token_id, is_expired,
  nullable, text_items, auth_event,
}

pub record AuthContext : Type 0 where
  pub subject_type : String
  pub subject_id : Option String
  pub scopes : List String
  pub token_ref : String

-- `AuthTokenRecord.active`: a revoked token's expiry is not read.
unfoldable pub local_active : Calendar → Clock → AuthTokenRow → Result Bool
local_active cal c r =
    if is_some r.revoked_at
    then ok false
    else and_then (is_expired cal c r.expires_at) (λ e. ok (not e))

unfoldable pub show_local_token : String → Database → Result AuthTokenRow
show_local_token id db =
    require (find_row (λ (r : AuthTokenRow). r.token_id == id) db.auth_tokens) (key_error id)

-- INSERT INTO auth_tokens: the unique columns, and the check of the subject type
unfoldable pub insert_local : AuthTokenRow → Database → Result (Unit {0} × Database)
insert_local r db =
    if not (has_row (λ (x : AuthTokenRow). x.token_id == r.token_id) db.auth_tokens)
      && (not (has_row (λ (x : AuthTokenRow). x.token_hash == r.token_hash) db.auth_tokens)
          && (not (has_row (λ (x : AuthTokenRow). x.token_ref == r.token_ref) db.auth_tokens)
              && elem r.subject_type subject_types))
    then ok (tt, record db { auth_tokens = db.auth_tokens ++ r ∷ [] })
    else err integrity_error

-- The row that `issue_local_token` inserts.
abbrev pub local_row :
    Sha256 → Clock → String → Option String → List String → Option String → String → AuthTokenRow
local_row h c subject_type subject_id scopes expires_at raw = record {
  token_id = token_id h "auth" raw;
  token_hash = hash_token h raw;
  subject_type = subject_type;
  subject_id = subject_id;
  scopes = scopes;
  token_ref = "secretref:auth/" <> token_id h "auth" raw;
  created_at = c.sql_now;
  expires_at = expires_at;
  last_used_at = none;
  revoked_at = none;
}

abbrev pub issued_local : String → AuthTokenRow → IssuedToken
issued_local raw r = record {
  token_id = r.token_id;
  token = raw;
  token_ref = r.token_ref;
  subject_type = r.subject_type;
  subject_id = r.subject_id;
  scopes = r.scopes;
  expires_at = r.expires_at;
}

unfoldable pub local_event : Sha256 → Clock → AuthTokenRow → EventArgs
local_event h c r =
    auth_event h c "auth.token_issued"
      (field "token_ref" (text r.token_ref) (
        field "subject_type" (text r.subject_type) (
          field "subject_id" (nullable r.subject_id)
            (field "scopes" (array (text_items r.scopes)) end))))
      none

-- The statements of `issue_local_token` once its arguments are valid.
unfoldable pub store_local : Sha256 → Clock → AuthTokenRow → String → Action Database IssuedToken
store_local h c row raw = do
  transaction (insert_local row)
  r ← reads (show_local_token row.token_id)
  append h c (local_event h c r)
  pure (issued_local raw r)

unfoldable pub issue_local_token :
    Sha256
    → Clock
    → (subject_type : String) → (subject_id : Option String) → List String
    → (expires_at token : Option String) → Action Database IssuedToken
issue_local_token h c subject_type subject_id scopes expires_at token = do
  lift (validate_subject subject_type)
  normalized ← lift (validate_scopes scopes)
  let raw = text_or token ("mcpgt_" <> c.secret)
  store_local h c (local_row h c subject_type subject_id normalized expires_at raw) raw

abbrev pub context_of : AuthTokenRow → AuthContext
context_of r = record {
  subject_type = r.subject_type;
  subject_id = r.subject_id;
  scopes = r.scopes;
  token_ref = r.token_ref;
}

-- `if required_scope is not None: context.require_scope(required_scope)`
unfoldable pub require_scope : Option String → List String → Result (Unit {0})
require_scope none scopes = ok tt
require_scope (some scope) scopes =
    refuse_if (not (elem scope scopes)) (auth_error ("token is missing required scope: " <> scope))

-- The row that `verify_local_token` accepts.
unfoldable pub accept_local :
    Sha256 → Calendar → Clock → String → Option String → Database → Result AuthTokenRow
accept_local h cal c token required_scope db =
    and_then
      (require (find_row (λ (r : AuthTokenRow). r.token_hash == hash_token h token) db.auth_tokens)
        (auth_error "invalid auth token"))
      λ r. and_then (local_active cal c r) λ active.
        check (refuse_if (not active) (auth_error "auth token is not active"))
          (check (require_scope required_scope r.scopes) (ok r))

unfoldable pub verify_local_token :
    Sha256 → Calendar → Clock → String → Option String → Action Database AuthContext
verify_local_token h cal c token required_scope = do
  r ← reads (accept_local h cal c token required_scope)
  modify (λ db. record db {
    auth_tokens =
        update_rows (λ (x : AuthTokenRow). x.token_id == r.token_id)
          (λ x. record x { last_used_at = some c.now }) db.auth_tokens;
  })
  pure (context_of r)

unfoldable pub revoke_local_token : Clock → String → Option String → Action Database AuthTokenRow
revoke_local_token c id revoked_at = do
  updated ←
      gets (λ (db : Database). has_row (λ (x : AuthTokenRow). x.token_id == id) db.auth_tokens)
  modify (λ db. record db {
    auth_tokens =
        update_rows (λ (x : AuthTokenRow). x.token_id == id)
          (λ x. record x { revoked_at = some (text_or revoked_at c.now) }) db.auth_tokens;
  })
  lift (refuse_if (not updated) (key_error id))
  reads (show_local_token id)
