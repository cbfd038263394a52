-- ===== src/Auth/Registration.antt =====
-- Registration tokens: issue, verification and the exchange for a local token.
use mcp_multiplex.Prelude.{
  String, Bool, false, not, ◌&&◌, ◌||◌, List, [], ◌∷◌, ◌++◌, Option, none, some, is_some,
  if◌then◌else◌, ◌==◌, ◌<>◌, text_or, truthy, has_row, find_row, update_rows,
}
use mcp_multiplex.Json.{array, text, field, end}
use mcp_multiplex.Exec.{
  auth_error, key_error, integrity_error, Result, ok, err, and_then, require, refuse_if, check,
  Action, pure, lift, reads, modify, transaction, Sha256, Clock, Calendar, ◌>>=◌, ◌>>◌,
}
use mcp_multiplex.Storage.{Database, AgentRow, RegistrationTokenRow}
use mcp_multiplex.Audit.{EventArgs, append}
use mcp_multiplex.Auth.{
  IssuedToken, validate_scopes, hash_token, token_id, is_expired, text_items, auth_event,
}
use mcp_multiplex.Auth.Local.{issue_local_token}

-- `RegistrationTokenRecord.active`
unfoldable pub registration_active : Calendar → Clock → RegistrationTokenRow → Result Bool
registration_active cal c r =
    if is_some r.consumed_at || is_some r.revoked_at
    then ok false
    else and_then (is_expired cal c r.expires_at) (λ e. ok (not e))

unfoldable pub show_agent_registration_token : String → Database → Result RegistrationTokenRow
show_agent_registration_token id db =
    require
      (find_row (λ (r : RegistrationTokenRow). r.registration_token_id == id)
        db.registration_tokens)
      (key_error id)

-- INSERT INTO agent_registration_tokens: the unique columns, and the foreign key to the agents
unfoldable pub insert_registration : RegistrationTokenRow → Database → Result (Unit {0} × Database)
insert_registration r db =
    if not (
        has_row (λ (x : RegistrationTokenRow). x.registration_token_id == r.registration_token_id)
          db.registration_tokens)
      && (not (
            has_row (λ (x : RegistrationTokenRow). x.token_hash == r.token_hash)
              db.registration_tokens)
          && (not (
                has_row (λ (x : RegistrationTokenRow). x.token_ref == r.token_ref)
                  db.registration_tokens)
              && has_row (λ (x : AgentRow). x.agent_id == r.agent_id) db.agents))
    then ok (tt, record db { registration_tokens = db.registration_tokens ++ r ∷ [] })
    else err integrity_error

abbrev pub registration_row :
    Sha256 → Clock → String → String → List String → Option String → String → RegistrationTokenRow
registration_row h c agent_id agent_kind scopes expires_at raw = record {
  registration_token_id = token_id h "reg" raw;
  token_hash = hash_token h raw;
  agent_id = agent_id;
  agent_kind = agent_kind;
  scopes = scopes;
  token_ref = "secretref:agent-registration/" <> token_id h "reg" raw;
  created_at = c.sql_now;
  expires_at = expires_at;
  consumed_at = none;
  revoked_at = none;
}

abbrev pub issued_registration : String → RegistrationTokenRow → IssuedToken
issued_registration raw r = record {
  token_id = r.registration_token_id;
  token = raw;
  token_ref = r.token_ref;
  subject_type = "agent";
  subject_id = some r.agent_id;
  scopes = r.scopes;
  expires_at = r.expires_at;
}

unfoldable pub registration_event : Sha256 → Clock → RegistrationTokenRow → EventArgs
registration_event h c r =
    auth_event h c "auth.agent_registration_token_issued"
      (field "token_ref" (text r.token_ref) (
        field "agent_id" (text r.agent_id) (
          field "agent_kind" (text r.agent_kind)
            (field "scopes" (array (text_items r.scopes)) end))))
      none

-- The statements of `issue_agent_registration_token` once its arguments are valid.
unfoldable pub store_registration :
    Sha256 → Clock → RegistrationTokenRow → String → Action Database IssuedToken
store_registration h c row raw = do
  transaction (insert_registration row)
  r ← reads (show_agent_registration_token row.registration_token_id)
  append h c (registration_event h c r)
  pure (issued_registration raw r)

-- `scopes or [CONTROL_READ]`
abbrev pub default_scopes : List String → List String
default_scopes [] = "control:read" ∷ []
default_scopes (s ∷ xs) = s ∷ xs

unfoldable pub issue_agent_registration_token :
    Sha256
    → Clock
    → (agent_id agent_kind : String) → List String
    → (expires_at token : Option String) → Action Database IssuedToken
issue_agent_registration_token h c agent_id agent_kind scopes expires_at token = do
  lift (refuse_if (not (truthy agent_id)) (auth_error "agent_id is required"))
  lift (refuse_if (not (truthy agent_kind)) (auth_error "agent_kind is required"))
  normalized ← lift (validate_scopes (default_scopes scopes))
  let raw = text_or token ("mcpgr_" <> c.secret)
  store_registration h c (registration_row h c agent_id agent_kind normalized expires_at raw) raw

unfoldable pub verify_agent_registration_token :
    Sha256 → Calendar → Clock → String → Database → Result RegistrationTokenRow
verify_agent_registration_token h cal c token db =
    and_then
      (require
        (find_row (λ (r : RegistrationTokenRow). r.token_hash == hash_token h token)
          db.registration_tokens)
        (auth_error "invalid agent registration token"))
      λ r. and_then (registration_active cal c r) λ active.
        check (refuse_if (not active) (auth_error "agent registration token is not active")) (ok r)

-- The first UPDATE of the exchange.
unfoldable pub consume : Clock → RegistrationTokenRow → Database → Database
consume c r db = record db {
  registration_tokens =
      update_rows (λ (x : RegistrationTokenRow). x.registration_token_id == r.registration_token_id)
        (λ x. record x { consumed_at = some c.now }) db.registration_tokens;
}

-- The second UPDATE of the exchange.
unfoldable pub link_agent : Clock → RegistrationTokenRow → IssuedToken → Database → Database
link_agent c r issued db = record db {
  agents =
      update_rows (λ (x : AgentRow). x.agent_id == r.agent_id)
        (λ x. record x { auth_token_ref = some issued.token_ref; last_seen_at = some c.now })
        db.agents;
}

unfoldable pub exchange_event : Sha256 → Clock → RegistrationTokenRow → IssuedToken → EventArgs
exchange_event h c r issued =
    auth_event h c "auth.agent_registered"
      (field "agent_id" (text r.agent_id) (
        field "agent_kind" (text r.agent_kind) (
          field "auth_token_ref" (text issued.token_ref) (
            field "registration_token_ref" (text r.token_ref)
              (field "scopes" (array (text_items r.scopes)) end)))))
      (some r.agent_id)

-- The exchange once the token is verified; its inner call reads the clock again.
unfoldable pub exchange_verified :
    Sha256 → Clock → Clock → RegistrationTokenRow → Action Database IssuedToken
exchange_verified h c c' r = do
  modify (consume c r)
  issued ← issue_local_token h c' "agent" (some r.agent_id) r.scopes none none
  modify (link_agent c r issued)
  append h c (exchange_event h c r issued)
  pure issued

unfoldable pub exchange_agent_registration_token :
    Sha256 → Calendar → Clock → Clock → String → Action Database IssuedToken
exchange_agent_registration_token h cal c c' token = do
  r ← reads (verify_agent_registration_token h cal c token)
  exchange_verified h c c' r
