-- ===== src/Auth/Tests.antt =====
-- Runs of tokens: issue, verification, revocation and the one exchange.
use mcp_multiplex.Prelude.{String, List, [], ◌∷◌, none, some, ◌≡◌, ◌⊎◌, refl, update_rows, ◌==◌}
use mcp_multiplex.Json.Canonical.{canonical, canonical_fields, canonical_items, insert_field}
use mcp_multiplex.Exec.{Error, auth_error, ok, err, Clock, Calendar}
use mcp_multiplex.Storage.{Database, AuthTokenRow, RegistrationTokenRow, empty_database}
use mcp_multiplex.Samples.{sample_sha, sample_clock}
use mcp_multiplex.Audit.{
  event_hash_payload, compute_event_hash, latest_event_hash, validate_event, build_event,
  stored_event, event_allowed, insert_event, append,
}
use mcp_multiplex.Audit.Redact.{redact_secrets, redact_fields, redact_items, is_secret_key}
use mcp_multiplex.Auth.{
  IssuedToken, validate_subject, validate_scopes, hash_token, token_id, is_expired, auth_event,
}
use mcp_multiplex.Auth.Local.{
  context_of, show_local_token, insert_local, local_event, store_local, issue_local_token,
  verify_local_token, revoke_local_token,
}
use mcp_multiplex.Auth.Local.Issue.{issue-verify}
use mcp_multiplex.Auth.Local.Accept.{Accepts, verify-Accepts}
use mcp_multiplex.Auth.Registration.{
  registration_active, verify_agent_registration_token, consume, link_agent, exchange_event,
  exchange_verified, exchange_agent_registration_token,
}
use mcp_multiplex.Auth.Calls.{Call, verifies, exchanges, run_all}
use mcp_multiplex.Auth.OneTime.{exchanged_once}
use mcp_multiplex.Auth.Revoked.{revoked_for_good}

abbrev no_calendar : Calendar
no_calendar = record { parse = λ s. none }

abbrev with_agent : Database
with_agent = record empty_database {
  agents =
      record {
        agent_id = "codex";
        agent_kind = "codex";
        auth_token_ref = none;
        certification_level = "none";
        last_seen_at = none;
      }
      ∷ [];
}

abbrev issued_row : AuthTokenRow
issued_row = record {
  token_id = "auth_t1";
  token_hash = "sha256:t1";
  subject_type = "operator";
  subject_id = none;
  scopes = "control:mutate" ∷ "control:read" ∷ [];
  token_ref = "secretref:auth/auth_t1";
  created_at = "2026-01-02 03:04:05";
  expires_at = none;
  last_used_at = none;
  revoked_at = none;
}

abbrev issued : IssuedToken
issued = record {
  token_id = "auth_t1";
  token = "t1";
  token_ref = "secretref:auth/auth_t1";
  subject_type = "operator";
  subject_id = none;
  scopes = "control:mutate" ∷ "control:read" ∷ [];
  expires_at = none;
}

issue_run :
    (issue_local_token sample_sha sample_clock "operator" none
      ("control:read" ∷ "control:mutate" ∷ "control:read" ∷ [])
      none
      (some "t1")
      empty_database).0
    ≡ ok issued
unfolding issue_local_token validate_subject validate_scopes store_local insert_local token_id
    hash_token show_local_token local_event auth_event event_hash_payload compute_event_hash
    latest_event_hash validate_event build_event stored_event event_allowed insert_event append
    redact_secrets redact_fields redact_items is_secret_key canonical canonical_fields
    canonical_items insert_field
issue_run = refl

issue-verify_example :
    let scopes : List String = "control:read" ∷ "control:mutate" ∷ "control:read" ∷ [] in
    (validate_scopes scopes ≡ ok issued.scopes)
    × ((verify_local_token sample_sha no_calendar sample_clock "t1"
          (some "control:read")
          (issue_local_token sample_sha sample_clock "operator" none scopes none
            (some "t1")
            empty_database).1).0
        ≡ ok (record {
          subject_type = "operator";
          subject_id = none;
          scopes = issued.scopes;
          token_ref = "secretref:auth/auth_t1";
        }))
issue-verify_example =
    issue-verify sample_sha no_calendar sample_clock sample_clock "operator" none
      ("control:read" ∷ "control:mutate" ∷ "control:read" ∷ []) none (some "t1") empty_database
      issued "control:read" issue_run (unfold is_expired in refl) refl

abbrev with_token : Database
with_token = record empty_database { auth_tokens = issued_row ∷ [] }

verify-Accepts_example :
    ((x : Error) × (verify_local_token sample_sha no_calendar sample_clock "t1" none with_token
        ≡ (err x, with_token)))
    ⊎ ((r : AuthTokenRow) × Accepts sample_sha no_calendar sample_clock "t1" none with_token r
        × (verify_local_token sample_sha no_calendar sample_clock "t1" none with_token ≡ (
          ok (context_of r),
          record with_token {
            auth_tokens =
                update_rows
                  (λ x. x.token_id == r.token_id)
                  (λ x. record x { last_used_at = some sample_clock.now })
                  with_token.auth_tokens;
          },
        )))
verify-Accepts_example = verify-Accepts sample_sha no_calendar sample_clock "t1" none with_token

abbrev some_calls : List (Clock × Call)
some_calls = (sample_clock, verifies "t1" none) ∷ (sample_clock, exchanges "r1" sample_clock) ∷ []

revoked_for_good_example :
    let later =
      run_all sample_sha no_calendar some_calls
        (revoke_local_token sample_clock "auth_t1" none with_token).1 in
    verify_local_token sample_sha no_calendar sample_clock "t1" (some "control:read") later
    ≡ (err (auth_error "auth token is not active"), later)
revoked_for_good_example =
    revoked_for_good sample_sha no_calendar sample_clock sample_clock "t1" issued_row none
      (some "control:read") some_calls with_token (unfold hash_token in refl)

abbrev registered : RegistrationTokenRow
registered = record {
  registration_token_id = "reg_r1";
  token_hash = "sha256:r1";
  agent_id = "codex";
  agent_kind = "codex";
  scopes = "control:read" ∷ [];
  token_ref = "secretref:agent-registration/reg_r1";
  created_at = "2026-01-02 03:04:05";
  expires_at = none;
  consumed_at = none;
  revoked_at = none;
}

abbrev with_registration : Database
with_registration = record with_agent { registration_tokens = registered ∷ [] }

exchange_run :
    (exchange_agent_registration_token sample_sha no_calendar sample_clock
      (record sample_clock { nonce = "n2"; secret = "s2" })
      "r1"
      with_registration).0
    ≡ ok (record {
      token_id = "auth_mcpgt_s2";
      token = "mcpgt_s2";
      token_ref = "secretref:auth/auth_mcpgt_s2";
      subject_type = "agent";
      subject_id = some "codex";
      scopes = "control:read" ∷ [];
      expires_at = none;
    })
unfolding exchange_agent_registration_token verify_agent_registration_token registration_active
    is_expired exchange_verified consume link_agent exchange_event issue_local_token
    validate_subject validate_scopes store_local insert_local token_id hash_token show_local_token
    local_event auth_event event_hash_payload compute_event_hash latest_event_hash validate_event
    build_event stored_event event_allowed insert_event append redact_secrets redact_fields
    redact_items is_secret_key canonical canonical_fields canonical_items insert_field
exchange_run = refl

exchanged_once_example :
    let later =
      run_all sample_sha no_calendar some_calls
        (exchange_agent_registration_token sample_sha no_calendar sample_clock sample_clock "r1"
          with_registration).1 in
    exchange_agent_registration_token sample_sha no_calendar sample_clock sample_clock "r1" later
    ≡ (err (auth_error "agent registration token is not active"), later)
exchanged_once_example =
    exchanged_once sample_sha no_calendar sample_clock sample_clock sample_clock sample_clock "r1"
      registered some_calls with_registration
      (unfold verify_agent_registration_token registration_active is_expired hash_token in refl)
