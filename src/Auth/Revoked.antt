-- ===== src/Auth/Revoked.antt =====
-- A local token that is revoked is refused from then on.
use mathlib.Core.Path.{subst}
use mcp_multiplex.Prelude.{
  String, Bool, true, List, [], ◌∷◌, ◌++◌, Option, none, some, is_some, text_or, ◌≡◌, ◌⊎◌, inl, inr,
  refl, sym, arith, ◌==◌, eq_iff, find_row, update_rows, if◌then◌else◌, Bool-cases,
  find_row-append_some, find_row-update_found,
}
use mcp_multiplex.Exec.{auth_error, Result, err, Sha256, Clock, Calendar, Result-cases}
use mcp_multiplex.Storage.{Database, AuthTokenRow, RegistrationTokenRow}
use mcp_multiplex.Audit.{append}
use mcp_multiplex.Auth.{IssuedToken, hash_token}
use mcp_multiplex.Auth.Local.{
  local_active, issue_local_token, accept_local, verify_local_token, revoke_local_token,
}
use mcp_multiplex.Auth.Local.Issue.{issue_local_token-cases}
use mcp_multiplex.Auth.Registration.{
  verify_agent_registration_token, consume, link_agent, exchange_verified, exchange_event,
  exchange_agent_registration_token,
}
use mcp_multiplex.Auth.Calls.{
  Call, issues, registers, exchanges, verifies, revokes, event, run, run_all, registers-step,
  append-tokens,
}

-- An update that keeps the hash, and what is revoked.
pub record KeepsRevoked (f : AuthTokenRow → AuthTokenRow) : Type 0 where
  pub hash : (r : AuthTokenRow) → (f r).token_hash ≡ r.token_hash
  pub revoked : (r : AuthTokenRow) → is_some r.revoked_at ≡ true → is_some (f r).revoked_at ≡ true

-- The table of local tokens is as it was, or has one row more, or rows of it are updated.
abbrev pub TokenStep : List AuthTokenRow → List AuthTokenRow → Type 0
TokenStep before after =
    (after ≡ before)
    ⊎ (((r : AuthTokenRow) × (after ≡ before ++ r ∷ []))
        ⊎ ((p : AuthTokenRow → Bool) × (f : AuthTokenRow → AuthTokenRow) × KeepsRevoked f
            × (after ≡ update_rows p f before)))

issue-tokens :
    (h : Sha256) (c : Clock) (st : String) (sid : Option String) (scopes : List String)
    (ex token : Option String) (db : Database)
    → TokenStep db.auth_tokens (issue_local_token h c st sid scopes ex token db).1.auth_tokens
issue-tokens h c st sid scopes ex token db =
    elim (issue_local_token-cases h c st sid scopes ex token db) [
      | inl (x, failed) ↦ rw failed (inl refl)
      | inr (n, valid, stores) ↦ inr (inl (_, stores.tokens))
    ]

exchange_verified-tokens :
    (h : Sha256) (c c' : Clock) (r : RegistrationTokenRow) (db : Database)
    → TokenStep db.auth_tokens (exchange_verified h c c' r db).1.auth_tokens
unfolding exchange_verified link_agent consume
exchange_verified-tokens h c c' r db =
    let now = consume c r db in
    let issue = issue_local_token h c' "agent" (some r.agent_id) r.scopes none none in
    let step = issue-tokens h c' "agent" (some r.agent_id) r.scopes none none now in
    let e : (exchange_verified h c c' r db).1.auth_tokens ≡ (issue now).1.auth_tokens =
      elim (Result-cases (issue now).0) [
        | inl (t, issued) ↦
            let linked = link_agent c r t (issue now).1 in
            let logged = append-tokens h c (exchange_event h c r t) linked in
            elim (Result-cases (append h c (exchange_event h c r t) linked).0) [
              | inl (e, stored) ↦ ground arith
              | inr (x, failed) ↦ ground arith
            ]
        | inr (x, failed) ↦ ground arith
      ] in
    subst (TokenStep db.auth_tokens) (sym e) step

exchange-tokens :
    (h : Sha256) (cal : Calendar) (c c' : Clock) (token : String) (db : Database)
    → TokenStep db.auth_tokens (exchange_agent_registration_token h cal c c' token db).1.auth_tokens
unfolding exchange_agent_registration_token
exchange-tokens h cal c c' token db =
    elim (Result-cases (verify_agent_registration_token h cal c token db)) [
      | inl (r, verified) ↦
          let e : exchange_agent_registration_token h cal c c' token db
              ≡ exchange_verified h c c' r db =
            ground arith in
          subst (λ (x : Result IssuedToken × Database). TokenStep db.auth_tokens x.1.auth_tokens)
            (sym e) (exchange_verified-tokens h c c' r db)
      | inr (x, refused) ↦ inl (ground arith)
    ]

verify-tokens :
    (h : Sha256) (cal : Calendar) (c : Clock) (token : String) (scope : Option String)
    (db : Database)
    → TokenStep db.auth_tokens (verify_local_token h cal c token scope db).1.auth_tokens
unfolding verify_local_token
verify-tokens h cal c token scope db = elim (Result-cases (accept_local h cal c token scope db)) [
  | inl (r, accepted) ↦ inr (
      inr (
        λ x. x.token_id == r.token_id,
        λ x. record x { last_used_at = some c.now },
        record { hash = λ x. refl; revoked = λ x h. h },
        ground arith,
      ))
  | inr (x, refused) ↦ inl (ground arith)
]

abbrev revoked_at_time : String → AuthTokenRow → AuthTokenRow
revoked_at_time now r = record r { revoked_at = some now }

revoke-tokens_eq :
    (c : Clock) (id : String) (at : Option String) (db : Database)
    → (revoke_local_token c id at db).1.auth_tokens
      ≡ update_rows (λ x. x.token_id == id) (revoked_at_time (text_or at c.now)) db.auth_tokens
unfolding revoke_local_token
revoke-tokens_eq c id at db = ground arith

run-tokens :
    (h : Sha256) (cal : Calendar) (c : Clock) (call : Call) (db : Database)
    → TokenStep db.auth_tokens (run h cal c call db).auth_tokens
run-tokens h cal c (issues st sid scopes ex token) db = issue-tokens h c st sid scopes ex token db
run-tokens h cal c (registers a k scopes ex token) db =
    inl (registers-step h c a k scopes ex token db).1
run-tokens h cal c (exchanges token c') db = exchange-tokens h cal c c' token db
run-tokens h cal c (verifies token scope) db = verify-tokens h cal c token scope db
run-tokens h cal c (revokes id at) db = inr (
    inr (
      (λ x. x.token_id == id),
      revoked_at_time (text_or at c.now),
      record { hash = λ x. refl; revoked = λ x h. refl },
      revoke-tokens_eq c id at db,
    ))
run-tokens h cal c (event e) db = inl (append-tokens h c e db)

abbrev pub find_token : String → List AuthTokenRow → Option AuthTokenRow
find_token hash rows = find_row (λ (x : AuthTokenRow). x.token_hash == hash) rows

-- The token of a hash is there and revoked.
abbrev pub IsRevoked : String → List AuthTokenRow → Type 0
IsRevoked hash rows =
    (r : AuthTokenRow) × (find_token hash rows ≡ some r) × (is_some r.revoked_at ≡ true)

IsRevoked-step :
    (hash : String) (before after : List AuthTokenRow)
    → TokenStep before after
    → IsRevoked hash before
    → IsRevoked hash after
IsRevoked-step hash before after (inl same) (r, found, gone) = (r, rw same found, gone)
IsRevoked-step hash before after (inr (inl (n, added))) (r, found, gone) = (
  r,
  rw added (find_row-append_some (λ (x : AuthTokenRow). x.token_hash == hash) n r before found),
  gone,
)
IsRevoked-step hash before after (inr (inr (p, f, k, updated))) (r, found, gone) =
    let still =
      find_row-update_found (λ (x : AuthTokenRow). x.token_hash == hash) p f r before
        (λ x. rw (k.hash x) refl) found in
    (
      if p r then f r else r,
      rw updated still,
      elim (Bool-cases (p r)) [ inl this ↦ rw this (k.revoked r gone) | inr other ↦ rw other gone ],
    )

IsRevoked-run_all :
    (h : Sha256) (cal : Calendar) (calls : List (Clock × Call)) (hash : String) (db : Database)
    → IsRevoked hash db.auth_tokens
    → IsRevoked hash (run_all h cal calls db).auth_tokens
IsRevoked-run_all h cal [] hash db gone = gone
IsRevoked-run_all h cal ((c, call) ∷ calls) hash db gone =
    IsRevoked-run_all h cal calls hash (run h cal c call db)
      (IsRevoked-step hash _ _ (run-tokens h cal c call db) gone)

revoked_refused :
    (h : Sha256) (cal : Calendar) (c : Clock) (token : String) (scope : Option String)
    (db : Database)
    → IsRevoked (hash_token h token) db.auth_tokens
    → verify_local_token h cal c token scope db ≡ (err (auth_error "auth token is not active"), db)
unfolding verify_local_token accept_local local_active
revoked_refused h cal c token scope db (r, found, gone) = ground arith

-- After the token of a hash was revoked by its id, its verification raises and changes nothing, at
-- any time, for any scope, and whatever calls were made in between.
pub revoked_for_good :
    (h : Sha256) (cal : Calendar) (c d : Clock) (token : String) (r : AuthTokenRow)
    (at scope : Option String) (calls : List (Clock × Call)) (db : Database)
    → find_token (hash_token h token) db.auth_tokens ≡ some r
    → let later = run_all h cal calls (revoke_local_token c r.token_id at db).1 in
      verify_local_token h cal d token scope later
      ≡ (err (auth_error "auth token is not active"), later)
revoked_for_good h cal c d token r at scope calls db found =
    let hash = hash_token h token in
    let now =
      find_row-update_found (λ (x : AuthTokenRow). x.token_hash == hash)
        (λ (x : AuthTokenRow). x.token_id == r.token_id) (revoked_at_time (text_or at c.now)) r
        db.auth_tokens (λ x. refl) found in
    let gone : IsRevoked hash (revoke_local_token c r.token_id at db).1.auth_tokens =
      rw revoke-tokens_eq (
        revoked_at_time (text_or at c.now) r,
        ground (arith, eq_iff r.token_id r.token_id),
        refl,
      ) in
    revoked_refused h cal d token scope _ (IsRevoked-run_all h cal calls hash _ gone)
