-- ===== src/Auth/Calls.antt =====
-- The calls of AuthTokenStore in any order, and what each does to the two tables.
use mathlib.Core.Path.{subst}
use mcp_multiplex.Prelude.{
  String, not, ◌&&◌, List, [], ◌∷◌, ◌++◌, Option, none, some, ◌≡◌, ◌⊎◌, inl, inr, refl, sym, ap,
  arith, ◌==◌, text_or, truthy, ◌<>◌, has_row, update_rows, Bool-cases,
}
use mcp_multiplex.Exec.{
  Error, integrity_error, Result, ok, err, Sha256, Clock, Calendar, Result-cases,
}
use mcp_multiplex.Storage.{Database, AgentRow, RegistrationTokenRow}
use mcp_multiplex.Audit.{EventArgs, append}
use mcp_multiplex.Audit.Chain.{append-keeps}
use mcp_multiplex.Auth.{IssuedToken, validate_scopes}
use mcp_multiplex.Auth.Local.{issue_local_token, verify_local_token, revoke_local_token}
use mcp_multiplex.Auth.Local.Issue.{issue_local_token-cases}
use mcp_multiplex.Auth.Registration.{
  insert_registration, default_scopes, registration_row, store_registration,
  issue_agent_registration_token, verify_agent_registration_token, consume, link_agent,
  exchange_verified, exchange_agent_registration_token, registration_event, exchange_event,
  show_agent_registration_token,
}

pub data Call : Type 0 where
  issues :
      (subject_type : String)
      → (subject_id : Option String) → List String
      → (expires_at token : Option String) → Call
  registers :
      (agent_id agent_kind : String) → List String → (expires_at token : Option String) → Call
  exchanges : (token : String) → (inner : Clock) → Call
  verifies : (token : String) → Option String → Call
  revokes : (id : String) → Option String → Call
  event : EventArgs → Call

abbrev pub run : Sha256 → Calendar → Clock → Call → Database → Database
run h cal c (issues st sid scopes ex token) db = (issue_local_token h c st sid scopes ex token db).1
run h cal c (registers a k scopes ex token) db =
    (issue_agent_registration_token h c a k scopes ex token db).1
run h cal c (exchanges token c') db = (exchange_agent_registration_token h cal c c' token db).1
run h cal c (verifies token scope) db = (verify_local_token h cal c token scope db).1
run h cal c (revokes id at) db = (revoke_local_token c id at db).1
run h cal c (event e) db = (append h c e db).1

abbrev pub run_all : Sha256 → Calendar → List (Clock × Call) → Database → Database
run_all h cal [] db = db
run_all h cal ((c, call) ∷ calls) db = run_all h cal calls (run h cal c call db)

-- The table of registration tokens is as it was, or has one row more, or one is consumed.
abbrev pub RegistrationStep : List RegistrationTokenRow → List RegistrationTokenRow → Type 0
RegistrationStep before after =
    (after ≡ before)
    ⊎ (((r : RegistrationTokenRow) × (after ≡ before ++ r ∷ []))
        ⊎ ((id now : String) × (after
              ≡ update_rows (λ (x : RegistrationTokenRow). x.registration_token_id == id)
                  (λ x. record x { consumed_at = some now }) before)))

append-registrations :
    (h : Sha256) (c : Clock) (e : EventArgs) (db : Database)
    → (append h c e db).1.registration_tokens ≡ db.registration_tokens
append-registrations h c e db = ap (λ (x : Database). x.registration_tokens) (append-keeps h c e db)

issue-registrations :
    (h : Sha256) (c : Clock) (st : String) (sid : Option String) (scopes : List String)
    (ex token : Option String) (db : Database)
    → (issue_local_token h c st sid scopes ex token db).1.registration_tokens
      ≡ db.registration_tokens
issue-registrations h c st sid scopes ex token db =
    elim (issue_local_token-cases h c st sid scopes ex token db) [
      | inl (x, failed) ↦ rw failed refl
      | inr (n, valid, stores) ↦ stores.registrations
    ]

insert_registration-cases :
    (r : RegistrationTokenRow) (db : Database)
    → ((x : Error) × (insert_registration r db ≡ err x))
      ⊎ (insert_registration r db
          ≡ ok (tt, record db { registration_tokens = db.registration_tokens ++ r ∷ [] }))
unfolding insert_registration
insert_registration-cases r db =
    elim (Bool-cases (
      not (
        has_row (λ (x : RegistrationTokenRow). x.registration_token_id == r.registration_token_id)
          db.registration_tokens)
      && (not (
            has_row (λ (x : RegistrationTokenRow). x.token_hash == r.token_hash)
              db.registration_tokens)
          && (not (
                has_row (λ (x : RegistrationTokenRow). x.token_ref == r.token_ref)
                  db.registration_tokens)
              && has_row (λ (x : AgentRow). x.agent_id == r.agent_id) db.agents)))) [
                | inl allowed ↦ inr (rw allowed refl)
                | inr refused ↦ inl (integrity_error, rw refused refl)
              ]

pub append-tokens :
    (h : Sha256) (c : Clock) (e : EventArgs) (db : Database)
    → (append h c e db).1.auth_tokens ≡ db.auth_tokens
append-tokens h c e db = ap (λ (x : Database). x.auth_tokens) (append-keeps h c e db)

store_registration-step :
    (h : Sha256) (c : Clock) (r : RegistrationTokenRow) (raw : String) (db : Database)
    → RegistrationStep db.registration_tokens
        (store_registration h c r raw db).1.registration_tokens
      × ((store_registration h c r raw db).1.auth_tokens ≡ db.auth_tokens)
unfolding store_registration
store_registration-step h c r raw db = elim (insert_registration-cases r db) [
  | inl (x, refused) ↦ (inl (ground arith), ground arith)
  | inr done ↦
      let now = record db { registration_tokens = db.registration_tokens ++ r ∷ [] } in
      elim (Result-cases (show_agent_registration_token r.registration_token_id now)) [
        | inl (s, shown) ↦
            let untouched = append-tokens h c (registration_event h c s) now in
            let logged = append-registrations h c (registration_event h c s) now in
            elim (Result-cases (append h c (registration_event h c s) now).0) [
              | inl (e, stored) ↦ (inr (inl (r, ground arith)), ground arith)
              | inr (x, failed) ↦ (inr (inl (r, ground arith)), ground arith)
            ]
        | inr (x, lost) ↦ (inr (inl (r, ground arith)), ground arith)
      ]
]

-- The exchange of a verified token has consumed it, whether or not a token was issued then.
pub exchange_verified-consumes :
    (h : Sha256) (c c' : Clock) (r : RegistrationTokenRow) (db : Database)
    → (exchange_verified h c c' r db).1.registration_tokens ≡ (consume c r db).registration_tokens
unfolding exchange_verified link_agent
exchange_verified-consumes h c c' r db =
    let now = consume c r db in
    let issue = issue_local_token h c' "agent" (some r.agent_id) r.scopes none none in
    let kept = issue-registrations h c' "agent" (some r.agent_id) r.scopes none none now in
    elim (Result-cases (issue now).0) [
      | inl (t, issued) ↦
          let linked = link_agent c r t (issue now).1 in
          let logged = append-registrations h c (exchange_event h c r t) linked in
          elim (Result-cases (append h c (exchange_event h c r t) linked).0) [
            | inl (e, stored) ↦ ground arith
            | inr (x, failed) ↦ ground arith
          ]
      | inr (x, failed) ↦ ground arith
    ]

pub registers-step :
    (h : Sha256) (c : Clock) (a k : String) (scopes : List String) (ex token : Option String)
    (db : Database)
    → RegistrationStep db.registration_tokens
        (issue_agent_registration_token h c a k scopes ex token db).1.registration_tokens
      × ((issue_agent_registration_token h c a k scopes ex token db).1.auth_tokens ≡ db.auth_tokens)
unfolding issue_agent_registration_token
registers-step h c a k scopes ex token db = elim (Bool-cases (truthy a)) [
  | inl ha ↦ elim (Bool-cases (truthy k)) [
    | inl hk ↦ elim (Result-cases (validate_scopes (default_scopes scopes))) [
      | inl (n, valid) ↦
          let raw = text_or token ("mcpgr_" <> c.secret) in
          let row = registration_row h c a k n ex raw in
          let e : issue_agent_registration_token h c a k scopes ex token db
              ≡ store_registration h c row raw db =
            ground arith in
          subst
            (λ (x : Result IssuedToken × Database).
              RegistrationStep db.registration_tokens x.1.registration_tokens
              × (x.1.auth_tokens ≡ db.auth_tokens))
            (sym e) (store_registration-step h c row raw db)
      | inr (x, invalid) ↦ (inl (ground arith), ground arith)
    ]
    | inr nk ↦ (inl (ground arith), ground arith)
  ]
  | inr na ↦ (inl (ground arith), ground arith)
]

exchange-step :
    (h : Sha256) (cal : Calendar) (c c' : Clock) (token : String) (db : Database)
    → RegistrationStep db.registration_tokens
        (exchange_agent_registration_token h cal c c' token db).1.registration_tokens
unfolding exchange_agent_registration_token consume
exchange-step h cal c c' token db =
    elim (Result-cases (verify_agent_registration_token h cal c token db)) [
      | inl (r, verified) ↦
          let consumed = exchange_verified-consumes h c c' r db in
          inr (inr (r.registration_token_id, c.now, ground arith))
      | inr (x, refused) ↦ inl (ground arith)
    ]

pub run-registrations :
    (h : Sha256) (cal : Calendar) (c : Clock) (call : Call) (db : Database)
    → RegistrationStep db.registration_tokens (run h cal c call db).registration_tokens
unfolding verify_local_token revoke_local_token
run-registrations h cal c (issues st sid scopes ex token) db =
    inl (issue-registrations h c st sid scopes ex token db)
run-registrations h cal c (registers a k scopes ex token) db =
    (registers-step h c a k scopes ex token db).0
run-registrations h cal c (exchanges token c') db = exchange-step h cal c c' token db
run-registrations h cal c (verifies token scope) db = inl (ground arith)
run-registrations h cal c (revokes id at) db = inl (ground arith)
run-registrations h cal c (event e) db = inl (append-registrations h c e db)
