-- ===== src/Auth/Local/Issue.antt =====
-- What the issue of a local token leaves behind, and that the token is accepted then.
use mathlib.Core.Path.{subst}
use mcp_multiplex.Prelude.{
  String, true, false, not, ◌&&◌, List, [], ◌∷◌, ◌++◌, Option, none, some, ◌≡◌, ◌⊎◌, inl, inr, refl,
  sym, ap, ◌∙◌, arith, ◌==◌, eq_iff, elem, text_or, ◌<>◌, has_row, find_row, has_row-find,
  find_row-append, Bool-cases,
}
use mcp_multiplex.Exec.{
  Error, integrity_error, Result, ok, err, Sha256, Clock, Calendar, Result-cases, pure, ◌>>◌,
}
use mcp_multiplex.Storage.{Database, AuthTokenRow}
use mcp_multiplex.Audit.{EventArgs, append}
use mcp_multiplex.Audit.Chain.{append-keeps}
use mcp_multiplex.Auth.{
  subject_types, IssuedToken, validate_subject, validate_scopes, hash_token, is_expired,
}
use mcp_multiplex.Auth.Local.{
  local_active, show_local_token, insert_local, local_row, issued_local, local_event, store_local,
  issue_local_token, context_of, require_scope, accept_local, verify_local_token,
}

insert_local-cases :
    (r : AuthTokenRow) (db : Database)
    → ((x : Error) × (insert_local r db ≡ err x))
      ⊎ ((insert_local r db ≡ ok (tt, record db { auth_tokens = db.auth_tokens ++ r ∷ [] }))
          × (has_row (λ (x : AuthTokenRow). x.token_id == r.token_id) db.auth_tokens ≡ false)
          × (has_row (λ (x : AuthTokenRow). x.token_hash == r.token_hash) db.auth_tokens ≡ false))
unfolding insert_local
insert_local-cases r db =
    elim (Bool-cases (
      not (has_row (λ (x : AuthTokenRow). x.token_id == r.token_id) db.auth_tokens)
      && (not (has_row (λ (x : AuthTokenRow). x.token_hash == r.token_hash) db.auth_tokens)
          && (not (has_row (λ (x : AuthTokenRow). x.token_ref == r.token_ref) db.auth_tokens)
              && elem r.subject_type subject_types)))) [
                | inl allowed ↦ inr (rw allowed, ground arith, ground arith)
                | inr refused ↦ inl (integrity_error, rw refused)
              ]

-- The tables after a token was stored, and what is returned then, if the event could be stored.
pub record Stores (db : Database) (r : AuthTokenRow) (raw : String)
    (after : Result IssuedToken × Database) : Type 0 where
  pub fresh : has_row (λ (x : AuthTokenRow). x.token_hash == r.token_hash) db.auth_tokens ≡ false
  pub tokens : after.1.auth_tokens ≡ db.auth_tokens ++ r ∷ []
  pub registrations : after.1.registration_tokens ≡ db.registration_tokens
  pub agents : after.1.agents ≡ db.agents
  pub returned : (t : IssuedToken) → after.0 ≡ ok t → t ≡ issued_local raw r

-- The issue ends with an event; only the log changes.
append-pure :
    (h : Sha256) (c : Clock) (ev : EventArgs) (t : IssuedToken) (db : Database)
    → (((append h c ev >> pure t) db).1
        ≡ record db { events = ((append h c ev >> pure t) db).1.events })
      × ((u : IssuedToken) → ((append h c ev >> pure t) db).0 ≡ ok u → u ≡ t)
append-pure h c ev t db =
    let keeps = append-keeps h c ev db in
    elim (Result-cases (append h c ev db).0) [
      | inl (e, done) ↦ (ground arith, λ u r. ground arith)
      | inr (x, failed) ↦ (ground arith, λ u r. ground arith)
    ]

pub store_local-cases :
    (h : Sha256) (c : Clock) (r : AuthTokenRow) (raw : String) (db : Database)
    → ((x : Error) × (store_local h c r raw db ≡ (err x, db)))
      ⊎ Stores db r raw (store_local h c r raw db)
unfolding store_local show_local_token
store_local-cases h c r raw db = elim (insert_local-cases r db) [
  | inl (x, refused) ↦ inl (x, ground arith)
  | inr (inserted, id_fresh, hash_fresh) ↦
      let now = record db { auth_tokens = db.auth_tokens ++ r ∷ [] } in
      let shown =
        find_row-append (λ (x : AuthTokenRow). x.token_id == r.token_id) r db.auth_tokens
          (has_row-find _ db.auth_tokens id_fresh) in
      let found : show_local_token r.token_id now ≡ ok r =
        ground (arith, eq_iff r.token_id r.token_id) in
      let e : store_local h c r raw db
          ≡ (append h c (local_event h c r) >> pure (issued_local raw r)) now =
        ground arith in
      let ends = append-pure h c (local_event h c r) (issued_local raw r) now in
      inr (
        rw e (record {
          fresh = hash_fresh;
          tokens = ap (λ (x : Database). x.auth_tokens) ends.0;
          registrations = ap (λ (x : Database). x.registration_tokens) ends.0;
          agents = ap (λ (x : Database). x.agents) ends.0;
          returned = ends.1;
        }))
]

abbrev pub raw_token : Clock → Option String → String
raw_token c token = text_or token ("mcpgt_" <> c.secret)

module _ (h : Sha256) (c : Clock) (st : String) (sid : Option String) (scopes : List String)
    (ex token : Option String) (db : Database) where
  pub issue_local_token-cases :
      ((x : Error) × (issue_local_token h c st sid scopes ex token db ≡ (err x, db)))
      ⊎ ((normalized : List String) × (validate_scopes scopes ≡ ok normalized)
          × Stores db
              (local_row h c st sid normalized ex (raw_token c token))
              (raw_token c token)
              (issue_local_token h c st sid scopes ex token db))
  unfolding issue_local_token
  issue_local_token-cases = elim (Result-cases (validate_subject st)) [
    | inl (u, known) ↦ elim (Result-cases (validate_scopes scopes)) [
      | inl (n, valid) ↦
          let row = local_row h c st sid n ex (raw_token c token) in
          let e : issue_local_token h c st sid scopes ex token db
              ≡ store_local h c row (raw_token c token) db =
            ground arith in
          elim (store_local-cases h c row (raw_token c token) db) [
            | inl (x, failed) ↦ inl (x, e ∙ failed)
            | inr stores ↦ inr (n, valid, rw e stores)
          ]
      | inr (x, invalid) ↦ inl (x, ground arith)
    ]
    | inr (x, unknown) ↦ inl (x, ground arith)
  ]

verify-live :
    (h : Sha256) (cal : Calendar) (c : Clock) (token scope : String) (r : AuthTokenRow)
    (db : Database)
    → find_row (λ (x : AuthTokenRow). x.token_hash == hash_token h token) db.auth_tokens ≡ some r
    → r.revoked_at ≡ none
    → is_expired cal c r.expires_at ≡ ok false
    → elem scope r.scopes ≡ true
    → (verify_local_token h cal c token (some scope) db).0 ≡ ok (context_of r)
unfolding verify_local_token accept_local local_active require_scope
verify-live h cal c token scope r db found held live granted = ground arith

-- A token that was issued is accepted for each of its scopes until it expires: its holder is the
-- subject it was issued to, with the scopes that were asked for, sorted.
pub issue-verify :
    (h : Sha256) (cal : Calendar) (c c' : Clock) (st : String) (sid : Option String)
    (scopes : List String) (ex token : Option String) (db : Database) (t : IssuedToken)
    (scope : String)
    → (issue_local_token h c st sid scopes ex token db).0 ≡ ok t
    → is_expired cal c' ex ≡ ok false
    → elem scope t.scopes ≡ true
    → (validate_scopes scopes ≡ ok t.scopes)
      × ((verify_local_token h cal c' t.token
            (some scope)
            (issue_local_token h c st sid scopes ex token db).1).0
          ≡ ok (record {
            subject_type = st;
            subject_id = sid;
            scopes = t.scopes;
            token_ref = t.token_ref;
          }))
issue-verify h cal c c' st sid scopes ex token db t scope issued live granted =
    elim (issue_local_token-cases h c st sid scopes ex token db) [
      | inl (x, failed) ↦ absurd (ground arith)
      | inr (n, valid, stores) ↦
          let raw = raw_token c token in
          let row = local_row h c st sid n ex raw in
          let same = stores.returned t issued in
          let found =
            find_row-append (λ (r : AuthTokenRow). r.token_hash == hash_token h raw) row
              db.auth_tokens (has_row-find _ db.auth_tokens stores.fresh) in
          let there : find_row (λ (r : AuthTokenRow). r.token_hash == hash_token h raw)
                (issue_local_token h c st sid scopes ex token db).1.auth_tokens
              ≡ some row =
            rw stores.tokens (ground (arith, eq_iff (hash_token h raw) (hash_token h raw))) in
          let ok_scope = subst (λ (u : IssuedToken). elem scope u.scopes ≡ true) same granted in
          subst
            (λ (u : IssuedToken).
              (validate_scopes scopes ≡ ok u.scopes)
              × ((verify_local_token h cal c' u.token (some scope)
                    (issue_local_token h c st sid scopes ex token db).1).0
                  ≡ ok (record {
                    subject_type = st;
                    subject_id = sid;
                    scopes = u.scopes;
                    token_ref = u.token_ref;
                  })))
            (sym same) (valid, verify-live h cal c' raw scope row _ there refl live ok_scope)
    ]
