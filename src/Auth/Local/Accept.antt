-- ===== src/Auth/Local/Accept.antt =====
-- What is known of a token that was accepted.
use mathlib.Core.Path.{subst}
use mcp_multiplex.Prelude.{
  String, true, false, Option, none, some, ◌≡◌, ◌⊎◌, update_rows, arith, elem, ◌==◌, find_row,
  Option-cases, inl, inr,
}
use mcp_multiplex.Exec.{Error, ok, err, Sha256, Clock, Calendar, Result-cases}
use mcp_multiplex.Storage.{Database, AuthTokenRow}
use mcp_multiplex.Auth.{hash_token, is_expired}
use mcp_multiplex.Auth.Local.{
  local_active, context_of, require_scope, accept_local, verify_local_token,
}

-- The row of a token is live, and has the scope that is required, if one is.
pub record Accepts (h : Sha256) (cal : Calendar) (c : Clock) (token : String)
    (scope : Option String) (db : Database) (r : AuthTokenRow) : Type 0 where
  pub stored :
      find_row (λ (x : AuthTokenRow). x.token_hash == hash_token h token) db.auth_tokens ≡ some r
  pub not_revoked : r.revoked_at ≡ none
  pub not_expired : is_expired cal c r.expires_at ≡ ok false
  pub granted : (s : String) → scope ≡ some s → elem s r.scopes ≡ true

active-live :
    (cal : Calendar) (c : Clock) (r : AuthTokenRow)
    → local_active cal c r ≡ ok true
    → (r.revoked_at ≡ none) × (is_expired cal c r.expires_at ≡ ok false)
unfolding local_active
active-live cal c r active = elim (Option-cases r.revoked_at) [
  | inl kept ↦ elim (Result-cases (is_expired cal c r.expires_at)) [
    | inl (e, known) ↦ (kept, ground arith)
    | inr (x, unread) ↦ ground arith
  ]
  | inr (t, gone) ↦ ground arith
]

scope-granted :
    (scope : Option String) (r : AuthTokenRow)
    → require_scope scope r.scopes ≡ ok tt
    → (s : String) → scope ≡ some s
    → elem s r.scopes ≡ true
unfolding require_scope
scope-granted none r h s e = ground arith
scope-granted (some t) r h s e = ground arith

accept_local-Accepts :
    (h : Sha256) (cal : Calendar) (c : Clock) (token : String) (scope : Option String)
    (db : Database) (r : AuthTokenRow)
    → accept_local h cal c token scope db ≡ ok r
    → Accepts h cal c token scope db r
unfolding accept_local
accept_local-Accepts h cal c token scope db r accepted =
    elim (Option-cases
      (find_row (λ (x : AuthTokenRow). x.token_hash == hash_token h token) db.auth_tokens)) [
        | inl missing ↦ ground arith
        | inr (q, found) ↦ elim (Result-cases (local_active cal c q)) [
          | inl (true, active) ↦ elim (Result-cases (require_scope scope q.scopes)) [
            | inl (u, granted) ↦
                let same : q ≡ r = ground arith in
                let live = active-live cal c q active in
                let held = scope-granted scope q granted in
                subst (Accepts h cal c token scope db) same (record {
                  stored = found;
                  not_revoked = live.0;
                  not_expired = live.1;
                  granted = held;
                })
            | inr (x, lacking) ↦ ground arith
          ]
          | inl (false, inactive) ↦ ground arith
          | inr (x, unread) ↦ ground arith
        ]
      ]

-- A token that is accepted is stored, not revoked, not expired and has the scope that is required;
-- its context is that of its row, and only the time of its last use is written. A token that is
-- refused changes nothing.
pub verify-Accepts :
    (h : Sha256) (cal : Calendar) (c : Clock) (token : String) (scope : Option String)
    (db : Database)
    → ((x : Error) × (verify_local_token h cal c token scope db ≡ (err x, db)))
      ⊎ ((r : AuthTokenRow) × Accepts h cal c token scope db r
          × (verify_local_token h cal c token scope db ≡ (
            ok (context_of r),
            record db {
              auth_tokens =
                  update_rows
                    (λ x. x.token_id == r.token_id)
                    (λ x. record x { last_used_at = some c.now })
                    db.auth_tokens;
            },
          )))
unfolding verify_local_token
verify-Accepts h cal c token scope db = elim (Result-cases (accept_local h cal c token scope db)) [
  | inl (r, accepted) ↦
      inr (r, accept_local-Accepts h cal c token scope db r accepted, ground arith)
  | inr (x, refused) ↦ inl (x, ground arith)
]
