-- ===== src/Auth/OneTime.antt =====
-- A registration token is exchanged at most once.
use mcp_multiplex.Prelude.{
  String, true, ◌||◌, List, [], ◌∷◌, Option, some, is_some, ◌≡◌, inl, inr, refl, arith, ◌==◌,
  eq_iff, find_row, if◌then◌else◌, Bool-cases, Option-cases, find_row-append_some,
  find_row-update_found,
}
use mcp_multiplex.Exec.{auth_error, ok, err, Sha256, Clock, Calendar, Result-cases}
use mcp_multiplex.Storage.{Database, RegistrationTokenRow}
use mcp_multiplex.Auth.{hash_token}
use mcp_multiplex.Auth.Registration.{
  registration_active, verify_agent_registration_token, consume, exchange_agent_registration_token,
  exchange_verified,
}
use mcp_multiplex.Auth.Calls.{
  Call, run, run_all, RegistrationStep, run-registrations, exchange_verified-consumes,
}

abbrev pub find_registration : String → List RegistrationTokenRow → Option RegistrationTokenRow
find_registration hash rows = find_row (λ (x : RegistrationTokenRow). x.token_hash == hash) rows

-- The token of a hash is there and is consumed or revoked.
abbrev pub IsSpent : String → List RegistrationTokenRow → Type 0
IsSpent hash rows =
    (r : RegistrationTokenRow) × (find_registration hash rows ≡ some r)
    × ((is_some r.consumed_at || is_some r.revoked_at) ≡ true)

IsSpent-step :
    (hash : String) (before after : List RegistrationTokenRow)
    → RegistrationStep before after
    → IsSpent hash before
    → IsSpent hash after
IsSpent-step hash before after (inl same) (r, found, spent) = (r, rw same found, spent)
IsSpent-step hash before after (inr (inl (n, added))) (r, found, spent) = (
  r,
  rw added
      (find_row-append_some (λ (x : RegistrationTokenRow). x.token_hash == hash) n r before found),
  spent,
)
IsSpent-step hash before after (inr (inr (id, now, consumed))) (r, found, spent) =
    let still =
      find_row-update_found (λ (x : RegistrationTokenRow). x.token_hash == hash)
        (λ (x : RegistrationTokenRow). x.registration_token_id == id)
        (λ (x : RegistrationTokenRow). record x { consumed_at = some now }) r before (λ x. refl)
        found in
    (
      if r.registration_token_id == id then record r { consumed_at = some now } else r,
      rw consumed still,
      elim (Bool-cases (r.registration_token_id == id)) [
        | inl this ↦ rw this refl
        | inr other ↦ rw other spent
      ],
    )

IsSpent-run_all :
    (h : Sha256) (cal : Calendar) (calls : List (Clock × Call)) (hash : String) (db : Database)
    → IsSpent hash db.registration_tokens
    → IsSpent hash (run_all h cal calls db).registration_tokens
IsSpent-run_all h cal [] hash db spent = spent
IsSpent-run_all h cal ((c, call) ∷ calls) hash db spent =
    IsSpent-run_all h cal calls hash (run h cal c call db)
      (IsSpent-step hash _ _ (run-registrations h cal c call db) spent)

verify-refuses :
    (h : Sha256) (cal : Calendar) (c : Clock) (token : String) (db : Database)
    → IsSpent (hash_token h token) db.registration_tokens
    → verify_agent_registration_token h cal c token db
      ≡ err (auth_error "agent registration token is not active")
unfolding verify_agent_registration_token registration_active
verify-refuses h cal c token db (r, found, spent) = ground arith

verify-finds :
    (h : Sha256) (cal : Calendar) (c : Clock) (token : String) (r : RegistrationTokenRow)
    (db : Database)
    → verify_agent_registration_token h cal c token db ≡ ok r
    → find_registration (hash_token h token) db.registration_tokens ≡ some r
unfolding verify_agent_registration_token
verify-finds h cal c token r db verified =
    elim (Option-cases (find_registration (hash_token h token) db.registration_tokens)) [
      | inl missing ↦ ground arith
      | inr (s, found) ↦ elim (Result-cases (registration_active cal c s)) [
        | inl (b, known) ↦ ground arith
        | inr (x, unread) ↦ ground arith
      ]
    ]

exchange-IsSpent :
    (h : Sha256) (cal : Calendar) (c c' : Clock) (token : String) (r : RegistrationTokenRow)
    (db : Database)
    → verify_agent_registration_token h cal c token db ≡ ok r
    → IsSpent
        (hash_token h token)
        (exchange_agent_registration_token h cal c c' token db).1.registration_tokens
unfolding exchange_agent_registration_token consume
exchange-IsSpent h cal c c' token r db verified =
    let found = verify-finds h cal c token r db verified in
    let e : exchange_agent_registration_token h cal c c' token db ≡ exchange_verified h c c' r db =
      ground arith in
    let consumed = exchange_verified-consumes h c c' r db in
    let now =
      find_row-update_found (λ (x : RegistrationTokenRow). x.token_hash == hash_token h token)
        (λ (x : RegistrationTokenRow). x.registration_token_id == r.registration_token_id)
        (λ (x : RegistrationTokenRow). record x { consumed_at = some c.now }) r
        db.registration_tokens (λ x. refl) found in
    (
      record r { consumed_at = some c.now },
      rw (e, consumed) (ground (arith, eq_iff r.registration_token_id r.registration_token_id)),
      refl,
    )

-- Once a call has exchanged a registration token, or has failed after the token was verified, each
-- later exchange of the token raises and changes nothing, whatever calls were made in between.
pub exchanged_once :
    (h : Sha256) (cal : Calendar) (c c' d d' : Clock) (token : String) (r : RegistrationTokenRow)
    (calls : List (Clock × Call)) (db : Database)
    → verify_agent_registration_token h cal c token db ≡ ok r
    → let later = run_all h cal calls (exchange_agent_registration_token h cal c c' token db).1 in
      exchange_agent_registration_token h cal d d' token later
      ≡ (err (auth_error "agent registration token is not active"), later)
exchanged_once h cal c c' d d' token r calls db verified =
    let after = (exchange_agent_registration_token h cal c c' token db).1 in
    let refused = verify-refuses h cal d token (run_all h cal calls after) (
      IsSpent-run_all h cal calls (hash_token h token) after
        (exchange-IsSpent h cal c c' token r db verified)) in
    unfold exchange_agent_registration_token in ground arith
