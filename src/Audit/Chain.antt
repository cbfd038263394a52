-- ===== src/Audit/Chain.antt =====
-- The hash chain: appending keeps it valid, and the check sees a change of a row, a row that was
-- taken out of the middle, and nothing at the end.
use mcp_multiplex.Prelude.{
  String, Bool-cases, List, [], ◌∷◌, ◌++◌, Option, none, some, ◌≡◌, ◌↔◌, refl, sym, ◌∙◌, ◌⊎◌, arith,
  inl, inr, eq_iff, opt_eq_refl, eq_of_opt_eq,
}
use mcp_multiplex.Json.{object}
use mcp_multiplex.Json.Canonical.{canonical, canonical_idem, canonical_fields}
use mcp_multiplex.Exec.{ok, err, Sha256, Clock, Result-cases, Error, integrity_error}
use mcp_multiplex.Storage.{Database, EventRow}
use mcp_multiplex.Audit.Redact.{IsRedacted, redact_secrets-IsRedacted}
use mcp_multiplex.Audit.{
  EventArgs, event_hash_payload, compute_event_hash, latest_event_hash, validate_event, build_event,
  stored_event, event_allowed, insert_event, append, previous_findings, hash_findings,
  validate_from, validate_hash_chain,
}

-- Each row names the hash of the row before it, and has the hash of its own content.
abbrev pub IsChained : Sha256 → Option String → List EventRow → Type 0
IsChained h previous [] = Unit {0}
IsChained h previous (r ∷ rows) =
    (r.previous_event_hash ≡ previous)
    × (r.event_hash ≡ compute_event_hash h (event_hash_payload r))
    × IsChained h (some r.event_hash) rows

previous_findings_iff :
    (p : Option String) (r : EventRow) → (previous_findings p r ≡ []) ↔ (r.previous_event_hash ≡ p)
unfolding previous_findings
previous_findings_iff p r = (
  λ e. eq_of_opt_eq r.previous_event_hash p (ground arith),
  λ e. rw e (ground (arith, opt_eq_refl p)),
)

hash_findings_iff :
    (h : Sha256) (r : EventRow)
    → (hash_findings h r ≡ []) ↔ (r.event_hash ≡ compute_event_hash h (event_hash_payload r))
unfolding hash_findings
hash_findings_iff h r = (
  λ e. ground (arith, eq_iff r.event_hash (compute_event_hash h (event_hash_payload r))),
  λ e. ground (arith, eq_iff r.event_hash (compute_event_hash h (event_hash_payload r))),
)

append-eq-nil {ℓ} : {A : Type ℓ} (xs ys : List A) → xs ++ ys ≡ [] → (xs ≡ []) × (ys ≡ [])
append-eq-nil [] ys e = (refl, e)
append-eq-nil (x ∷ xs) ys e = cc

validate_from_sound :
    (h : Sha256) (p : Option String) (rows : List EventRow)
    → validate_from h p rows ≡ []
    → IsChained h p rows
unfolding validate_from
validate_from_sound h p [] e = tt
validate_from_sound h p (r ∷ rows) e =
    let (ep, rest) = append-eq-nil (previous_findings p r) _ e in
    let (eh, er) = append-eq-nil (hash_findings h r) _ rest in
    (
      (previous_findings_iff p r).0 ep,
      (hash_findings_iff h r).0 eh,
      validate_from_sound h (some r.event_hash) rows er,
    )

validate_from_complete :
    (h : Sha256) (p : Option String) (rows : List EventRow)
    → IsChained h p rows
    → validate_from h p rows ≡ []
unfolding validate_from
validate_from_complete h p [] c = refl
validate_from_complete h p (r ∷ rows) c =
    rw ((previous_findings_iff p r).1 c.0, (hash_findings_iff h r).1 c.1)
      (validate_from_complete h (some r.event_hash) rows c.2)

-- `validate_hash_chain` has no finding exactly when each row names the hash of the row before it,
-- the first row names none, and each row has the hash of its own content.
pub validate_hash_chain-IsChained :
    (h : Sha256) (rows : List EventRow) → (validate_hash_chain h rows ≡ []) ↔ IsChained h none rows
unfolding validate_hash_chain
validate_hash_chain-IsChained h rows =
    (validate_from_sound h none rows, validate_from_complete h none rows)

-- The hash of the last row, or `p` where there is none.
abbrev latest_from : Option String → List EventRow → Option String
latest_from p [] = p
latest_from p (r ∷ rows) = latest_from (some r.event_hash) rows

latest_event_hash-eq : (rows : List EventRow) → latest_event_hash rows ≡ latest_from none rows
unfolding latest_event_hash
latest_event_hash-eq [] = refl
latest_event_hash-eq (r ∷ []) = refl
latest_event_hash-eq (r ∷ s ∷ rows) = latest_event_hash-eq (s ∷ rows)

IsChained-append :
    (h : Sha256) (p : Option String) (rows : List EventRow) (r : EventRow)
    → IsChained h p rows
    → r.previous_event_hash ≡ latest_from p rows
    → r.event_hash ≡ compute_event_hash h (event_hash_payload r)
    → IsChained h p (rows ++ r ∷ [])
IsChained-append h p [] r c e f = (e, f, tt)
IsChained-append h p (s ∷ rows) r c e f =
    (c.0, c.1, IsChained-append h (some s.event_hash) rows r c.2 e f)

-- The hash of a row is not changed by storing its payload as canonical text.
stored_event-hash :
    (h : Sha256) (r : EventRow)
    → compute_event_hash h (event_hash_payload (stored_event r))
      ≡ compute_event_hash h (event_hash_payload r)
unfolding stored_event event_hash_payload compute_event_hash canonical canonical_fields
stored_event-hash h r = simp canonical_idem

build_event-hash :
    (h : Sha256) (c : Clock) (a : EventArgs) (p : Option String)
    → (build_event h c a p).event_hash
      ≡ compute_event_hash h (event_hash_payload (build_event h c a p))
unfolding build_event event_hash_payload
build_event-hash h c a p = refl

-- An append fails and leaves the database as it was, or adds the row that it returns at the end
-- of the log.
append_cases :
    (h : Sha256) (c : Clock) (a : EventArgs) (db : Database)
    → let e = build_event h c a (latest_event_hash db.events) in
      ((x : Error) × (append h c a db ≡ (err x, db)))
      ⊎ (append h c a db ≡ (ok e, record db { events = db.events ++ stored_event e ∷ [] }))
unfolding append insert_event
append_cases h c a db =
    let e = build_event h c a (latest_event_hash db.events) in
    elim (Result-cases (validate_event e)) [
      | inl (u, valid) ↦ elim (Bool-cases (event_allowed e db)) [
        | inl allowed ↦ inr (ground arith)
        | inr refused ↦ inl (integrity_error, ground arith)
      ]
      | inr (x, invalid) ↦ inl (x, rw invalid)
    ]

-- A failed append changes nothing. A successful one returns a redacted event that names the hash
-- of the latest row, and puts it, its payload in canonical form, behind the rows that were there;
-- nothing else of the database changes.
pub append_outcome :
    (h : Sha256) (c : Clock) (a : EventArgs) (db : Database)
    → ((x : Error) × (append h c a db ≡ (err x, db)))
      ⊎ ((e : EventRow) × (append h c a db
            ≡ (ok e, record db { events = db.events ++ stored_event e ∷ [] }))
          × IsRedacted e.payload
          × (e.previous_event_hash ≡ latest_event_hash db.events))
append_outcome h c a db = elim (append_cases h c a db) [
  | inl failed ↦ inl failed
  | inr added ↦ inr (
    build_event h c a (latest_event_hash db.events),
    added,
    unfold build_event in redact_secrets-IsRedacted (object a.payload),
    unfold build_event in refl,
  )
]

-- Nothing but the log changes.
pub append-keeps :
    (h : Sha256) (c : Clock) (a : EventArgs) (db : Database)
    → (append h c a db).1 ≡ record db { events = (append h c a db).1.events }
append-keeps h c a db = elim (append_cases h c a db) [
  | inl failed ↦ rw failed.1
  | inr added ↦ rw added
]

IsChained-append_event :
    (h : Sha256) (c : Clock) (a : EventArgs) (rows : List EventRow)
    → IsChained h none rows
    → IsChained h none (rows ++ stored_event (build_event h c a (latest_event_hash rows)) ∷ [])
IsChained-append_event h c a rows chained =
    let e = build_event h c a (latest_event_hash rows) in
    IsChained-append h none rows (stored_event e) chained
      (unfold stored_event build_event in latest_event_hash-eq rows)
      (unfold stored_event in
        build_event-hash h c a (latest_event_hash rows) ∙ sym (stored_event-hash h e))

append-IsChained :
    (h : Sha256) (c : Clock) (a : EventArgs) (db : Database)
    → IsChained h none db.events
    → IsChained h none (append h c a db).1.events
append-IsChained h c a db chained = elim (append_cases h c a db) [
  | inl failed ↦ rw failed.1 chained
  | inr added ↦ rw added (IsChained-append_event h c a db.events chained)
]

-- Calls of `append` one after the other, by whichever clients.
abbrev pub append_all : Sha256 → List (Clock × EventArgs) → Database → Database
append_all h [] db = db
append_all h ((c, a) ∷ calls) db = append_all h calls (append h c a db).1

append_all-IsChained :
    (h : Sha256) (calls : List (Clock × EventArgs)) (db : Database)
    → IsChained h none db.events
    → IsChained h none (append_all h calls db).events
append_all-IsChained h [] db chained = chained
append_all-IsChained h ((c, a) ∷ calls) db chained =
    append_all-IsChained h calls (append h c a db).1 (append-IsChained h c a db chained)

-- After any calls of `append`, failing ones among them, a log that was valid is still valid.
pub append_all-valid :
    (h : Sha256) (calls : List (Clock × EventArgs)) (db : Database)
    → validate_hash_chain h db.events ≡ []
    → validate_hash_chain h (append_all h calls db).events ≡ []
append_all-valid h calls db valid =
    (validate_hash_chain-IsChained h (append_all h calls db).events).1
      (append_all-IsChained h calls db ((validate_hash_chain-IsChained h db.events).0 valid))
