-- ===== src/Audit/Tests.antt =====
-- Runs of the audit log on concrete events.
use mcp_multiplex.Prelude.{String, List, [], ◌∷◌, ◌++◌, none, some, ◌≡◌, ◌≢◌, apart, ◌↔◌, ◌⊎◌, refl}
use mcp_multiplex.Json.{Json, text, null, array, cons, nil, object, end, field}
use mcp_multiplex.Json.Canonical.{canonical, canonical_fields, canonical_items, insert_field}
use mcp_multiplex.Exec.{Error, ok, err}
use mcp_multiplex.Storage.{Database, EventRow, empty_database}
use mcp_multiplex.Samples.{sample_sha, sample_clock, sample_event}
use mcp_multiplex.Audit.{
  event_hash_payload, compute_event_hash, latest_event_hash, validate_event, build_event,
  stored_event, event_allowed, insert_event, append, validate_hash_chain,
}
use mcp_multiplex.Audit.Redact.{
  redact_secrets, redact_fields, redact_items, is_secret_key, IsRedacted, redact_secrets-IsRedacted,
  redact_secrets-fixed,
}
use mcp_multiplex.Audit.Chain.{
  append_all, append_all-valid, IsChained, validate_hash_chain-IsChained, append_outcome,
}
use mcp_multiplex.Audit.Tamper.{change_detected, removal_detected}

abbrev two_events : Database
two_events =
    append_all sample_sha
      ((sample_clock, sample_event "evt_a") ∷ (sample_clock, sample_event "evt_b") ∷ [])
      empty_database

two_ids : List EventRow → List String
two_ids [] = []
two_ids (r ∷ rows) = r.event_id ∷ two_ids rows

append_all-run : two_ids two_events.events ≡ "evt_a" ∷ "evt_b" ∷ []
unfolding two_ids append insert_event event_allowed validate_event build_event stored_event
    event_hash_payload compute_event_hash latest_event_hash redact_secrets is_secret_key canonical
    canonical_fields canonical_items insert_field
append_all-run = refl

abbrev row_a : EventRow
row_a = stored_event (build_event sample_sha sample_clock (sample_event "evt_a") none)

abbrev row_b : EventRow
row_b =
    stored_event
      (build_event sample_sha sample_clock (sample_event "evt_b") (some row_a.event_hash))

-- The first event with another result under its hash.
abbrev forged : EventRow
forged = record row_a { result = "failure" }

two_rows_valid : validate_hash_chain sample_sha (row_a ∷ row_b ∷ []) ≡ []
unfolding validate_hash_chain build_event stored_event event_hash_payload compute_event_hash
    redact_secrets is_secret_key canonical canonical_fields canonical_items insert_field
two_rows_valid = refl

forged_differs :
    compute_event_hash sample_sha (event_hash_payload forged)
    ≢ compute_event_hash sample_sha (event_hash_payload row_a)
unfolding build_event stored_event event_hash_payload compute_event_hash redact_secrets
    is_secret_key canonical canonical_fields canonical_items insert_field
forged_differs = apart _ _ refl

append_all-valid_example : validate_hash_chain sample_sha two_events.events ≡ []
append_all-valid_example =
    append_all-valid sample_sha
      ((sample_clock, sample_event "evt_a") ∷ (sample_clock, sample_event "evt_b") ∷ [])
      empty_database (unfold validate_hash_chain in refl)

change_detected_example : validate_hash_chain sample_sha (forged ∷ row_b ∷ []) ≢ []
change_detected_example =
    change_detected sample_sha [] (row_b ∷ []) row_a forged two_rows_valid refl forged_differs

unnamed : row_a.previous_event_hash ≢ some row_a.event_hash
unfolding build_event stored_event
unnamed e = cc e

removal_detected_example : validate_hash_chain sample_sha (row_b ∷ []) ≢ []
removal_detected_example = removal_detected sample_sha [] [] row_a row_b two_rows_valid unnamed

validate_hash_chain-IsChained_example :
    (validate_hash_chain sample_sha (row_a ∷ row_b ∷ []) ≡ [])
    ↔ IsChained sample_sha none (row_a ∷ row_b ∷ [])
validate_hash_chain-IsChained_example =
    validate_hash_chain-IsChained sample_sha (row_a ∷ row_b ∷ [])

append_outcome_example :
    let a = sample_event "evt_c" in
    ((x : Error) × (append sample_sha sample_clock a two_events ≡ (err x, two_events)))
    ⊎ ((e : EventRow) × (append sample_sha sample_clock a two_events
          ≡ (ok e, record two_events { events = two_events.events ++ stored_event e ∷ [] }))
        × IsRedacted e.payload
        × (e.previous_event_hash ≡ latest_event_hash two_events.events))
append_outcome_example = append_outcome sample_sha sample_clock (sample_event "evt_c") two_events

abbrev secret_payload : Json
secret_payload = object (
    field "Auth-Token" (text "s1")
      (field "nested" (array (cons (object (field "password" null end)) nil)) end))

redact_secrets-run :
    redact_secrets secret_payload
    ≡ object (
        field "Auth-Token" (text "[REDACTED]") (
          field "nested"
            (array (cons (object (field "password" (text "[REDACTED]") end)) nil))
            end))
unfolding redact_secrets redact_items redact_fields is_secret_key
redact_secrets-run = refl

redact_secrets-IsRedacted_example : IsRedacted (redact_secrets secret_payload)
redact_secrets-IsRedacted_example = redact_secrets-IsRedacted secret_payload

redact_secrets-fixed_example :
    (redact_secrets secret_payload ≡ secret_payload) ↔ IsRedacted secret_payload
redact_secrets-fixed_example = redact_secrets-fixed secret_payload
