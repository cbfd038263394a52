-- ===== src/ConfigAudit.antt =====
-- observability/config_audit.py: observed entries are stored, classified and reported.
pub mod Classify
pub mod Consistent
pub mod Counts
mod Tests
use mcp_multiplex.Prelude.{
  ℕ, String, Bool, true, false, not, ◌&&◌, ◌||◌, List, [], ◌∷◌, ◌++◌, Option, none, some, map,
  if◌then◌else◌, ◌==◌, ◌<>◌, has_row, select_rows, update_rows, sort_by, text_leb, take_text,
  text_or, length,
}
use mcp_multiplex.Json.{
  Json, Items, Fields, text, number, boolean, array, object, nil, cons, field, end,
}
use mcp_multiplex.Exec.{
  Error, Result, ok, err, and_then, integrity_error, Action, pure, lift, transaction, Sha256, Clock,
  ◌>>=◌, ◌>>◌,
}
use mcp_multiplex.Security.{Urls}
use mcp_multiplex.Schemas.{text_items, nullable, int_json}
use mcp_multiplex.Schemas.Observed.{ObservedEntry, from_dict, to_dict}
use mcp_multiplex.Schemas.Health.{HealthPayload}
use mcp_multiplex.Storage.{Database, AgentRow, ObservedRow, EventRow}
use mcp_multiplex.Audit.{EventArgs, append}
use Classify.{
  ClassifiedObservedEntry, sorted_observed_entries, classify_observed_entries, classified_items,
  health_payload_for_classifications, validated_health, has_severity, has_drift,
}

abbrev pub has_id : String → ObservedRow → Bool
has_id id r = r.entry.observed_entry_id == id

-- UNIQUE (agent_id, config_path, entry_hash), against the other rows
abbrev same_config : ObservedEntry → ObservedRow → Bool
same_config e r =
    not (has_id e.observed_entry_id r)
    && (r.entry.agent_id == e.agent_id
        && (r.entry.config_path == e.config_path && r.entry.entry_hash == e.entry_hash))

abbrev pub observed_row : Clock → ObservedEntry → ObservedRow
observed_row c e = record { entry = e; last_seen_at = c.sql_now }

-- INSERT … ON CONFLICT(observed_entry_id) DO UPDATE, with the foreign key to the agents
unfoldable pub put_observed : Clock → ObservedEntry → Database → Result Database
put_observed c e db =
    if not (has_row (same_config e) db.observed_entries)
      && has_row (λ (a : AgentRow). a.agent_id == e.agent_id) db.agents
    then ok (record db {
      observed_entries =
          if has_row (has_id e.observed_entry_id) db.observed_entries
          then update_rows (has_id e.observed_entry_id) (λ _. observed_row c e) db.observed_entries
          else db.observed_entries ++ observed_row c e ∷ [];
    })
    else err integrity_error

unfoldable pub put_each : Clock → List ObservedEntry → Database → Result (Unit {0} × Database)
put_each c [] db = ok (tt, db)
put_each c (e ∷ entries) db = and_then (put_observed c e db) (put_each c entries)

-- `upsert_many`: all of the entries, or none of them
unfoldable pub upsert_many : Clock → List ObservedEntry → Action Database (Unit {0})
upsert_many c entries = transaction (put_each c entries)

-- ORDER BY agent_id, config_path, mount_name, observed_entry_id
abbrev row_order : ObservedRow → ObservedRow → Bool
row_order r s = Classify.entry_order r.entry s.entry

read_rows : Urls → List ObservedRow → Result (List ObservedEntry)
read_rows u [] = ok []
read_rows u (r ∷ rows) =
    and_then (from_dict u (to_dict r.entry)) λ e. and_then (read_rows u rows) λ es. ok (e ∷ es)

abbrev of_agent : Option String → ObservedRow → Bool
of_agent none r = true
of_agent (some id) r = r.entry.agent_id == id

-- `ObservedEntryStore.list`, and `_observed_entry_from_row`
unfoldable pub list : Urls → Option String → Database → Result (List ObservedEntry)
unfolding read_rows
list u agent_id db =
    read_rows u (sort_by row_order (select_rows (of_agent agent_id) db.observed_entries))

-- `_run_id` and `_event_id`
entry_items : List ObservedEntry → Items
entry_items [] = nil
entry_items (e ∷ entries) = cons (object (to_dict e)) (entry_items entries)

unfoldable pub run_id : Sha256 → List ObservedEntry → String
unfolding entry_items
run_id h entries = take_text 24 (h.of_dump (array (entry_items (sorted_observed_entries entries))))

unfoldable pub event_id : Sha256 → String → String → String
event_id h run event_type = "evt_" <> take_text 24 (h.of_text (run <> "\0" <> event_type))

abbrev pub ids : List ObservedEntry → List String
ids entries = map (λ (e : ObservedEntry). e.observed_entry_id) entries

-- An event of a run, without the ids of an agent, a plan or a file.
abbrev pub run_event : Sha256 → String → String → String → Fields → Option String → EventArgs
run_event h run event_type actor payload timestamp = record {
  event_id = event_id h run event_type;
  event_type = event_type;
  actor = actor;
  result = "success";
  payload = payload;
  agent_id = none;
  plan_id = none;
  target_path = none;
  before_hash = none;
  after_hash = none;
  backup_id = none;
  timestamp = timestamp;
}

abbrev observed_payload : List ObservedEntry → Fields
observed_payload entries =
    field "observed_count" (int_json (length entries))
      (field "observed_entry_ids" (array (text_items (ids (sorted_observed_entries entries)))) end)

abbrev drift_payload : List ClassifiedObservedEntry → Fields
drift_payload items =
    field "blockers" (array (classified_items (select_rows (has_severity "blocker") items)))
      (field "warnings" (array (classified_items (select_rows (has_severity "warning") items))) end)

pub record IngestionResult : Type 0 where
  pub observed_entries : List ObservedEntry
  pub classifications : List ClassifiedObservedEntry
  pub health : HealthPayload
  pub events : List EventRow

-- The arguments that one run has beside the entries.
pub record RunArgs : Type 0 where
  pub actor : String
  pub run_id : Option String
  pub timestamp : Option String
  pub emit_events : Bool

unfoldable pub drift_events :
    Sha256
    → Clock
    → RunArgs
    → String
    → List ClassifiedObservedEntry
    → Action Database (List EventRow)
drift_events h c a run items = elim (has_drift items) [
  | false ↦ pure []
  | true ↦ do
    e ←
        append h c
          (run_event h run "config.drift_detected" a.actor (drift_payload items) a.timestamp)
    pure (e ∷ [])
]

-- The events of a run, where they are asked for.
unfoldable pub ingestion_events :
    Sha256
    → Clock
    → RunArgs
    → List ObservedEntry
    → List ClassifiedObservedEntry
    → Action Database (List EventRow)
ingestion_events h c a entries items = elim a.emit_events [
  | false ↦ pure []
  | true ↦ do
    let run = text_or a.run_id (run_id h entries)
    e ←
        append h c
          (run_event h run "config.observed" a.actor (observed_payload entries) a.timestamp)
    drift ← drift_events h c a run items
    pure (e ∷ drift)
]

unfoldable pub ingest_observed_entries :
    Sha256 → Clock → RunArgs → List ObservedEntry → Action Database IngestionResult
ingest_observed_entries h c a entries = do
  upsert_many c entries
  let items = classify_observed_entries entries
  health ← lift (validated_health (health_payload_for_classifications entries items))
  events ← ingestion_events h c a entries items
  pure (record {
    observed_entries = sorted_observed_entries entries;
    classifications = items;
    health = health;
    events = events;
  })
