-- ===== src/Audit.antt =====
-- observability/audit.py: the append-only event store. The proofs are in the modules below.
pub mod Redact
pub mod Chain
pub mod Tamper
mod Tests
use mcp_multiplex.Prelude.{
  String, Bool, true, false, not, ◌&&◌, ◌||◌, List, [], ◌∷◌, ◌++◌, Option, none, some,
  if◌then◌else◌, ◌==◌, ◌<>◌, starts_with, truthy, text_or, opt_eq, has_row, select_rows, sort_by,
  text_leb,
}
use mcp_multiplex.Json.{Json, Fields, null, text, object, end, field}
use mcp_multiplex.Json.Canonical.{canonical}
use mcp_multiplex.Exec.{
  Error, validation_error, integrity_error, Result, ok, err, check_all, refuse_if, Action, pure,
  lift, transaction, Sha256, Clock, ◌>>=◌, ◌>>◌,
}
use mcp_multiplex.Storage.{Database, EventRow, AgentRow, PlanRow, ConfigBackup, refers}
use Redact.{redact_secrets}

abbrev pub redaction_label : String
redaction_label = "secret_values_removed"

-- The keyword arguments of `append`.
pub record EventArgs : Type 0 where
  pub event_id : String
  pub event_type : String
  pub actor : String
  pub result : String
  pub payload : Fields
  pub agent_id : Option String
  pub plan_id : Option String
  pub target_path : Option String
  pub before_hash : Option String
  pub after_hash : Option String
  pub backup_id : Option String
  pub timestamp : Option String

abbrev nullable : Option String → Json
nullable none = null
nullable (some s) = text s

-- `event_hash_payload`; the field `event_hash` of the row is not read.
unfoldable pub event_hash_payload : EventRow → Json
event_hash_payload r = object (
    field "event_id" (text r.event_id) (
      field "event_type" (text r.event_type) (
        field "actor" (text r.actor) (
          field "agent_id" (nullable r.agent_id) (
            field "plan_id" (nullable r.plan_id) (
              field "target_path" (nullable r.target_path) (
                field "before_hash" (nullable r.before_hash) (
                  field "after_hash" (nullable r.after_hash) (
                    field "backup_id" (nullable r.backup_id) (
                      field "result" (text r.result) (
                        field "timestamp" (text r.timestamp) (
                          field "redaction" (text r.redaction) (
                            field "payload" r.payload (
                              field "previous_event_hash" (nullable r.previous_event_hash)
                                end))))))))))))))

unfoldable pub compute_event_hash : Sha256 → Json → String
compute_event_hash h hash_payload = "sha256:" <> h.of_json (canonical hash_payload)

-- The hash of the latest event, by rowid.
unfoldable pub latest_event_hash : List EventRow → Option String
latest_event_hash [] = none
latest_event_hash (r ∷ []) = some r.event_hash
latest_event_hash (r ∷ s ∷ rows) = latest_event_hash (s ∷ rows)

-- `_require_string` and `_validate_hash` of schemas/models.py
abbrev pub require_string : String → String → Result (Unit {0})
require_string key value =
    if truthy value then ok tt else err (validation_error (key <> " is required"))

abbrev pub validate_prefix : String → String → String → Result (Unit {0})
validate_prefix value prefix name =
    if starts_with value prefix
    then ok tt
    else err (validation_error (name <> " must start with " <> prefix))

abbrev pub validate_hash? : Option String → String → Result (Unit {0})
validate_hash? none name = ok tt
validate_hash? (some value) name = validate_prefix value "sha256:" name

-- `AuditEvent.from_dict`, at a dict whose keys are the fields.
unfoldable pub validate_event : EventRow → Result (Unit {0})
validate_event r =
    check_all
      (refuse_if (not (r.redaction == redaction_label))
          (validation_error "audit events must declare secret value redaction")
        ∷ validate_hash? r.before_hash "before_hash"
        ∷ validate_hash? r.after_hash "after_hash"
        ∷ validate_hash? r.previous_event_hash "previous_event_hash"
        ∷ require_string "event_id" r.event_id
        ∷ validate_prefix r.event_id "evt_" "event_id"
        ∷ require_string "event_type" r.event_type
        ∷ require_string "actor" r.actor
        ∷ require_string "result" r.result
        ∷ require_string "timestamp" r.timestamp
        ∷ require_string "event_hash" r.event_hash
        ∷ validate_prefix r.event_hash "sha256:" "event_hash"
        ∷ [])
      (ok tt)

-- The row that `append` builds.
unfoldable pub build_event : Sha256 → Clock → EventArgs → Option String → EventRow
build_event h c a previous =
    let bare : EventRow = record {
      event_id = a.event_id;
      event_type = a.event_type;
      actor = a.actor;
      agent_id = a.agent_id;
      plan_id = a.plan_id;
      target_path = a.target_path;
      before_hash = a.before_hash;
      after_hash = a.after_hash;
      backup_id = a.backup_id;
      result = a.result;
      redaction = redaction_label;
      payload = redact_secrets (object a.payload);
      previous_event_hash = previous;
      event_hash = "";
      timestamp = text_or a.timestamp c.event_now;
    } in
    record bare { event_hash = compute_event_hash h (event_hash_payload bare) }

-- What the columns hold: the payload is printed in its canonical form.
unfoldable pub stored_event : EventRow → EventRow
stored_event r = record r { payload = canonical r.payload }

-- The INSERT with the keys of the table: unique ids and hashes, and the foreign keys.
unfoldable pub event_allowed : EventRow → Database → Bool
event_allowed r db =
    not (has_row (λ (s : EventRow). s.event_id == r.event_id) db.events)
    && not (has_row (λ (s : EventRow). s.event_hash == r.event_hash) db.events)
    && refers (λ (x : AgentRow). x.agent_id) r.agent_id db.agents
    && refers (λ (x : PlanRow). x.plan_id) r.plan_id db.plans
    && refers (λ (x : ConfigBackup). x.backup_id) r.backup_id db.backups

unfoldable pub insert_event : EventRow → Database → Result (Unit {0} × Database)
insert_event r db =
    if event_allowed r db
    then ok (tt, record db { events = db.events ++ stored_event r ∷ [] })
    else err integrity_error

unfoldable pub append : Sha256 → Clock → EventArgs → Action Database EventRow
append h c a db =
    let event = build_event h c a (latest_event_hash db.events) in
    (do lift (validate_event event); transaction (insert_event event); pure event) db

pub record TamperFinding : Type 0 where
  pub event_id : String
  pub detail : String

previous_findings : Option String → EventRow → List TamperFinding
previous_findings previous r =
    if opt_eq r.previous_event_hash previous
    then []
    else record { event_id = r.event_id; detail = "previous_event_hash does not match prior event" }
      ∷ []

hash_findings : Sha256 → EventRow → List TamperFinding
hash_findings h r =
    if r.event_hash == compute_event_hash h (event_hash_payload r)
    then []
    else record { event_id = r.event_id; detail = "event_hash does not match row content" } ∷ []

-- The loop of `validate_hash_chain`.
validate_from : Sha256 → Option String → List EventRow → List TamperFinding
unfolding previous_findings hash_findings
validate_from h previous [] = []
validate_from h previous (r ∷ rows) =
    previous_findings previous r ++ (hash_findings h r ++ validate_from h (some r.event_hash) rows)

unfoldable pub validate_hash_chain : Sha256 → List EventRow → List TamperFinding
unfolding validate_from
validate_hash_chain h rows = validate_from h none rows

abbrev matches : Option String → Option String → Bool
matches none column = true
matches (some value) column = opt_eq column (some value)

-- `query`, with its order: by timestamp, then by rowid.
unfoldable pub query : Option String → Option String → Option String → List EventRow → List EventRow
query event_type agent_id plan_id rows =
    sort_by (λ r s. text_leb r.timestamp s.timestamp)
      (select_rows
        (λ r.
          matches event_type (some r.event_type)
          && matches agent_id r.agent_id
          && matches plan_id r.plan_id)
        rows)
