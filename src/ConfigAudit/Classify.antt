-- ===== src/ConfigAudit/Classify.antt =====
-- observability/config_audit.py: the classification of an entry, and the health that it makes.
use mcp_multiplex.Prelude.{
  ℕ, suc, String, Bool, false, not, ◌&&◌, ◌||◌, List, [], ◌∷◌, Option, none, some, map,
  if◌then◌else◌, ◌==◌, ◌<>◌, opt_eq, elem, select_rows, sort_by, text_leb, length, eqb,
}
use mcp_multiplex.Json.{Json, Items, Fields, null, boolean, text, object, nil, cons, field, end}
use mcp_multiplex.Exec.{Result, ok, and_then}
use mcp_multiplex.Schemas.Observed.{ObservedEntry}
use mcp_multiplex.Schemas.Health.{HealthIssue, HealthPayload, from_dict}
use mcp_multiplex.Health.{empty_summary, issue_dict, payload_dict}

pub record ClassifiedObservedEntry : Type 0 where
  pub observed_entry : ObservedEntry
  pub classification : String
  pub severity : String
  pub issue : Option HealthIssue

abbrev issue_json : Option HealthIssue → Json
issue_json none = null
issue_json (some i) = object (issue_dict i)

-- `ClassifiedObservedEntry.to_dict`
unfoldable pub classified_dict : ClassifiedObservedEntry → Fields
classified_dict i = field "observed_entry_id" (text i.observed_entry.observed_entry_id) (
    field "agent_id" (text i.observed_entry.agent_id) (
      field "agent_kind" (text i.observed_entry.agent_kind) (
        field "mount_name" (text i.observed_entry.mount_name) (
          field "enabled" (boolean i.observed_entry.enabled) (
            field "classification" (text i.classification)
              (field "severity" (text i.severity) (field "issue" (issue_json i.issue) end)))))))

unfoldable pub classified_items : List ClassifiedObservedEntry → Items
classified_items [] = nil
classified_items (i ∷ items) = cons (object (classified_dict i)) (classified_items items)

-- The sort key: agent, path, mount, id
abbrev pub entry_order : ObservedEntry → ObservedEntry → Bool
entry_order a b =
    if a.agent_id == b.agent_id
    then if a.config_path == b.config_path
      then if a.mount_name == b.mount_name
        then text_leb a.observed_entry_id b.observed_entry_id
        else text_leb a.mount_name b.mount_name
      else text_leb a.config_path b.config_path
    else text_leb a.agent_id b.agent_id

unfoldable pub sorted_observed_entries : List ObservedEntry → List ObservedEntry
sorted_observed_entries entries = sort_by entry_order entries

unfoldable pub is_hub_routed : ObservedEntry → Bool
is_hub_routed e =
    e.enabled
    && (e.transport == "streamable_http"
        && opt_eq e.url (some ("http://127.0.0.1:30000/servers/" <> e.mount_name <> "/mcp")))

-- The issue that an entry is reported by.
abbrev pub issue_of : ObservedEntry → String → String → HealthIssue
issue_of e code detail = record {
  area = "compliance";
  code = code;
  detail = detail;
  agent_id = some e.agent_id;
  server = some e.mount_name;
}

abbrev pub classified :
    ObservedEntry → String → String → Option HealthIssue → ClassifiedObservedEntry
classified e classification severity issue = record {
  observed_entry = e;
  classification = classification;
  severity = severity;
  issue = issue;
}

unfoldable pub classify_observed_entry : ObservedEntry → ClassifiedObservedEntry
classify_observed_entry e =
    if not (e.parser_confidence == "complete")
    then classified e "unsupported_entry" "warning" (
        some (
          issue_of e "unsupported_observed_entry" (
            e.agent_kind <> " entry " <> e.mount_name
            <> " contains unsupported fields and is audit-only until reviewed.")))
    else if is_hub_routed e
    then classified e "compliant_hub_routed" "compliant" none
    else if not e.enabled
    then classified e "disabled_direct_entry" "warning" (
        some (
          issue_of e "disabled_direct_entry" (
            "Disabled " <> e.agent_kind <> " entry " <> e.mount_name
            <> " is not Hub-routed; it remains visible but does not block.")))
    else classified e "active_direct_bypass" "blocker" (
        some (
          issue_of e "active_direct_bypass" (
            "Active " <> e.agent_kind <> " entry " <> e.mount_name
            <> " bypasses http://127.0.0.1:30000/servers/<server>/mcp.")))

unfoldable pub classify_observed_entries : List ObservedEntry → List ClassifiedObservedEntry
classify_observed_entries entries = map classify_observed_entry (sorted_observed_entries entries)

abbrev pub has_severity : String → ClassifiedObservedEntry → Bool
has_severity s i = i.severity == s

-- `_has_drift`
unfoldable pub has_drift : List ClassifiedObservedEntry → Bool
has_drift [] = false
has_drift (i ∷ items) = (has_severity "blocker" i || has_severity "warning" i) || has_drift items

-- `[item.issue for item in … if item.severity == s and item.issue]`
unfoldable pub issues : String → List ClassifiedObservedEntry → List HealthIssue
issues s [] = []
issues s (i ∷ items) =
    let rest = issues s items in
    elim i.issue [ none ↦ rest | some x ↦ if has_severity s i then x ∷ rest else rest ]

-- How many texts a set of them has.
unfoldable pub count_distinct : List String → ℕ
count_distinct [] = 0
count_distinct (s ∷ ss) = let rest = count_distinct ss in if elem s ss then rest else suc rest

abbrev pub agents_of : List ObservedEntry → List String
agents_of entries = map (λ (e : ObservedEntry). e.agent_id) entries

abbrev pub is_active : ClassifiedObservedEntry → Bool
is_active i = i.observed_entry.enabled && has_severity "compliant" i

unfoldable pub health_payload_for_classifications :
    List ObservedEntry → List ClassifiedObservedEntry → HealthPayload
health_payload_for_classifications entries items = record {
  schema_version = 1;
  healthy = eqb (length (issues "blocker" items)) 0;
  summary = record empty_summary {
    agents = count_distinct (agents_of entries);
    active_servers = length (select_rows is_active items);
    blockers = length (issues "blocker" items);
    warnings = length (issues "warning" items);
  };
  blockers = issues "blocker" items;
  warnings = issues "warning" items;
  notices = [];
}

-- `HealthPayloadModel.from_dict(payload)`, whose value is not used
unfoldable pub validated_health : HealthPayload → Result HealthPayload
validated_health p = and_then (from_dict (payload_dict p)) λ _. ok p
