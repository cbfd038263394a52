-- ===== src/Health.antt =====
-- health.py: the payload of the daemon's health endpoint, as a dict, and the test of its shape.
pub mod RoundTrip
use mcp_multiplex.Prelude.{
  String, Bool, true, false, ◌&&◌, List, [], ◌∷◌, Option, none, some, ◌==◌, elem, eqb,
}
use mcp_multiplex.Json.{
  Json, Items, Fields, boolean, number, text, array, nil, cons, object, end, field,
}
use mcp_multiplex.Json.Dict
use mcp_multiplex.Json.Number.{pos, read_int}
use mcp_multiplex.Schemas.{int_json}
use mcp_multiplex.Schemas.Health.{HealthIssue, HealthSummary, HealthPayload}

unfoldable pub empty_summary : HealthSummary
empty_summary = record {
  agents = 0;
  blockers = 0;
  warnings = 0;
  notices = 0;
  active_servers = 0;
  hot_backends = 0;
  pending_approvals = 0;
}

-- A key that is not required is left out.
abbrev optional_key : String → Option String → Fields → Fields
optional_key key none rest = rest
optional_key key (some value) rest = field key (text value) rest

unfoldable pub issue_dict : HealthIssue → Fields
issue_dict i = field "area" (text i.area) (
    field "code" (text i.code) (
      field "detail" (text i.detail)
        (optional_key "agent_id" i.agent_id (optional_key "server" i.server end))))

unfoldable pub issue_items : List HealthIssue → Items
issue_items [] = nil
issue_items (i ∷ issues) = cons (object (issue_dict i)) (issue_items issues)

unfoldable pub summary_dict : HealthSummary → Fields
summary_dict s = field "agents" (int_json s.agents) (
    field "blockers" (int_json s.blockers) (
      field "warnings" (int_json s.warnings) (
        field "notices" (int_json s.notices) (
          field "active_servers" (int_json s.active_servers) (
            field "hot_backends" (int_json s.hot_backends)
              (field "pending_approvals" (int_json s.pending_approvals) end))))))

-- The dict of a payload, its keys in the order in which the source writes them.
unfoldable pub payload_dict : HealthPayload → Fields
payload_dict p = field "schema_version" (int_json p.schema_version) (
    field "kind" (text "MCPMultiplexHealth") (
      field "ok" (boolean p.healthy) (
        field "summary" (object (summary_dict p.summary)) (
          field "blockers" (array (issue_items p.blockers)) (
            field "warnings" (array (issue_items p.warnings))
              (field "notices" (array (issue_items p.notices)) end))))))

unfoldable pub healthy_payload : HealthPayload
healthy_payload = record {
  schema_version = 1;
  healthy = true;
  summary = empty_summary;
  blockers = [];
  warnings = [];
  notices = [];
}

unfoldable pub daemon_unavailable_payload : String → HealthPayload
daemon_unavailable_payload detail = record {
  schema_version = 1;
  healthy = false;
  summary = record empty_summary { blockers = 1 };
  blockers =
      record {
        area = "daemon";
        code = "daemon_unavailable";
        detail = detail;
        agent_id = none;
        server = none;
      }
      ∷ [];
  warnings = [];
  notices = [];
}

abbrev summary_keys : List String
summary_keys =
    "agents" ∷ "blockers" ∷ "warnings" ∷ "notices" ∷ "active_servers" ∷ "hot_backends"
    ∷ "pending_approvals" ∷ []

abbrev is_int : Json → Bool
is_int (boolean b) = true
is_int (number n) = elim (read_int n) [ none ↦ false | some i ↦ true ]
is_int _ = false

-- Every key of the dict is one of the summary's, and its value is an int, of which a bool is one.
abbrev only_ints : Fields → Bool
only_ints end = true
only_ints (field k v fs) = elem k summary_keys && is_int v && only_ints fs

abbrev has_keys : List String → Fields → Bool
has_keys [] fs = true
has_keys (k ∷ ks) fs = (elim (Dict.get k fs) [ none ↦ false | some v ↦ true ]) && has_keys ks fs

-- `value == 1`, for a value that is 1, True or 1.0; the last is left to the parameter.
abbrev equals_one : (String → Bool) → Option Json → Bool
equals_one float_one (some (boolean b)) = b
equals_one float_one (some (number n)) = elim (read_int n) [
  | none ↦ float_one n
  | some (pos k) ↦ eqb k 1
  | some _ ↦ false
]
equals_one float_one _ = false

abbrev is_list : Option Json → Bool
is_list (some (array xs)) = true
is_list _ = false

abbrev is_bool : Option Json → Bool
is_bool (some (boolean b)) = true
is_bool _ = false

abbrev is_kind : Option Json → Bool
is_kind (some (text s)) = s == "MCPMultiplexHealth"
is_kind _ = false

abbrev is_summary : Option Json → Bool
is_summary (some (object fs)) = only_ints fs && has_keys summary_keys fs
is_summary _ = false

abbrev payload_fields : (String → Bool) → Fields → Bool
payload_fields float_one fs =
    equals_one float_one (Dict.get "schema_version" fs)
    && (is_kind (Dict.get "kind" fs)
        && (is_bool (Dict.get "ok" fs)
            && (is_summary (Dict.get "summary" fs)
                && (is_list (Dict.get "blockers" fs)
                    && (is_list (Dict.get "warnings" fs) && is_list (Dict.get "notices" fs))))))

-- `float_one` tells whether the literal of a float is of the value 1.0.
unfoldable pub is_health_payload : (float_one : String → Bool) → Json → Bool
is_health_payload float_one (object fs) = payload_fields float_one fs
is_health_payload float_one _ = false
