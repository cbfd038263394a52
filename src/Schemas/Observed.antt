-- ===== src/Schemas/Observed.antt =====
-- schemas/models.py: ToolFilters and ObservedEntry, with `from_dict` and `to_dict`.
use mcp_multiplex.Prelude.{
  ℕ, String, Bool, not, ◌&&◌, List, [], ◌∷◌, Option, none, some, ◌==◌, truthy?,
}
use mcp_multiplex.Json.{Json, Fields, null, boolean, text, array, nil, object, number, end, field}
use mcp_multiplex.Json.Dict
use mcp_multiplex.Exec.{Result, ok, err, validation_error, and_then}
use mcp_multiplex.Security.{Urls}
use mcp_multiplex.Schemas.{
  ◌>>=◌, ◌>>◌, invalid_if, agent_kinds, transports, parser_confidences, require_string,
  optional_string, require_bool, require_schema_version, require_string_list, require_object,
  require_enum, require_id, safe_command, safe_http_url, reject_unknown_keys, nullable, text_items,
  int_json, texts,
}

pub record ToolFilters : Type 0 where
  pub enabled_tools : Option (List String)
  pub disabled_tools : List String

-- The texts of `value`, which must be a list of texts.
abbrev filter_texts : String → Json → Result (List String)
filter_texts message (array xs) = elim (texts xs) [
  | none ↦ err (validation_error message)
  | some ss ↦ ok ss
]
filter_texts message _ = err (validation_error message)

abbrev filter_texts? : String → Option Json → Result (Option (List String))
filter_texts? message none = ok none
filter_texts? message (some null) = ok none
filter_texts? message (some value) = and_then (filter_texts message value) λ ss. ok (some ss)

abbrev present_or : Json → Option Json → Json
present_or default none = default
present_or default (some value) = value

unfoldable pub filters_from_dict : Fields → Result ToolFilters
filters_from_dict payload = do
  reject_unknown_keys "ToolFilters" ("schema_version" ∷ "enabled_tools" ∷ "disabled_tools" ∷ [])
      payload
  version ←
      require_schema_version (some (present_or (number "1") (Dict.get "schema_version" payload)))
  enabled ←
      filter_texts? "enabled_tools must be a list of strings or null"
        (Dict.get "enabled_tools" payload)
  disabled ←
      filter_texts "disabled_tools must be a list of strings"
        (present_or (array nil) (Dict.get "disabled_tools" payload))
  ok (record { enabled_tools = enabled; disabled_tools = disabled })

abbrev pub tools_json : Option (List String) → Json
tools_json none = null
tools_json (some ss) = array (text_items ss)

unfoldable pub filters_to_dict : ToolFilters → Fields
filters_to_dict f =
    field "enabled_tools" (tools_json f.enabled_tools)
      (field "disabled_tools" (array (text_items f.disabled_tools)) end)

-- `tool_filters` is kept as the dict that `ToolFilters.to_dict` returns.
pub record ObservedEntry : Type 0 where
  pub schema_version : ℕ
  pub observed_entry_id : String
  pub agent_id : String
  pub agent_kind : String
  pub config_path : String
  pub container_path : List String
  pub mount_name : String
  pub enabled : Bool
  pub transport : String
  pub command : Option String
  pub args : List String
  pub url : Option String
  pub headers_present : List String
  pub env_names : List String
  pub cwd : Option String
  pub tool_filters : ToolFilters
  pub approval_policy : Option String
  pub entry_hash : String
  pub raw_shape : String
  pub parser_confidence : String

abbrev pub observed_entry_fields : List String
observed_entry_fields =
    "schema_version" ∷ "observed_entry_id" ∷ "agent_id" ∷ "agent_kind" ∷ "config_path"
    ∷ "container_path" ∷ "mount_name" ∷ "enabled" ∷ "transport" ∷ "command" ∷ "args" ∷ "url"
    ∷ "headers_present" ∷ "env_names" ∷ "cwd" ∷ "tool_filters" ∷ "approval_policy" ∷ "entry_hash"
    ∷ "raw_shape" ∷ "parser_confidence" ∷ []

unfoldable pub from_dict : Urls → Fields → Result ObservedEntry
from_dict u payload = do
  reject_unknown_keys "ObservedEntry" observed_entry_fields payload
  schema_version ← require_schema_version (Dict.get "schema_version" payload)
  transport ← require_enum payload "transport" transports
  command ← and_then (optional_string payload "command") (safe_command "command")
  url ← and_then (optional_string payload "url") (safe_http_url u "url")
  invalid_if (transport == "stdio" && not (truthy? command))
      "stdio observed entries require command"
  invalid_if (not (transport == "stdio") && not (truthy? url))
      "non-stdio observed entries require url"
  observed_entry_id ← require_id payload "observed_entry_id" "obs_"
  agent_id ← require_string payload "agent_id"
  agent_kind ← require_enum payload "agent_kind" agent_kinds
  config_path ← require_string payload "config_path"
  container_path ← require_string_list payload "container_path"
  mount_name ← require_string payload "mount_name"
  enabled ← require_bool payload "enabled"
  args ← require_string_list payload "args"
  headers_present ← require_string_list payload "headers_present"
  env_names ← require_string_list payload "env_names"
  cwd ← optional_string payload "cwd"
  tool_filters ← and_then (require_object payload "tool_filters") filters_from_dict
  approval_policy ← optional_string payload "approval_policy"
  entry_hash ← require_id payload "entry_hash" "sha256:"
  raw_shape ← require_string payload "raw_shape"
  parser_confidence ← require_enum payload "parser_confidence" parser_confidences
  ok (record {
    schema_version = schema_version;
    observed_entry_id = observed_entry_id;
    agent_id = agent_id;
    agent_kind = agent_kind;
    config_path = config_path;
    container_path = container_path;
    mount_name = mount_name;
    enabled = enabled;
    transport = transport;
    command = command;
    args = args;
    url = url;
    headers_present = headers_present;
    env_names = env_names;
    cwd = cwd;
    tool_filters = tool_filters;
    approval_policy = approval_policy;
    entry_hash = entry_hash;
    raw_shape = raw_shape;
    parser_confidence = parser_confidence;
  })

unfoldable pub to_dict : ObservedEntry → Fields
to_dict e = field "schema_version" (int_json e.schema_version) (
    field "observed_entry_id" (text e.observed_entry_id) (
      field "agent_id" (text e.agent_id) (
        field "agent_kind" (text e.agent_kind) (
          field "config_path" (text e.config_path) (
            field "container_path" (array (text_items e.container_path)) (
              field "mount_name" (text e.mount_name) (
                field "enabled" (boolean e.enabled) (
                  field "transport" (text e.transport) (
                    field "command" (nullable e.command) (
                      field "args" (array (text_items e.args)) (
                        field "url" (nullable e.url) (
                          field "headers_present" (array (text_items e.headers_present)) (
                            field "env_names" (array (text_items e.env_names)) (
                              field "cwd" (nullable e.cwd) (
                                field "tool_filters" (object (filters_to_dict e.tool_filters)) (
                                  field "approval_policy" (nullable e.approval_policy) (
                                    field "entry_hash" (text e.entry_hash) (
                                      field "raw_shape" (text e.raw_shape) (
                                        field "parser_confidence" (text e.parser_confidence)
                                          end)))))))))))))))))))
