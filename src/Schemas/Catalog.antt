-- ===== src/Schemas/Catalog.antt =====
-- schemas/models.py: CatalogEntry with its transport, runtime and active set.
use mcp_multiplex.Prelude.{
  ℕ, String, Bool, not, ◌&&◌, List, [], ◌∷◌, Option, none, some, ◌==◌, truthy?,
}
use mcp_multiplex.Json.{Json, Items, Fields, boolean, text, array, nil, object, end, field}
use mcp_multiplex.Json.Dict
use mcp_multiplex.Exec.{Result, ok, and_then}
use mcp_multiplex.Security.{Urls}
use mcp_multiplex.Schemas.{
  ◌>>=◌, ◌>>◌, invalid_if, transports, catalog_review_states, catalog_lifecycle_states,
  reviewed_risk_tiers, shareabilities, concurrencies, require_string, optional_string, require_bool,
  require_int, require_schema_version, list_value, string_list_value, require_string_list,
  require_object, require_enum, require_id, validate_hub_path, safe_command, safe_http_url,
  reject_unknown_keys, nullable, text_items, int_json,
}

pub record BackendTransport : Type 0 where
  pub type : String
  pub command : Option String
  pub args : List String
  pub cwd_policy : String
  pub env : List String
  pub url : Option String

pub record TransportConfig : Type 0 where
  pub frontend : String
  pub hub_path : String
  pub backend : BackendTransport

pub record RuntimeConfig : Type 0 where
  pub shareability : String
  pub concurrency : String
  pub idle_timeout_sec : ℕ
  pub health_check : String

pub record ActiveSetConfig : Type 0 where
  pub eligible_profiles : List String
  pub default_enabled : Bool

pub record CatalogEntry : Type 0 where
  pub schema_version : ℕ
  pub catalog_id : String
  pub name : String
  pub canonical_name : String
  pub family_id : String
  pub variant_name : Option String
  pub display_label : String
  pub aliases : List String
  pub review_state : String
  pub lifecycle_state : String
  pub risk_tier : String
  pub provenance : Items
  pub transport : TransportConfig
  pub runtime : RuntimeConfig
  pub credentials : Items
  pub active_set : ActiveSetConfig

abbrev or_empty : Option Json → Option Json
or_empty none = some (array nil)
or_empty (some value) = some value

-- `str(payload.get("cwd_policy", "none"))`; a text is its own `str`.
abbrev pub policy_text : (Json → String) → Option Json → String
policy_text str none = "none"
policy_text str (some (text s)) = s
policy_text str (some value) = str value

unfoldable pub backend_from_dict : Urls → Fields → Result BackendTransport
backend_from_dict u payload = do
  reject_unknown_keys "BackendTransport"
      ("schema_version" ∷ "type" ∷ "command" ∷ "args" ∷ "cwd_policy" ∷ "env" ∷ "url" ∷ []) payload
  type ← require_enum payload "type" transports
  command ← and_then (optional_string payload "command") (safe_command "transport.backend.command")
  url ← and_then (optional_string payload "url") (safe_http_url u "transport.backend.url")
  invalid_if (type == "stdio" && not (truthy? command)) "stdio backend transport requires command"
  invalid_if (not (type == "stdio") && not (truthy? url)) "HTTP backend transport requires url"
  args ← string_list_value "args" (or_empty (Dict.get "args" payload))
  env ← string_list_value "env" (or_empty (Dict.get "env" payload))
  ok (record {
    type = type;
    command = command;
    args = args;
    cwd_policy = policy_text u.str (Dict.get "cwd_policy" payload);
    env = env;
    url = url;
  })

unfoldable pub transport_from_dict : Urls → Fields → Result TransportConfig
transport_from_dict u payload = do
  reject_unknown_keys "TransportConfig"
      ("schema_version" ∷ "frontend" ∷ "hub_path" ∷ "backend" ∷ []) payload
  frontend ← require_enum payload "frontend" ("streamable_http" ∷ [])
  hub_path ← and_then (require_string payload "hub_path") validate_hub_path
  backend ← and_then (require_object payload "backend") (backend_from_dict u)
  ok (record { frontend = frontend; hub_path = hub_path; backend = backend })

unfoldable pub runtime_from_dict : Fields → Result RuntimeConfig
runtime_from_dict payload = do
  reject_unknown_keys "RuntimeConfig"
      ("schema_version" ∷ "shareability" ∷ "concurrency" ∷ "idle_timeout_sec" ∷ "health_check" ∷ [])
      payload
  shareability ← require_enum payload "shareability" shareabilities
  concurrency ← require_enum payload "concurrency" concurrencies
  idle_timeout_sec ← require_int payload "idle_timeout_sec" 1
  health_check ← require_string payload "health_check"
  ok (record {
    shareability = shareability;
    concurrency = concurrency;
    idle_timeout_sec = idle_timeout_sec;
    health_check = health_check;
  })

unfoldable pub active_set_from_dict : Fields → Result ActiveSetConfig
active_set_from_dict payload = do
  reject_unknown_keys "ActiveSetConfig"
      ("schema_version" ∷ "eligible_profiles" ∷ "default_enabled" ∷ []) payload
  eligible_profiles ← require_string_list payload "eligible_profiles"
  default_enabled ← require_bool payload "default_enabled"
  ok (record { eligible_profiles = eligible_profiles; default_enabled = default_enabled })

abbrev pub catalog_entry_fields : List String
catalog_entry_fields =
    "schema_version" ∷ "catalog_id" ∷ "name" ∷ "canonical_name" ∷ "family_id" ∷ "variant_name"
    ∷ "display_label" ∷ "aliases" ∷ "review_state" ∷ "lifecycle_state" ∷ "risk_tier" ∷ "provenance"
    ∷ "transport" ∷ "runtime" ∷ "credentials" ∷ "active_set" ∷ []

unfoldable pub from_dict : Urls → Fields → Result CatalogEntry
from_dict u payload = do
  reject_unknown_keys "CatalogEntry" catalog_entry_fields payload
  schema_version ← require_schema_version (Dict.get "schema_version" payload)
  transport ← and_then (require_object payload "transport") (transport_from_dict u)
  runtime ← and_then (require_object payload "runtime") runtime_from_dict
  invalid_if (runtime.shareability == "global" && not (transport.backend.type == "stdio"))
      "global shareability requires explicitly reviewed stdio backend"
  catalog_id ← require_id payload "catalog_id" "srv_"
  name ← require_string payload "name"
  canonical_name ← require_string payload "canonical_name"
  family_id ← require_string payload "family_id"
  variant_name ← optional_string payload "variant_name"
  display_label ← require_string payload "display_label"
  aliases ← require_string_list payload "aliases"
  review_state ← require_enum payload "review_state" catalog_review_states
  lifecycle_state ← require_enum payload "lifecycle_state" catalog_lifecycle_states
  risk_tier ← require_enum payload "risk_tier" reviewed_risk_tiers
  provenance ← list_value "provenance" (Dict.get "provenance" payload)
  credentials ← list_value "credentials" (Dict.get "credentials" payload)
  active_set ← and_then (require_object payload "active_set") active_set_from_dict
  ok (record {
    schema_version = schema_version;
    catalog_id = catalog_id;
    name = name;
    canonical_name = canonical_name;
    family_id = family_id;
    variant_name = variant_name;
    display_label = display_label;
    aliases = aliases;
    review_state = review_state;
    lifecycle_state = lifecycle_state;
    risk_tier = risk_tier;
    provenance = provenance;
    transport = transport;
    runtime = runtime;
    credentials = credentials;
    active_set = active_set;
  })

unfoldable pub backend_to_dict : BackendTransport → Fields
backend_to_dict b = field "type" (text b.type) (
    field "command" (nullable b.command) (
      field "args" (array (text_items b.args)) (
        field "cwd_policy" (text b.cwd_policy)
          (field "env" (array (text_items b.env)) (field "url" (nullable b.url) end)))))

unfoldable pub transport_to_dict : TransportConfig → Fields
transport_to_dict t =
    field "frontend" (text t.frontend) (
      field "hub_path" (text t.hub_path) (field "backend" (object (backend_to_dict t.backend)) end))

unfoldable pub runtime_to_dict : RuntimeConfig → Fields
runtime_to_dict r = field "shareability" (text r.shareability) (
    field "concurrency" (text r.concurrency) (
      field "idle_timeout_sec" (int_json r.idle_timeout_sec)
        (field "health_check" (text r.health_check) end)))

unfoldable pub active_set_to_dict : ActiveSetConfig → Fields
active_set_to_dict a =
    field "eligible_profiles" (array (text_items a.eligible_profiles))
      (field "default_enabled" (boolean a.default_enabled) end)

unfoldable pub to_dict : CatalogEntry → Fields
to_dict e = field "schema_version" (int_json e.schema_version) (
    field "catalog_id" (text e.catalog_id) (
      field "name" (text e.name) (
        field "canonical_name" (text e.canonical_name) (
          field "family_id" (text e.family_id) (
            field "variant_name" (nullable e.variant_name) (
              field "display_label" (text e.display_label) (
                field "aliases" (array (text_items e.aliases)) (
                  field "review_state" (text e.review_state) (
                    field "lifecycle_state" (text e.lifecycle_state) (
                      field "risk_tier" (text e.risk_tier) (
                        field "provenance" (array e.provenance) (
                          field "transport" (object (transport_to_dict e.transport)) (
                            field "runtime" (object (runtime_to_dict e.runtime)) (
                              field "credentials" (array e.credentials) (
                                field "active_set" (object (active_set_to_dict e.active_set))
                                  end)))))))))))))))
