-- ===== src/Schemas/RoundTrip.antt =====
-- What `to_dict` writes, `from_dict` reads back: for observed entries.
use mcp_multiplex.Prelude.{
  String, true, false, not, ◌&&◌, List, Option, none, some, ◌==◌, truthy, truthy?, elem,
  starts_with, ◌≡◌, arith,
}
use mathlib.Core.Path.{subst}
use mcp_multiplex.Json.{Fields}
use mcp_multiplex.Exec.{ok, bind_elim, ok-injective}
use mcp_multiplex.Security.{Urls}
use mcp_multiplex.Schemas.{
  ◌>>=◌, ◌>>◌, invalid_if, >>=-elim, >>-elim, invalid_if-elim, with_prefix, enum_value, agent_kinds,
  transports, parser_confidences, require_string, optional_string, require_enum, require_id,
  safe_command, safe_http_url, reject_unknown_keys, bool_value, object_value, version_of, int_value,
}
use mcp_multiplex.Schemas.Values.{
  string_value-truthy, enum_value-elem, with_prefix-starts, version_of-one, safe_command-same,
  safe_http_url-same, string_list-items, optional-nullable, string-text, enum-elem, prefix-starts,
  int-decimal, texts-items,
}
use mcp_multiplex.Json.Number.{read_int}
use mcp_multiplex.Schemas.Observed.{
  ToolFilters, ObservedEntry, filters_from_dict, filters_to_dict, from_dict, to_dict,
}

-- What an entry satisfies that `from_dict` returned.
pub record IsValid (u : Urls) (e : ObservedEntry) : Type 0 where
  pub version : e.schema_version ≡ 1
  pub id : truthy e.observed_entry_id ≡ true
  pub id_prefix : starts_with e.observed_entry_id "obs_" ≡ true
  pub agent : truthy e.agent_id ≡ true
  pub kind : truthy e.agent_kind ≡ true
  pub kind_known : elem e.agent_kind agent_kinds ≡ true
  pub path : truthy e.config_path ≡ true
  pub mount : truthy e.mount_name ≡ true
  pub transport : truthy e.transport ≡ true
  pub transport_known : elem e.transport transports ≡ true
  pub command_safe : safe_command "command" e.command ≡ ok e.command
  pub url_safe : safe_http_url u "url" e.url ≡ ok e.url
  pub with_command : ((e.transport == "stdio") && not (truthy? e.command)) ≡ false
  pub with_url : (not (e.transport == "stdio") && not (truthy? e.url)) ≡ false
  pub hash : truthy e.entry_hash ≡ true
  pub hash_prefix : starts_with e.entry_hash "sha256:" ≡ true
  pub shape : truthy e.raw_shape ≡ true
  pub confidence : truthy e.parser_confidence ≡ true
  pub confidence_known : elem e.parser_confidence parser_confidences ≡ true

filters-fields :
    (enabled : Option (List String)) (disabled : List String)
    → let f : ToolFilters = record { enabled_tools = enabled; disabled_tools = disabled } in
      filters_from_dict (filters_to_dict f) ≡ ok f
unfolding ◌>>=◌ ◌>>◌ filters_from_dict filters_to_dict reject_unknown_keys int_value version_of
    read_int
filters-fields none disabled = ground (arith, texts-items disabled)
filters-fields (some enabled) disabled = ground (arith, texts-items enabled, texts-items disabled)

pub filters-dict : (f : ToolFilters) → filters_from_dict (filters_to_dict f) ≡ ok f
filters-dict f = filters-fields f.enabled_tools f.disabled_tools

pub from-to_dict : (u : Urls) (e : ObservedEntry) → IsValid u e → from_dict u (to_dict e) ≡ ok e
unfolding ◌>>=◌ ◌>>◌ invalid_if from_dict to_dict reject_unknown_keys bool_value object_value
    version_of
from-to_dict u e v = rw (
  int-decimal "schema_version" e.schema_version,
  v.version,
  string-text "transport" e.transport v.transport,
  enum-elem "transport" e.transport transports v.transport_known,
  optional-nullable "command" e.command,
  v.command_safe,
  optional-nullable "url" e.url,
  v.url_safe,
  v.with_command,
  v.with_url,
  string-text "observed_entry_id" e.observed_entry_id v.id,
  prefix-starts "obs_" "observed_entry_id" e.observed_entry_id v.id_prefix,
  string-text "agent_id" e.agent_id v.agent,
  string-text "agent_kind" e.agent_kind v.kind,
  enum-elem "agent_kind" e.agent_kind agent_kinds v.kind_known,
  string-text "config_path" e.config_path v.path,
  string_list-items "container_path" e.container_path,
  string-text "mount_name" e.mount_name v.mount,
  string_list-items "args" e.args,
  string_list-items "headers_present" e.headers_present,
  string_list-items "env_names" e.env_names,
  optional-nullable "cwd" e.cwd,
  filters-dict e.tool_filters,
  optional-nullable "approval_policy" e.approval_policy,
  string-text "entry_hash" e.entry_hash v.hash,
  prefix-starts "sha256:" "entry_hash" e.entry_hash v.hash_prefix,
  string-text "raw_shape" e.raw_shape v.shape,
  string-text "parser_confidence" e.parser_confidence v.confidence,
  enum-elem "parser_confidence" e.parser_confidence parser_confidences v.confidence_known,
)

-- What `_require_enum` and `_validate_id` of a required text found.
require_enum-elem :
    (payload : Fields) (key : String) (allowed : List String) (s : String)
    → require_enum payload key allowed ≡ ok s
    → (truthy s ≡ true) × (elem s allowed ≡ true)
require_enum-elem payload key allowed s h =
    bind_elim (require_string payload key) (enum_value key allowed) s h λ v read tested.
      let (same, known) = enum_value-elem key allowed v s tested in
      (subst (λ t. truthy t ≡ true) same (string_value-truthy key _ v read), known)

require_id-starts :
    (payload : Fields) (key prefix s : String)
    → require_id payload key prefix ≡ ok s
    → (truthy s ≡ true) × (starts_with s prefix ≡ true)
require_id-starts payload key prefix s h =
    bind_elim (require_string payload key) (with_prefix prefix key) s h λ v read tested.
      let (same, starts) = with_prefix-starts prefix key v s tested in
      (subst (λ t. truthy t ≡ true) same (string_value-truthy key _ v read), starts)

from_dict-IsValid :
    (u : Urls) (payload : Fields) (e : ObservedEntry) → from_dict u payload ≡ ok e → IsValid u e
unfolding from_dict
from_dict-IsValid u payload e h = >>=-elim (>>-elim _ h) λ schema_version r1 h.
    >>=-elim h λ transport r2 h. >>=-elim h λ command r3 h. >>=-elim h λ url r4 h.
      invalid_if-elim _ _ h λ with_command h. invalid_if-elim _ _ h λ with_url h.
        >>=-elim h λ observed_entry_id r5 h. >>=-elim h λ agent_id r6 h.
          >>=-elim h λ agent_kind r7 h. >>=-elim h λ config_path r8 h.
            >>=-elim h λ container_path r9 h. >>=-elim h λ mount_name r10 h.
              >>=-elim h λ enabled r11 h. >>=-elim h λ args r12 h.
                >>=-elim h λ headers_present r13 h. >>=-elim h λ env_names r14 h.
                  >>=-elim h λ cwd r15 h. >>=-elim h λ tool_filters r16 h.
                    >>=-elim h λ approval_policy r17 h. >>=-elim h λ entry_hash r18 h.
                      >>=-elim h λ raw_shape r19 h. >>=-elim h λ parser_confidence r20 h.
                        let read_command =
                          bind_elim (optional_string payload "command") (safe_command "command")
                            command r3 in
                        let read_url =
                          bind_elim (optional_string payload "url") (safe_http_url u "url") url
                            r4 in
                        let (id, id_prefix) = require_id-starts payload _ _ _ r5 in
                        let (kind, kind_known) = require_enum-elem payload _ _ _ r7 in
                        let (moved, transport_known) = require_enum-elem payload _ _ _ r2 in
                        let (hash, hash_prefix) = require_id-starts payload _ _ _ r18 in
                        let (confidence, confidence_known) = require_enum-elem payload _ _ _ r20 in
                        subst (IsValid u) (ok-injective _ e h) (record {
                          version =
                              bind_elim _ version_of schema_version r1
                                λ i _ one. version_of-one i _ one;
                          id = id;
                          id_prefix = id_prefix;
                          agent = string_value-truthy _ _ _ r6;
                          kind = kind;
                          kind_known = kind_known;
                          path = string_value-truthy _ _ _ r8;
                          mount = string_value-truthy _ _ _ r10;
                          transport = moved;
                          transport_known = transport_known;
                          command_safe = read_command λ o _ safe.
                              subst (λ c. safe_command "command" c ≡ ok command)
                                (safe_command-same _ _ _ safe) safe;
                          url_safe = read_url λ o _ safe.
                              subst (λ c. safe_http_url u "url" c ≡ ok url)
                                (safe_http_url-same u _ _ _ safe) safe;
                          with_command = with_command;
                          with_url = with_url;
                          hash = hash;
                          hash_prefix = hash_prefix;
                          shape = string_value-truthy _ _ _ r19;
                          confidence = confidence;
                          confidence_known = confidence_known;
                        })

-- What `ObservedEntry.from_dict` returned is read back from its `to_dict` as it is, whatever was
-- read before: the texts of the entry are checked, nothing is dropped, and no value is changed.
pub from_dict_stable :
    (u : Urls) (payload : Fields) (e : ObservedEntry)
    → from_dict u payload ≡ ok e
    → IsValid u e × (from_dict u (to_dict e) ≡ ok e)
from_dict_stable u payload e h =
    let valid = from_dict-IsValid u payload e h in (valid, from-to_dict u e valid)
