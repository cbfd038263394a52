-- ===== src/Schemas/Tests.antt =====
-- An observed entry is read.
use mcp_multiplex.Prelude.{◌≡◌, refl}
use mcp_multiplex.Exec.{ok}
use mcp_multiplex.Samples.{sample_urls, sample_observed, observed_payload}
use mcp_multiplex.Schemas.Observed.{from_dict, to_dict, filters_from_dict}
use mcp_multiplex.Schemas.RoundTrip.{IsValid, from_dict_stable}
use mcp_multiplex.Schemas.{
  with_prefix, int_value, reject_unknown_keys, safe_command, version_of, object_value, ◌>>◌,
  optional_value, list_value, enum_value, int_of, safe_http_url, texts_value, invalid_if,
  as_validation, texts, ◌>>=◌, keys, string_value, unknown_keys, bool_value, quoted,
}
use mcp_multiplex.Security.{has_shell_meta, validate_http_url, is_space, validate_command_name}
use mcp_multiplex.Json.Number.{read_int}

read_run : from_dict sample_urls observed_payload ≡ ok sample_observed
unfolding from_dict ◌>>◌ reject_unknown_keys ◌>>=◌ int_value read_int version_of string_value
    enum_value optional_value safe_command as_validation validate_command_name has_shell_meta
    is_space safe_http_url validate_http_url invalid_if filters_from_dict bool_value int_of keys
    list_value object_value quoted texts texts_value unknown_keys with_prefix
read_run = refl

from_dict_stable_example :
    IsValid sample_urls sample_observed
    × (from_dict sample_urls (to_dict sample_observed) ≡ ok sample_observed)
from_dict_stable_example = from_dict_stable sample_urls observed_payload sample_observed read_run
