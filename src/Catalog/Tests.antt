-- ===== src/Catalog/Tests.antt =====
-- Matches and candidates of two observed entries.
use mcp_multiplex.Prelude.{
  String, Option, none, ◌⊎◌, [], ◌∷◌, some, true, ◌≡◌, refl, strip_left, strip_right,
}
use mcp_multiplex.Samples.{
  sample_sha, sample_urls, sample_clock, sample_observed, unknown_observed, routable_entry,
  observed_database,
}
use mcp_multiplex.Exec.{Result, ok, err}
use mcp_multiplex.Schemas.Candidate.{CatalogCandidate}
use mcp_multiplex.Catalog.Candidates.{
  candidate_from_observed_entry, stage_unknown_candidate, candidate_classification, candidate_id,
  candidate_reasons, is_local_http_url, backend_shape,
}
use mcp_multiplex.Catalog.Staged.{NotStaged, Staged, stage_outcome}
use mcp_multiplex.Catalog.Matching.{
  CatalogMatch, match_observed_entry, backend_fingerprint_for_observed_entry,
  is_normalized_backend_url_match, score_all, key_leb, normalize_url,
  is_exact_backend_fingerprint_match, match_of, score_entry, match_reasons, is_alias_name_match,
  matched, is_exact_hub_url_match, confidence_for_reasons, best,
  backend_fingerprint_for_catalog_entry,
}
use mcp_multiplex.Catalog.Best.{IsBest, match-IsBest}
use mcp_multiplex.Schemas.{
  texts_value, version_of, object_value, require_int, optional_value, safe_command, ◌>>◌, int_value,
  as_validation, invalid_if, validate_hub_path, ◌>>=◌, texts, reject_unknown_keys, with_prefix,
  string_value, enum_value, list_value, safe_http_url, bool_value, text_items,
}
use mcp_multiplex.Json.Canonical.{canonical, canonical_fields, insert_field}
use mcp_multiplex.Security.{validate_http_url, is_space, has_shell_meta, validate_command_name}
use mcp_multiplex.Schemas.Catalog.{
  backend_from_dict, to_dict, transport_to_dict, transport_from_dict, active_set_to_dict,
  backend_to_dict, active_set_from_dict, runtime_to_dict, runtime_from_dict,
}
use mcp_multiplex.Json.Number.{read_int, decimal}
use mcp_multiplex.Catalog.Routable.{validate_routable_catalog_entry, routing_reasons}

abbrev found : CatalogMatch
found = record {
  observed_entry_id = "obs_1";
  catalog_id = some "srv_files";
  confidence = "high";
  reasons = "exact_backend_fingerprint" ∷ "mount_name" ∷ [];
  auto_apply_allowed = true;
  routable = true;
  routability_reasons = [];
}

found_run :
    match_observed_entry sample_sha sample_urls sample_observed (routable_entry ∷ []) ≡ ok found
unfolding match_observed_entry score_all score_entry validate_routable_catalog_entry
    mcp_multiplex.Schemas.Catalog.from_dict ◌>>◌ reject_unknown_keys to_dict ◌>>=◌ int_value
    read_int decimal version_of object_value transport_from_dict transport_to_dict string_value
    enum_value backend_fingerprint_for_catalog_entry backend_fingerprint_for_observed_entry best
    confidence_for_reasons is_alias_name_match is_exact_backend_fingerprint_match
    is_exact_hub_url_match is_normalized_backend_url_match key_leb match_of match_reasons matched
    normalize_url routing_reasons canonical insert_field strip_left strip_right active_set_from_dict
    active_set_to_dict backend_from_dict backend_to_dict runtime_from_dict runtime_to_dict
    as_validation bool_value invalid_if list_value optional_value require_int safe_command
    safe_http_url text_items texts texts_value validate_hub_path with_prefix has_shell_meta is_space
    validate_command_name validate_http_url
found_run = refl

match-IsBest_example : IsBest sample_sha sample_urls sample_observed (routable_entry ∷ []) found
match-IsBest_example =
    match-IsBest sample_sha sample_urls sample_observed (routable_entry ∷ []) found found_run

abbrev staged : Result (Option CatalogCandidate) → String
staged (ok none) = ""
staged (ok (some c)) = c.candidate_id
staged (err e) = ""

staging_run :
    staged (candidate_from_observed_entry sample_sha sample_urls unknown_observed)
    ≡ "cand_notes-mcp stdio "
unfolding candidate_from_observed_entry candidate_classification
    mcp_multiplex.Schemas.Candidate.from_dict ◌>>◌ reject_unknown_keys ◌>>=◌ int_value read_int
    version_of string_value enum_value bool_value invalid_if candidate_id canonical_fields
    backend_shape insert_field with_prefix candidate_reasons is_local_http_url list_value
    object_value text_items texts texts_value
staging_run = refl

stage_outcome_example :
    NotStaged observed_database (
      stage_unknown_candidate sample_sha sample_urls sample_clock unknown_observed
        observed_database)
    ⊎ Staged sample_sha sample_urls unknown_observed observed_database (
        stage_unknown_candidate sample_sha sample_urls sample_clock unknown_observed
          observed_database)
stage_outcome_example =
    stage_outcome sample_sha sample_urls sample_clock unknown_observed observed_database
