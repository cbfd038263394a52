-- ===== src/Planning/Kinds.antt =====
-- planning/__init__.py: the four kinds of plans.
use mcp_multiplex.Prelude.{
  String, Bool, true, not, ◌&&◌, [], ◌∷◌, ◌++◌, none, some, map, if◌then◌else◌, ◌==◌, ◌<>◌, opt_eq,
  starts_with,
}
use mcp_multiplex.Json.{Fields, null, boolean, text, array, object, field, end}
use mcp_multiplex.Exec.{Result, check, refuse_if, planning_error, Sha256}
use mcp_multiplex.Security.{Urls}
use mcp_multiplex.Schemas.{text_items}
use mcp_multiplex.Schemas.Observed.{ObservedEntry}
use mcp_multiplex.Schemas.Catalog.{CatalogEntry}
use mcp_multiplex.Schemas.Candidate.{CatalogCandidate, to_dict}
use mcp_multiplex.Schemas.Plan.{RemediationPlan}
use mcp_multiplex.Catalog.Matching.{CatalogMatch}
use mcp_multiplex.Planning.{
  hub_base_url, control_plane_catalog_id, Differ, gated, BuildArgs, build_plan, projection,
  observed_projection,
}
use mcp_multiplex.Planning.Names.{future_catalog_id, synthetic_observed_id}

-- `_hub_url`
abbrev pub hub_url : CatalogEntry → String
hub_url e = hub_base_url <> e.transport.hub_path

-- The entry is a URL of the hub, and that of the catalog entry.
abbrev pub is_routed : ObservedEntry → CatalogEntry → Bool
is_routed o e = o.transport == "streamable_http" && opt_eq o.url (some (hub_url e))

-- `after` of a rewrite
unfoldable pub rewritten : ObservedEntry → CatalogEntry → Fields
rewritten o e = projection o "streamable_http" none [] (some (hub_url e))

unfoldable pub rewrite_args : ObservedEntry → CatalogEntry → CatalogMatch → String → BuildArgs
rewrite_args o e m created_at = record {
  plan_type = "rewrite_known_direct";
  agent_id = o.agent_id;
  target_path = o.config_path;
  observed_entry_id = o.observed_entry_id;
  catalog_id = e.catalog_id;
  expected_preimage_hash = o.entry_hash;
  before = observed_projection o;
  after = rewritten o e;
  policy = gated "dry_run_review_required" (
      "known_direct_backend_match"
      ∷ ("match_confidence:" <> m.confidence)
      ∷ map (λ (r : String). "match_reason:" <> r) m.reasons);
  tier = e.risk_tier;
  risk_reasons = [];
  verification = "parse_config_and_confirm_hub_routed_entry";
  rollback = "restore_backup_before_apply";
  created_at = created_at;
}

unfoldable pub generate_known_direct_rewrite_plan :
    Sha256 → Differ → ObservedEntry → CatalogEntry → CatalogMatch → String → Result RemediationPlan
generate_known_direct_rewrite_plan h d o e m created_at =
    check
      (refuse_if (is_routed o e)
        (planning_error "observed entry is already routed through the Hub"))
      (check
        (refuse_if (not (opt_eq m.catalog_id (some e.catalog_id)))
          (planning_error "catalog match does not identify the supplied catalog entry"))
        (check
          (refuse_if (not (m.confidence == "high"))
            (planning_error "known direct rewrite requires high catalog match confidence"))
          (check
            (refuse_if (not m.routable)
              (planning_error "known direct rewrite requires a routable catalog entry"))
            (build_plan h d (rewrite_args o e m created_at)))))

-- `_require_candidate_for_observed_entry`
abbrev require_candidate_for : ObservedEntry → CatalogCandidate → Result (Unit {0})
require_candidate_for o c =
    refuse_if (not (c.observed_entry_id == o.observed_entry_id))
      (planning_error "candidate does not belong to the observed entry")

unfoldable pub import_after : Sha256 → Urls → CatalogCandidate → Fields
import_after h u c = field "catalog_candidate" (object (to_dict c)) (
    field "catalog_entry"
      (object (
        field "catalog_id" (text (future_catalog_id h u c)) (
          field "name" (text c.proposed_name) (
            field "review_state" (text "pending") (
              field "lifecycle_state" (text "disabled")
                (field "source_candidate_id" (text c.candidate_id) end))))))
      end)

unfoldable pub import_args : Sha256 → Urls → ObservedEntry → CatalogCandidate → String → BuildArgs
import_args h u o c created_at = record {
  plan_type = "import_unknown_candidate";
  agent_id = o.agent_id;
  target_path = o.config_path;
  observed_entry_id = o.observed_entry_id;
  catalog_id = future_catalog_id h u c;
  expected_preimage_hash = o.entry_hash;
  before = observed_projection o;
  after = import_after h u c;
  policy =
      gated "unknown_candidate_review_required"
        (c.reasons ++ ("classification:" <> c.classification) ∷ []);
  tier = c.risk_tier;
  risk_reasons = c.reasons;
  verification = "operator_reviews_candidate_before_catalog_import";
  rollback = "delete_pending_candidate_before_apply";
  created_at = created_at;
}

unfoldable pub generate_unknown_import_plan :
    Sha256 → Urls → Differ → ObservedEntry → CatalogCandidate → String → Result RemediationPlan
generate_unknown_import_plan h u d o c created_at = check (require_candidate_for o c) (
    check
      (refuse_if (c.classification == "unknown_local_http")
        (planning_error "unknown local HTTP candidates require unsafe local HTTP plans"))
      (build_plan h d (import_args h u o c created_at)))

unfoldable pub local_http_args :
    Sha256 → Urls → ObservedEntry → CatalogCandidate → String → BuildArgs
local_http_args h u o c created_at = record {
  plan_type = "unsafe_local_http_detected";
  agent_id = o.agent_id;
  target_path = o.config_path;
  observed_entry_id = o.observed_entry_id;
  catalog_id = future_catalog_id h u c;
  expected_preimage_hash = o.entry_hash;
  before = observed_projection o;
  after =
      field "catalog_candidate" (object (to_dict c))
        (field "required_action" (text "review_local_http_endpoint_before_import_or_route") end);
  policy =
      gated "unsafe_local_http_candidate"
        (c.reasons ++ "loopback_http_endpoint_cannot_be_auto_trusted" ∷ []);
  tier = "high";
  risk_reasons = c.reasons ++ "local_endpoint_may_be_unmanaged_process" ∷ [];
  verification = "operator_confirms_process_owner_before_any_route";
  rollback = "no_config_mutation_performed";
  created_at = created_at;
}

unfoldable pub generate_unsafe_local_http_plan :
    Sha256 → Urls → Differ → ObservedEntry → CatalogCandidate → String → Result RemediationPlan
generate_unsafe_local_http_plan h u d o c created_at = check (require_candidate_for o c) (
    check
      (refuse_if (not (c.classification == "unknown_local_http"))
        (planning_error "unsafe local HTTP plan requires an unknown_local_http candidate"))
      (build_plan h d (local_http_args h u o c created_at)))

-- `_control_plane_auth_contract`
unfoldable pub control_plane_auth_contract : String → Fields
control_plane_auth_contract agent_id =
    if starts_with agent_id "agent_codex_"
    then field "kind" (text "bearer_token_env_var") (
        field "env_var" (text "MCP_MULTIPLEX_CONTROL_TOKEN")
          (field "token_ref_required" (boolean true) end))
    else field "kind" (text "authorization_header") (
        field "header" (text "Authorization") (
          field "value_source" (text "agent_token_secret_ref")
            (field "token_ref_required" (boolean true) end)))

unfoldable pub control_plane_after : String → Fields
control_plane_after agent_id =
    field "mcp_hub"
      (object (
        field "transport" (text "streamable_http") (
          field "url" (text (hub_base_url <> "/servers/mcp_hub/mcp")) (
            field "role" (text "control_plane") (
              field "auth" (object (control_plane_auth_contract agent_id))
                (field "headers_present" (array (text_items ("Authorization" ∷ []))) end))))))
      end

unfoldable pub control_plane_args :
    Sha256 → (agent_id target_path preimage created_at : String) → BuildArgs
control_plane_args h agent_id target_path preimage created_at = record {
  plan_type = "install_missing_control_plane";
  agent_id = agent_id;
  target_path = target_path;
  observed_entry_id =
      synthetic_observed_id h ("missing_control_plane" ∷ agent_id ∷ target_path ∷ preimage ∷ []);
  catalog_id = control_plane_catalog_id;
  expected_preimage_hash = preimage;
  before = field "mcp_hub" null end;
  after = control_plane_after agent_id;
  policy =
      gated "missing_control_plane_review_required"
        ("mcp_hub_control_plane_missing" ∷ "dry_run_review_required" ∷ []);
  tier = "normal";
  risk_reasons = "control_plane_entry_absent" ∷ "control_plane_auth_required" ∷ [];
  verification = "parse_config_and_confirm_authenticated_mcp_hub_entry";
  rollback = "restore_backup_before_apply";
  created_at = created_at;
}

unfoldable pub generate_missing_control_plane_plan :
    Sha256 → Differ → (agent_id target_path preimage created_at : String) → Result RemediationPlan
generate_missing_control_plane_plan h d agent_id target_path preimage created_at =
    build_plan h d (control_plane_args h agent_id target_path preimage created_at)
