-- ===== src/ConfigAudit/Tests.antt =====
-- The health of two observed entries that bypass the Hub.
use mcp_multiplex.Prelude.{◌+◌, ◌≤◌, [], ◌∷◌, List, ◌≡◌, refl, not, length, has_row}
use mcp_multiplex.Exec.{ok}
use mcp_multiplex.Samples.{sample_observed, unknown_observed}
use mcp_multiplex.Schemas.Observed.{ObservedEntry}
use mcp_multiplex.ConfigAudit.Classify.{
  classify_observed_entries, health_payload_for_classifications, validated_health,
  classify_observed_entry, issues, is_hub_routed, sorted_observed_entries,
}
use mcp_multiplex.ConfigAudit.Consistent.{health_validated}
use mcp_multiplex.ConfigAudit.Counts.{is_bypass, health_counts_entries}

abbrev two_entries : List ObservedEntry
two_entries = sample_observed ∷ unknown_observed ∷ []

health_validated_example :
    let p =
      health_payload_for_classifications two_entries (classify_observed_entries two_entries) in
    validated_health p ≡ ok p
health_validated_example = health_validated two_entries

health_counts_entries_example :
    let p =
      health_payload_for_classifications two_entries (classify_observed_entries two_entries) in
    (p.summary.blockers + p.summary.warnings + p.summary.active_servers ≡ length two_entries)
    × (p.summary.agents ≤ length two_entries)
    × (p.healthy ≡ not (has_row is_bypass two_entries))
health_counts_entries_example = health_counts_entries two_entries

blocker_run :
    (health_payload_for_classifications two_entries
      (classify_observed_entries two_entries)).summary.blockers
    ≡ 2
unfolding health_payload_for_classifications issues classify_observed_entries
    sorted_observed_entries classify_observed_entry is_hub_routed
blocker_run = refl
