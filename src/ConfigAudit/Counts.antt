-- ===== src/ConfigAudit/Counts.antt =====
-- How the counts of a run's health payload add up.
use mcp_multiplex.Prelude.{
  suc, ◌+◌, ◌≤◌, String, Bool, true, not, ◌&&◌, List, [], ◌∷◌, map, ◌≡◌, inl, inr, refl, arith,
  ◌==◌, eqb, ap, ◌∙◌, length, length-sort_by, has_row, has_row-sort_by, select_rows, Bool-cases,
}
use mcp_multiplex.Schemas.Observed.{ObservedEntry}
use mcp_multiplex.Health.{empty_summary}
use mcp_multiplex.ConfigAudit.Classify.{
  ClassifiedObservedEntry, entry_order, is_hub_routed, is_active, sorted_observed_entries,
  count_distinct, agents_of, classify_observed_entry, classify_observed_entries, issues,
  health_payload_for_classifications,
}

-- An entry that is understood, enabled and not routed through the Hub.
unfoldable pub is_bypass : ObservedEntry → Bool
is_bypass e = e.parser_confidence == "complete" && (e.enabled && not (is_hub_routed e))

routed-enabled : (e : ObservedEntry) → is_hub_routed e ≡ true → e.enabled ≡ true
unfolding is_hub_routed
routed-enabled e h = ground arith

abbrev items_of : List ObservedEntry → List ClassifiedObservedEntry
items_of entries = map classify_observed_entry entries

-- Each entry is counted once.
counted :
    (entries : List ObservedEntry)
    → length (issues "blocker" (items_of entries))
        + length (issues "warning" (items_of entries))
        + length (select_rows is_active (items_of entries))
      ≡ length entries
unfolding issues classify_observed_entry
counted [] = refl
counted (e ∷ entries) =
    let rest = counted entries in
    elim (Bool-cases (e.parser_confidence == "complete")) [
      | inr partial ↦ rw partial (ground arith)
      | inl complete ↦ elim (Bool-cases (is_hub_routed e)) [
        | inl routed ↦ rw (complete, routed, routed-enabled e routed) (ground arith)
        | inr direct ↦ elim (Bool-cases e.enabled) [
          | inl enabled ↦ rw (complete, direct, enabled) (ground arith)
          | inr disabled ↦ rw (complete, direct, disabled) (ground arith)
        ]
      ]
    ]

blocked :
    (entries : List ObservedEntry)
    → eqb (length (issues "blocker" (items_of entries))) 0 ≡ not (has_row is_bypass entries)
unfolding issues classify_observed_entry is_bypass
blocked [] = refl
blocked (e ∷ entries) =
    let rest = blocked entries in
    elim (Bool-cases (e.parser_confidence == "complete")) [
      | inr partial ↦ rw partial rest
      | inl complete ↦ elim (Bool-cases (is_hub_routed e)) [
        | inl routed ↦ rw (complete, routed, routed-enabled e routed) rest
        | inr direct ↦ elim (Bool-cases e.enabled) [
          | inl enabled ↦ rw (complete, direct, enabled) (ground arith)
          | inr disabled ↦ rw (complete, direct, disabled) rest
        ]
      ]
    ]

count_distinct-le : (ss : List String) → count_distinct ss ≤ length ss
unfolding count_distinct
count_distinct-le [] = ground arith
count_distinct-le (s ∷ ss) = let rest = count_distinct-le ss in ground arith

length-agents : (entries : List ObservedEntry) → length (agents_of entries) ≡ length entries
length-agents [] = refl
length-agents (e ∷ entries) = ap suc (length-agents entries)

-- In the health payload of a run each observed entry is counted once: the blockers, the warnings and
-- the active servers add up to the number of entries. There are at most as many agents as entries,
-- and the payload is ok just where no entry is understood, enabled and not routed through the Hub.
pub health_counts_entries :
    (entries : List ObservedEntry)
    → let p = health_payload_for_classifications entries (classify_observed_entries entries) in
      (p.summary.blockers + p.summary.warnings + p.summary.active_servers ≡ length entries)
      × (p.summary.agents ≤ length entries)
      × (p.healthy ≡ not (has_row is_bypass entries))
unfolding health_payload_for_classifications classify_observed_entries sorted_observed_entries
    empty_summary
health_counts_entries entries =
    let sorted = sorted_observed_entries entries in
    (
      counted sorted ∙ length-sort_by entry_order entries,
      rw⁻¹ (length-agents entries) (count_distinct-le (agents_of entries)),
      blocked sorted ∙ ap not (has_row-sort_by entry_order is_bypass entries),
    )
