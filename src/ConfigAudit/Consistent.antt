-- ===== src/ConfigAudit/Consistent.antt =====
-- The health payload of a run passes the validator of its schema.
use mcp_multiplex.Prelude.{
  ℕ, String, Bool, true, false, not, List, [], ◌∷◌, some, map, ◌≡◌, inl, inr, refl, arith, truthy,
  ◌<>◌, if◌then◌else◌, ◌==◌, eqb, All, Bool-cases, Option-cases, apart, eq_iff,
}
use mathlib.Core.Path.{subst}
use mathlib.Core.Option.{some-injective}
use text.Mathlib.TextLemmas.{append-ne-nil_of_right_ne-nil}
use mcp_multiplex.Exec.{ok}
use mcp_multiplex.Schemas.Observed.{ObservedEntry}
use mcp_multiplex.Schemas.Health.{HealthIssue}
use mcp_multiplex.Health.{empty_summary}
use mcp_multiplex.Health.RoundTrip.{IsIssue, payload-dict}
use mcp_multiplex.ConfigAudit.Classify.{
  ClassifiedObservedEntry, issue_of, classified, is_hub_routed, has_severity,
  sorted_observed_entries, classify_observed_entry, classify_observed_entries, issues,
  health_payload_for_classifications, validated_health,
}

truthy-append : (s t : String) → truthy t ≡ true → truthy (s <> t) ≡ true
truthy-append s t h = elim (Bool-cases (s <> t == "")) [
  | inl empty ↦
      absurd
        (append-ne-nil_of_right_ne-nil s (apart t "" (ground arith)) ((eq_iff (s <> t) "").0 empty))
  | inr long ↦ rw long
]

truthy-named : (name t : String) → truthy t ≡ true → truthy (name <> " entry " <> t) ≡ true
truthy-named name t h = truthy-append name (" entry " <> t) (truthy-append " entry " t h)

issue_of-IsIssue :
    (e : ObservedEntry) (code detail : String)
    → truthy code ≡ true
    → truthy detail ≡ true
    → IsIssue (issue_of e code detail)
issue_of-IsIssue e code detail c d = record { area = refl; area_known = refl; code = c; detail = d }

-- An item's issue, where it has one.
abbrev HasIssue : ClassifiedObservedEntry → Type 0
HasIssue i = (x : HealthIssue) → i.issue ≡ some x → IsIssue x

issues-IsIssue :
    (s : String) (items : List ClassifiedObservedEntry)
    → All HasIssue items
    → All IsIssue (issues s items)
unfolding issues
issues-IsIssue s [] all = tt
issues-IsIssue s (i ∷ items) all = elim (Option-cases i.issue) [
  | inl none_there ↦ rw none_there (issues-IsIssue s items all.1)
  | inr (x, there) ↦ elim (Bool-cases (has_severity s i)) [
    | inl counted ↦ rw (there, counted) (all.0 x there, issues-IsIssue s items all.1)
    | inr other ↦ rw (there, other) (issues-IsIssue s items all.1)
  ]
]

chosen :
    (b : Bool) (i j : ClassifiedObservedEntry)
    → HasIssue i
    → HasIssue j
    → HasIssue (if b then i else j)
chosen true i j first second = first
chosen false i j first second = second

reported :
    (e : ObservedEntry) (classification severity code detail : String)
    → truthy code ≡ true
    → truthy detail ≡ true
    → HasIssue (classified e classification severity (some (issue_of e code detail)))
reported e classification severity code detail c d x eq =
    subst IsIssue (some-injective _ x eq) (issue_of-IsIssue e code detail c d)

classified-HasIssue : (e : ObservedEntry) → HasIssue (classify_observed_entry e)
unfolding classify_observed_entry
classified-HasIssue e =
    let named = λ (last : String) (h : truthy last ≡ true).
      truthy-named e.agent_kind (e.mount_name <> last) (truthy-append e.mount_name last h) in
    chosen (not (e.parser_confidence == "complete")) _ _
      (reported e "unsupported_entry" "warning" _ _ refl (named _ refl))
      (chosen (is_hub_routed e) _ _ (λ x eq. cc eq)
        (chosen (not e.enabled) _ _
          (reported e "disabled_direct_entry" "warning" _ _ refl
            (truthy-append "Disabled " _ (named _ refl)))
          (reported e "active_direct_bypass" "blocker" _ _ refl
            (truthy-append "Active " _ (named _ refl)))))

classify-HasIssue :
    (entries : List ObservedEntry) → All HasIssue (map classify_observed_entry entries)
classify-HasIssue [] = tt
classify-HasIssue (e ∷ entries) = (classified-HasIssue e, classify-HasIssue entries)

eqb_refl : (n : ℕ) → eqb n n ≡ true
eqb_refl n = ground arith

-- The health payload that a run makes of its classifications always passes the validator of its
-- schema, so that no run fails there, and is returned as it was made.
pub health_validated :
    (entries : List ObservedEntry)
    → let p = health_payload_for_classifications entries (classify_observed_entries entries) in
      validated_health p ≡ ok p
unfolding validated_health health_payload_for_classifications classify_observed_entries
    empty_summary
health_validated entries =
    let items = map classify_observed_entry (sorted_observed_entries entries) in
    let all = classify-HasIssue (sorted_observed_entries entries) in
    rw (
      payload-dict (health_payload_for_classifications entries items) (record {
        version = refl;
        blockers = issues-IsIssue "blocker" items all;
        warnings = issues-IsIssue "warning" items all;
        notices = tt;
        count_blockers = eqb_refl _;
        count_warnings = eqb_refl _;
        count_notices = refl;
        no_blockers = ground arith;
      }))
