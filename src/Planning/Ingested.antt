-- ===== src/Planning/Ingested.antt =====
-- What `ingest_observed_entries` hands to the planner.
use mathlib.Core.Path.{subst}
use mcp_multiplex.Prelude.{
  List, [], ◌∷◌, ◌≡◌, inl, inr, refl, sym, ap, arith, All, Any, All-map, All-sort_by, map,
}
use mcp_multiplex.Exec.{ok, ok-injective, act_elim, lift, Sha256, Clock}
use mcp_multiplex.Schemas.Observed.{ObservedEntry}
use mcp_multiplex.Storage.{Database}
use mcp_multiplex.ConfigAudit.{
  RunArgs, IngestionResult, upsert_many, ingestion_events, ingest_observed_entries,
}
use mcp_multiplex.ConfigAudit.Classify.{
  ClassifiedObservedEntry, classify_observed_entry, classify_observed_entries,
  sorted_observed_entries, entry_order, validated_health, health_payload_for_classifications,
}

-- A classified entry is one of the observed ones.
abbrev pub IsOf : List ObservedEntry → ClassifiedObservedEntry → Type 0
IsOf entries i = Any (λ s. s ≡ i.observed_entry) entries

classify-entry : (e : ObservedEntry) → (classify_observed_entry e).observed_entry ≡ e
unfolding classify_observed_entry
classify-entry e = ground arith

All-self : (entries : List ObservedEntry) → All (λ e. Any (λ s. s ≡ e) entries) entries
All-self [] = tt
All-self (e ∷ entries) = (
  inl refl,
  All-map (λ x. Any (λ s. s ≡ x) entries) _ entries (λ x there. inr there) (All-self entries),
)

All-classified :
    (entries items : List ObservedEntry)
    → All (λ e. Any (λ s. s ≡ e) entries) items
    → All (IsOf entries) (map classify_observed_entry items)
All-classified entries [] a = tt
All-classified entries (e ∷ items) a = (
  subst (λ x. Any (λ s. s ≡ x) entries) (sym (classify-entry e)) a.0,
  All-classified entries items a.1,
)

classified-IsOf :
    (entries : List ObservedEntry) → All (IsOf entries) (classify_observed_entries entries)
unfolding classify_observed_entries sorted_observed_entries
classified-IsOf entries =
    All-classified entries _
      (All-sort_by (λ e. Any (λ s. s ≡ e) entries) entry_order entries (All-self entries))

pub ingested-IsOf :
    (h : Sha256) (k : Clock) (a : RunArgs) (entries : List ObservedEntry) (db after : Database)
    (r : IngestionResult)
    → ingest_observed_entries h k a entries db ≡ (ok r, after)
    → All (IsOf entries) r.classifications
unfolding ingest_observed_entries
ingested-IsOf h k a entries db after r e =
    let items = classify_observed_entries entries in
    act_elim (upsert_many k entries) db _ r after e λ t stored e.
      act_elim (lift (validated_health (health_payload_for_classifications entries items)))
        (upsert_many k entries db).1 _ r after e
        λ health valid e.
          act_elim (ingestion_events h k a entries items) (upsert_many k entries db).1 _ r after e
            λ events told e.
              subst (λ (x : IngestionResult). All (IsOf entries) x.classifications)
                (ok-injective _ r (ap (λ o. o.0) e)) (classified-IsOf entries)
