-- ===== src/Planning/Frame.antt =====
-- What a dry run leaves alone.
use mcp_multiplex.Prelude.{
  String, Bool, true, false, List, [], ◌∷◌, ◌≡◌, inl, inr, refl, arith, ◌==◌, Bool-cases,
}
use mathlib.Core.Path.{subst}
use mcp_multiplex.Exec.{
  ok, bind_elim, ok-injective, act_moves, transaction_moves, Action, reads, lift, Sha256, Clock,
}
use mcp_multiplex.Security.{Urls}
use mcp_multiplex.Schemas.Observed.{ObservedEntry}
use mcp_multiplex.Schemas.Plan.{RemediationPlan}
use mcp_multiplex.Storage.{Database}
use mcp_multiplex.Audit.{EventArgs, append}
use mcp_multiplex.Audit.Chain.{append-keeps}
use mcp_multiplex.Catalog.Matching.{match_observed_entry_from_store}
use mcp_multiplex.Catalog.Candidates.{stage_unknown_candidate}
use mcp_multiplex.Catalog.Staged.{stage_outcome}
use mcp_multiplex.ConfigAudit.{
  RunArgs, put_observed, put_each, upsert_many, drift_events, ingestion_events,
  ingest_observed_entries,
}
use mcp_multiplex.ConfigAudit.Classify.{
  ClassifiedObservedEntry, classify_observed_entries, validated_health,
  health_payload_for_classifications, has_drift,
}
use mcp_multiplex.Planning.{Differ}
use mcp_multiplex.Planning.Entries.{is_high, plan_for_classified_entry, plan_each}
use mcp_multiplex.Planning.Groups.{control_plane_outcomes}
use mcp_multiplex.Planning.Run.{planning_events, plan_self_healing_dry_run}

-- All tables but those of observed entries, candidates and events are as they were.
pub record Observes (before after : Database) : Type 0 where
  pub frame : after ≡ record before {
    observed_entries = after.observed_entries;
    catalog_candidates = after.catalog_candidates;
    events = after.events;
  }

pub Observes-self : (db : Database) → Observes db db
Observes-self db = record { frame = refl }

pub Observes-trans : (a b c : Database) → Observes a b → Observes b c → Observes a c
Observes-trans a b c first second =
    let f = first.frame in let g = second.frame in record { frame = ground arith }

append-Observes :
    (h : Sha256) (k : Clock) (e : EventArgs) (db : Database) → Observes db (append h k e db).1
append-Observes h k e db = record { frame = ground (arith, append-keeps h k e db) }

stage-Observes :
    (h : Sha256) (u : Urls) (k : Clock) (o : ObservedEntry) (db : Database)
    → Observes db (stage_unknown_candidate h u k o db).1
stage-Observes h u k o db = elim (stage_outcome h u k o db) [
  | inl nothing ↦ rw nothing.0 (Observes-self db)
  | inr staged ↦ record { frame = rw staged.1.frame }
]

put_observed-Observes :
    (k : Clock) (e : ObservedEntry) (db after : Database)
    → put_observed k e db ≡ ok after
    → Observes db after
unfolding put_observed
put_observed-Observes k e db after put = record { frame = ground arith }

put_each-Observes :
    (k : Clock) (entries : List ObservedEntry) (db : Database) (r : Unit {0} × Database)
    → put_each k entries db ≡ ok r
    → Observes db r.1
unfolding put_each
put_each-Observes k [] db r put =
    subst (λ (x : Unit {0} × Database). Observes db x.1) (ok-injective _ r put) (Observes-self db)
put_each-Observes k (e ∷ entries) db r put =
    bind_elim (put_observed k e db) (put_each k entries) r put λ next first rest.
      Observes-trans db next r.1 (put_observed-Observes k e db next first)
        (put_each-Observes k entries next r rest)

upsert-Observes :
    (k : Clock) (entries : List ObservedEntry) (db : Database)
    → Observes db (upsert_many k entries db).1
unfolding upsert_many
upsert-Observes k entries db =
    transaction_moves Observes (put_each k entries) db (Observes-self db)
      (put_each-Observes k entries db)

drift-Observes :
    (h : Sha256) (k : Clock) (a : RunArgs) (run : String) (items : List ClassifiedObservedEntry)
    (db : Database)
    → Observes db (drift_events h k a run items db).1
unfolding drift_events
drift-Observes h k a run items db = elim (Bool-cases (has_drift items)) [
  | inl drift ↦
      rw (drift, drift_events)
        (act_moves Observes Observes-trans (append h k _) db _ (append-Observes h k _ db)
          λ e _. Observes-self _)
  | inr calm ↦ rw (calm, drift_events) (Observes-self db)
]

ingestion_events-Observes :
    (h : Sha256) (k : Clock) (a : RunArgs) (entries : List ObservedEntry)
    (items : List ClassifiedObservedEntry) (db : Database)
    → Observes db (ingestion_events h k a entries items db).1
unfolding ingestion_events
ingestion_events-Observes h k a entries items db = elim (Bool-cases a.emit_events) [
  | inl asked ↦
      rw (asked, ingestion_events)
        (act_moves Observes Observes-trans (append h k _) db _ (append-Observes h k _ db) λ e _.
          act_moves Observes Observes-trans (drift_events h k a _ items) (append h k _ db).1 _
            (drift-Observes h k a _ items _) λ r _. Observes-self _)
  | inr silent ↦ rw (silent, ingestion_events) (Observes-self db)
]

pub ingest-Observes :
    (h : Sha256) (k : Clock) (a : RunArgs) (entries : List ObservedEntry) (db : Database)
    → Observes db (ingest_observed_entries h k a entries db).1
unfolding ingest_observed_entries
ingest-Observes h k a entries db =
    act_moves Observes Observes-trans (upsert_many k entries) db _ (upsert-Observes k entries db)
      λ t _.
        act_moves Observes Observes-trans
          (lift (
            validated_health
              (health_payload_for_classifications entries (classify_observed_entries entries))))
          _ _ (Observes-self _)
          λ p _.
            act_moves Observes Observes-trans
              (ingestion_events h k a entries (classify_observed_entries entries)) _ _
              (ingestion_events-Observes h k a entries _ _) λ r _. Observes-self _

planning_events-Observes :
    (h : Sha256) (k : Clock) (a : RunArgs) (run : String) (plans : List RemediationPlan)
    (db : Database)
    → Observes db (planning_events h k a run plans db).1
unfolding planning_events
planning_events-Observes h k a run [] db = Observes-self db
planning_events-Observes h k a run (p ∷ plans) db = elim (Bool-cases a.emit_events) [
  | inl asked ↦
      rw (asked, planning_events)
        (act_moves Observes Observes-trans (append h k _) db _ (append-Observes h k _ db)
          λ e _. Observes-self _)
  | inr silent ↦ rw (silent, planning_events) (Observes-self db)
]

-- Of two calls, the one that runs.
either :
    {A : Type 0} (b : Bool) (m n : Action Database A) (db : Database)
    → Observes db (m db).1
    → Observes db (n db).1
    → Observes db ((elim b as (λ _. Action Database A) [ true ↦ m | false ↦ n ]) db).1
either true m n db first second = first
either false m n db first second = second

pub plan_entry-Observes :
    (h : Sha256) (u : Urls) (d : Differ) (k : Clock) (o : ObservedEntry)
    (classification at : String) (db : Database)
    → Observes db (plan_for_classified_entry h u d k o classification at db).1
unfolding plan_for_classified_entry
plan_entry-Observes h u d k o classification at db =
    act_moves Observes Observes-trans (reads (match_observed_entry_from_store h u o)) db _
      (Observes-self db)
      λ m _. either (classification == "compliant_hub_routed") _ _ db (Observes-self db) (
        either (classification == "unsupported_entry") _ _ db (Observes-self db) (
          either (is_high m) _ _ db (Observes-self db) (
            act_moves Observes Observes-trans (stage_unknown_candidate h u k o) db _
              (stage-Observes h u k o db) λ s _. Observes-self _)))

plan_each-Observes :
    (h : Sha256) (u : Urls) (d : Differ) (k : Clock) (at : String)
    (items : List ClassifiedObservedEntry) (db : Database)
    → Observes db (plan_each h u d k at items db).1
unfolding plan_each
plan_each-Observes h u d k at [] db = Observes-self db
plan_each-Observes h u d k at (i ∷ items) db =
    act_moves Observes Observes-trans
      (plan_for_classified_entry h u d k i.observed_entry i.classification at) db _
      (plan_entry-Observes h u d k i.observed_entry i.classification at db)
      λ o _.
        act_moves Observes Observes-trans (plan_each h u d k at items) _ _
          (plan_each-Observes h u d k at items _) λ rest _. Observes-self _

-- A dry run, whether it returns or raises, changes no table but those of the observed entries, the
-- catalog candidates and the events: no plan, approval, backup, catalog entry, session or token.
pub dry_run-Observes :
    (h : Sha256) (u : Urls) (d : Differ) (k : Clock) (a : RunArgs) (include : Bool)
    (entries : List ObservedEntry) (db : Database)
    → Observes db (plan_self_healing_dry_run h u d k a include entries db).1
unfolding plan_self_healing_dry_run
dry_run-Observes h u d k a include entries db =
    act_moves Observes Observes-trans (ingest_observed_entries h k _ entries) db _
      (ingest-Observes h k _ entries db)
      λ r _.
        act_moves Observes Observes-trans (plan_each h u d k _ r.classifications) _ _
          (plan_each-Observes h u d k _ r.classifications _)
          λ known _.
            act_moves Observes Observes-trans
              (lift (control_plane_outcomes h d include _ r.observed_entries)) _ _ (Observes-self _)
              λ missing _.
                act_moves Observes Observes-trans (planning_events h k a _ _) _ _
                  (planning_events-Observes h k a _ _ _) λ ev _. Observes-self _
