-- ===== src/Planning/Planned.antt =====
-- Where the plans of a dry run come from.
use mcp_multiplex.Prelude.{
  String, Bool, true, false, not, ◌&&◌, List, [], ◌∷◌, ◌++◌, Option, none, some, ◌≡◌, inl, inr, ap,
  ◌==◌, text_or, All, Any, Bool-cases,
}
use mathlib.Core.Path.{subst}
use mcp_multiplex.Exec.{ok, bind_elim, ok-injective, act_elim, reads, lift, Sha256, Clock}
use mcp_multiplex.Security.{Urls}
use mcp_multiplex.Schemas.Observed.{ObservedEntry}
use mcp_multiplex.Schemas.Catalog.{CatalogEntry}
use mcp_multiplex.Schemas.Candidate.{CatalogCandidate}
use mcp_multiplex.Schemas.Plan.{RemediationPlan}
use mcp_multiplex.Storage.{Database}
use mcp_multiplex.Catalog
use mcp_multiplex.Catalog.Matching.{CatalogMatch, match_observed_entry_from_store}
use mcp_multiplex.Catalog.Candidates.{CandidateStageResult, stage_unknown_candidate}
use mcp_multiplex.ConfigAudit.{RunArgs, ingest_observed_entries}
use mcp_multiplex.ConfigAudit.Classify.{ClassifiedObservedEntry}
use mcp_multiplex.Planning.{Differ}
use mcp_multiplex.Planning.Kinds.{
  is_routed, generate_known_direct_rewrite_plan, generate_unknown_import_plan,
  generate_unsafe_local_http_plan, generate_missing_control_plane_plan,
}
use mcp_multiplex.Planning.Entries.{
  PlanningOutcome, is_high, plan_unsupported, plan_known, plan_candidate, plan_for_classified_entry,
  plan_each, plans_of,
}
use mcp_multiplex.Planning.Groups.{
  plan_control_plane, plan_groups, plan_run_id, control_plane_outcomes,
}
use mcp_multiplex.Planning.Run.{SelfHealingDryRunResult, plan_self_healing_dry_run, planning_events}
use mcp_multiplex.Planning.Frame.{Observes, Observes-trans, ingest-Observes, plan_entry-Observes}
use mcp_multiplex.Planning.Matched.{IsMatched, observed-IsMatched}
use mcp_multiplex.Planning.Ingested.{IsOf, ingested-IsOf}
use mcp_multiplex.Planning.Gated.{
  IsPlanned, rewrite-IsPlanned, import-IsPlanned, local_http-IsPlanned, control_plane-IsPlanned,
}

module _ (h : Sha256) (u : Urls) (d : Differ) (seen : List ObservedEntry) (start : Database) where
  -- An observed entry, a catalog entry and a match of the database before the dry run
  abbrev From : ObservedEntry → CatalogEntry → CatalogMatch → Type 0
  From o e m = IsMatched h u seen start o e m

  abbrev MayPlan : Option RemediationPlan → Type 0
  MayPlan none = Unit {0}
  MayPlan (some p) = IsPlanned h u From p

  -- The outcome's plan, if it has one, is planned.
  abbrev Accounts : PlanningOutcome → Type 0
  Accounts x = MayPlan x.plan

  accounts : (x y : PlanningOutcome) → ok x ≡ ok y → Accounts x → Accounts y
  accounts x y e a = subst Accounts (ok-injective x y e) a

  plan_unsupported-Accounts :
      (o : ObservedEntry) (m : CatalogMatch) (db : Database) (x : PlanningOutcome)
      → plan_unsupported u o m db ≡ ok x
      → Accounts x
  unfolding plan_unsupported
  plan_unsupported-Accounts o m db x e = elim (Bool-cases (is_high m && m.routable)) [
    | inr unknown ↦ accounts _ x (rw unknown at e) tt
    | inl known ↦
        bind_elim (Catalog.show u (text_or m.catalog_id "") db) _ x (rw known at e) λ entry shown e.
          elim (Bool-cases (is_routed o entry)) [
            | inl routed ↦ accounts _ x (rw routed at e) tt
            | inr apart ↦ accounts _ x (rw apart at e) tt
          ]
  ]

  plan_known-Accounts :
      (o : ObservedEntry) (classification t : String) (m : CatalogMatch) (db : Database)
      (x : PlanningOutcome)
      → ((e : CatalogEntry) → Catalog.show u (text_or m.catalog_id "") db ≡ ok e → From o e m)
      → plan_known h u d o classification t m db ≡ ok x
      → Accounts x
  unfolding plan_known
  plan_known-Accounts o classification t m db x from e = elim (Bool-cases (not m.routable)) [
    | inl blocked ↦ accounts _ x (rw blocked at e) tt
    | inr routable ↦
        bind_elim (Catalog.show u (text_or m.catalog_id "") db) _ x (rw routable at e)
          λ entry shown e. elim (Bool-cases (is_routed o entry)) [
            | inl routed ↦ accounts _ x (rw routed at e) tt
            | inr apart ↦
                bind_elim (generate_known_direct_rewrite_plan h d o entry m t) _ x (rw apart at e)
                  λ p made e.
                    accounts _ x e
                      (rewrite-IsPlanned h u d From o entry m t p (from entry shown) made)
          ]
  ]

  plan_candidate-Accounts :
      (o : ObservedEntry) (classification t : String) (m : CatalogMatch)
      (stage : CandidateStageResult) (c : Option CatalogCandidate) (x : PlanningOutcome)
      → plan_candidate h u d o classification t m stage c ≡ ok x
      → Accounts x
  unfolding plan_candidate
  plan_candidate-Accounts o classification t m stage none x e = accounts _ x e tt
  plan_candidate-Accounts o classification t m stage (some c) x e =
      elim (Bool-cases (c.classification == "unknown_local_http")) [
        | inl near ↦
            bind_elim (generate_unsafe_local_http_plan h u d o c t) _ x (rw near at e)
              λ p made e. accounts _ x e (local_http-IsPlanned h u d From o c t p made)
        | inr remote ↦
            bind_elim (generate_unknown_import_plan h u d o c t) _ x (rw remote at e)
              λ p made e. accounts _ x e (import-IsPlanned h u d From o c t p made)
      ]

  plan_for-Accounts :
      (k : Clock) (o : ObservedEntry) (classification t : String) (x : PlanningOutcome)
      (db after : Database)
      → Observes start db
      → Any (λ s. s ≡ o) seen
      → plan_for_classified_entry h u d k o classification t db ≡ (ok x, after)
      → Accounts x
  unfolding plan_for_classified_entry
  plan_for-Accounts k o classification t x db after kept is e =
      act_elim (reads (match_observed_entry_from_store h u o)) db _ x after e λ m matched e.
        elim (Bool-cases (classification == "compliant_hub_routed")) [
          | inl hub ↦ accounts _ x (ap (λ r. r.0) (rw hub at e)) tt
          | inr direct ↦ elim (Bool-cases (classification == "unsupported_entry")) [
            | inl unsupported ↦
                plan_unsupported-Accounts o m db x (ap (λ r. r.0) (rw (direct, unsupported) at e))
            | inr understood ↦ elim (Bool-cases (is_high m)) [
              | inl high ↦
                  plan_known-Accounts o classification t m db x
                    (λ entry shown.
                      observed-IsMatched h u seen start o entry m db kept is (ap (λ r. r.0) matched)
                        shown)
                    (ap (λ r. r.0) (rw (direct, understood, high) at e))
              | inr low ↦
                  act_elim (stage_unknown_candidate h u k o) db _ x after
                    (rw (direct, understood, low) at e)
                    λ stage _ e.
                      plan_candidate-Accounts o classification t m stage stage.candidate x
                        (ap (λ r. r.0) e)
            ]
          ]
        ]

  plan_each-Accounts :
      (k : Clock) (t : String) (items : List ClassifiedObservedEntry) (xs : List PlanningOutcome)
      (db after : Database)
      → Observes start db
      → All (IsOf seen) items
      → plan_each h u d k t items db ≡ (ok xs, after)
      → All Accounts xs
  unfolding plan_each
  plan_each-Accounts k t [] xs db after kept is e =
      subst (All Accounts) (ok-injective [] xs (ap (λ r. r.0) e)) tt
  plan_each-Accounts k t (i ∷ items) xs db after kept is e =
      let first = plan_for_classified_entry h u d k i.observed_entry i.classification t in
      act_elim first db _ xs after e λ x planned e.
        act_elim (plan_each h u d k t items) (first db).1 _ xs after e λ rest others e.
          subst (All Accounts) (ok-injective (x ∷ rest) xs (ap (λ r. r.0) e)) (
            plan_for-Accounts k i.observed_entry i.classification t x db _ kept is.0 planned,
            plan_each-Accounts k t items rest _ _
                (Observes-trans start db _ kept
                  (plan_entry-Observes h u d k i.observed_entry i.classification t db))
                is.1 others,
          )

  plan_groups-Accounts :
      (t : String) (entries groups : List ObservedEntry) (xs : List PlanningOutcome)
      → plan_groups h d t entries groups ≡ ok xs
      → All Accounts xs
  unfolding plan_groups plan_control_plane
  plan_groups-Accounts t entries [] xs e = subst (All Accounts) (ok-injective [] xs e) tt
  plan_groups-Accounts t entries (g ∷ groups) xs e =
      bind_elim (plan_control_plane h d t entries g) _ xs e λ x planned e.
        bind_elim (plan_groups h d t entries groups) _ xs e λ rest others e.
          bind_elim (generate_missing_control_plane_plan h d g.agent_id g.config_path _ t) _ x
            planned
            λ p made planned. subst (All Accounts) (ok-injective (x ∷ rest) xs e) (
              accounts _ x planned
                  (control_plane-IsPlanned h u d From g.agent_id g.config_path _ t p made),
              plan_groups-Accounts t entries groups rest others,
            )

  add_plan :
      (o : Option RemediationPlan) (ps : List RemediationPlan)
      → MayPlan o
      → All (IsPlanned h u From) ps
      → All (IsPlanned h u From) (elim o [ none ↦ ps | some p ↦ p ∷ ps ])
  add_plan none ps m a = a
  add_plan (some p) ps m a = (m, a)

  plans-IsPlanned :
      (xs : List PlanningOutcome) → All Accounts xs → All (IsPlanned h u From) (plans_of xs)
  unfolding plans_of
  plans-IsPlanned [] a = tt
  plans-IsPlanned (x ∷ xs) a = add_plan x.plan (plans_of xs) a.0 (plans-IsPlanned xs a.1)

  All-both :
      (xs ys : List PlanningOutcome) → All Accounts xs → All Accounts ys → All Accounts (xs ++ ys)
  All-both [] ys a b = b
  All-both (x ∷ xs) ys a b = (a.0, All-both xs ys a.1 b)

  control_plane-Accounts :
      (include : Bool) (t : String) (entries : List ObservedEntry) (xs : List PlanningOutcome)
      → control_plane_outcomes h d include t entries ≡ ok xs
      → All Accounts xs
  control_plane-Accounts false t entries xs e = subst (All Accounts) (ok-injective [] xs e) tt
  control_plane-Accounts true t entries xs e = plan_groups-Accounts t entries _ xs e

  pub run-IsPlanned :
      (k : Clock) (a : RunArgs) (include : Bool) (r : SelfHealingDryRunResult) (after : Database)
      → plan_self_healing_dry_run h u d k a include seen start ≡ (ok r, after)
      → All (IsPlanned h u From) r.plans
  unfolding plan_self_healing_dry_run
  run-IsPlanned k a include r after e =
      let run = record a { run_id = some (text_or a.run_id (plan_run_id h seen)) } in
      let ingest = ingest_observed_entries h k run seen in
      let t = text_or a.timestamp k.now in
      act_elim ingest start _ r after e λ ingestion ingested e.
        let plan = plan_each h u d k t ingestion.classifications in
        act_elim plan (ingest start).1 _ r after e λ known planned e.
          act_elim (lift (control_plane_outcomes h d include t ingestion.observed_entries))
            (plan (ingest start).1).1 _ r after e
            λ missing control e.
              act_elim
                (planning_events h k a (text_or a.run_id (plan_run_id h seen))
                  (plans_of (known ++ missing)))
                (plan (ingest start).1).1 _ r after e
                λ events _ e.
                  subst (λ (x : SelfHealingDryRunResult). All (IsPlanned h u From) x.plans)
                    (ok-injective _ r (ap (λ o. o.0) e))
                    (plans-IsPlanned (known ++ missing) (
                      All-both known missing
                        (plan_each-Accounts k t ingestion.classifications known _ _
                          (ingest-Observes h k run seen start)
                          (ingested-IsOf h k run seen start _ ingestion ingested) planned)
                        (control_plane-Accounts include t ingestion.observed_entries missing
                          (ap (λ o. o.0) control))))
