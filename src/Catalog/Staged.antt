-- ===== src/Catalog/Staged.antt =====
-- What staging an unknown entry leaves in the database.
use mcp_multiplex.Prelude.{
  String, true, false, Option, none, some, ◌≡◌, ◌⊎◌, inl, inr, refl, sym, ap, ◌∙◌, arith,
  if◌then◌else◌, has_row, Bool-cases,
}
use mathlib.Core.Path.{subst}
use mathlib.Core.Option.{some-injective}
use mcp_multiplex.Exec.{
  Error, Result, ok, err, Result-cases, bind_elim, ok-injective, Sha256, Clock,
}
use mcp_multiplex.Security.{Urls}
use mcp_multiplex.Schemas.Observed.{ObservedEntry}
use mcp_multiplex.Schemas.Candidate.{CatalogCandidate, from_dict, to_dict}
use mcp_multiplex.Storage.{Database}
use mcp_multiplex.Catalog.Matching.{CatalogMatch, matched, match_observed_entry_from_store}
use mcp_multiplex.Catalog.Candidates.{
  candidate_payload, candidate_classification, read_candidate, candidate_from_observed_entry,
  candidate_id, has_id, show, put_candidate, upsert, stage_result, stage, stage_unknown_candidate,
  CandidateStageResult,
}
use mcp_multiplex.Catalog.Stored.{
  IsCandidateOf, Stages, stored-IsCandidateOf, put_candidate-Stages, read_candidate-IsCandidateOf,
}

-- What `stage` returned, and what it left.
abbrev Staging :
    (h : Sha256) (o : ObservedEntry) (db : Database)
    → Result CandidateStageResult × Database
    → Type 0
Staging h o db (r, after) =
    ((after ≡ db) × ((s : CandidateStageResult) → r ≡ ok s → s.candidate ≡ none))
    ⊎ (Stages h o db after
        × ((s : CandidateStageResult)
            → r ≡ ok s
            → s.status ≡ (
                if has_row (has_id (candidate_id h o)) db.catalog_candidates
                then "existing"
                else "created")))

stage-Staging :
    (h : Sha256) (k : Clock) (o : ObservedEntry) (m : CatalogMatch) (c : CatalogCandidate)
    (db : Database)
    → IsCandidateOf h o c
    → Staging h o db (stage k o m (some c) db)
unfolding stage upsert show put_candidate
stage-Staging h k o m c db i = elim (Result-cases (from_dict (to_dict c))) [
  | inr (e, refused) ↦ rw refused (inl (refl, λ s eq. cc eq))
  | inl (v, validated) ↦
      let staged = put_candidate-Stages h k o v db (stored-IsCandidateOf h o c v i validated) in
      elim (Result-cases (show v.candidate_id (put_candidate k v db))) [
        | inr (e, unread) ↦ rw (validated, unread) (inr (staged, λ s eq. cc eq))
        | inl (read, shown) ↦
            rw (validated, shown)
              (inr (
                staged,
                λ s eq.
                    subst
                      (λ id. s.status ≡ (
                        if has_row (has_id id) db.catalog_candidates
                        then "existing"
                        else "created"))
                      i.id
                      (ap (λ (t : CandidateStageResult). t.status) (sym (ok-injective _ s eq))),
              ))
      ]
]

from_observed-IsCandidateOf :
    (h : Sha256) (u : Urls) (o : ObservedEntry) (c : CatalogCandidate)
    → candidate_from_observed_entry h u o ≡ ok (some c)
    → IsCandidateOf h o c
unfolding candidate_from_observed_entry
from_observed-IsCandidateOf h u o c e =
    bind_elim (candidate_classification u o) (read_candidate h o) (some c) e
      λ classified _ read. from_classified classified read
  where
    from_classified :
        (classified : Option String)
        → read_candidate h o classified ≡ ok (some c)
        → IsCandidateOf h o c
    from_classified none read = cc read
    from_classified (some classification) read =
        bind_elim (from_dict (candidate_payload h o classification)) (λ d. ok (some d)) (some c)
          read
          λ d made same.
            read_candidate-IsCandidateOf h o classification c
              (made ∙ ap ok (some-injective d c (ok-injective (some d) (some c) same)))

module _ (h : Sha256) (u : Urls) (k : Clock) (o : ObservedEntry) (db : Database) where
  unmatched-refused :
      (e : Error)
      → match_observed_entry_from_store h u o db ≡ err e
      → stage_unknown_candidate h u k o db ≡ (err e, db)
  unfolding stage_unknown_candidate
  unmatched-refused e compared = ground arith

  unmatched-known :
      (m : CatalogMatch)
      → match_observed_entry_from_store h u o db ≡ ok m
      → matched m ≡ true
      → stage_unknown_candidate h u k o db ≡ (ok (stage_result "matched_known" o m none), db)
  unfolding stage_unknown_candidate
  unmatched-known m compared known = ground arith

  unmatched-unread :
      (m : CatalogMatch) (e : Error)
      → match_observed_entry_from_store h u o db ≡ ok m
      → matched m ≡ false
      → candidate_from_observed_entry h u o ≡ err e
      → stage_unknown_candidate h u k o db ≡ (err e, db)
  unfolding stage_unknown_candidate
  unmatched-unread m e compared unknown unread = ground arith

  unmatched-staged :
      (m : CatalogMatch) (made : Option CatalogCandidate)
      → match_observed_entry_from_store h u o db ≡ ok m
      → matched m ≡ false
      → candidate_from_observed_entry h u o ≡ ok made
      → stage_unknown_candidate h u k o db ≡ stage k o m made db
  unfolding stage_unknown_candidate
  unmatched-staged m made compared unknown read = ground arith

-- Nothing was stored, and no candidate is named.
abbrev pub NotStaged : Database → Result CandidateStageResult × Database → Type 0
NotStaged db (r, after) =
    (after ≡ db) × ((s : CandidateStageResult) → r ≡ ok s → s.candidate ≡ none)

-- No entry of the catalog matches, and the candidate is stored; the result says whether it was
-- there before.
abbrev pub Staged :
    Sha256 → Urls → ObservedEntry → Database → Result CandidateStageResult × Database → Type 0
Staged h u o db (r, after) =
    ((m : CatalogMatch) × (match_observed_entry_from_store h u o db ≡ ok m) × (matched m ≡ false))
    × Stages h o db after
    × ((s : CandidateStageResult)
        → r ≡ ok s
        → s.status ≡ (
            if has_row (has_id (candidate_id h o)) db.catalog_candidates
            then "existing"
            else "created"))

stage-outcome :
    (h : Sha256) (u : Urls) (k : Clock) (o : ObservedEntry) (db : Database) (m : CatalogMatch)
    (made : Option CatalogCandidate)
    → match_observed_entry_from_store h u o db ≡ ok m
    → matched m ≡ false
    → candidate_from_observed_entry h u o ≡ ok made
    → NotStaged db (stage k o m made db) ⊎ Staged h u o db (stage k o m made db)
stage-outcome h u k o db m none compared unknown read =
    unfold stage in
    inl (refl, λ s eq. ap (λ (t : CandidateStageResult). t.candidate) (sym (ok-injective _ s eq)))
stage-outcome h u k o db m (some c) compared unknown read =
    elim (stage-Staging h k o m c db (from_observed-IsCandidateOf h u o c read)) [
      | inl nothing ↦ inl nothing
      | inr staged ↦ inr ((m, compared, unknown), staged.0, staged.1)
    ]

-- Staging an observed entry either leaves the database as it was and names no candidate, or no
-- entry of the catalog matches, and the entry's candidate is stored: its row is pending and needs an
-- approval, all other candidates and all other tables are as they were, and the result says whether
-- the candidate was there before.
pub stage_outcome :
    (h : Sha256) (u : Urls) (k : Clock) (o : ObservedEntry) (db : Database)
    → NotStaged db (stage_unknown_candidate h u k o db)
      ⊎ Staged h u o db (stage_unknown_candidate h u k o db)
stage_outcome h u k o db = elim (Result-cases (match_observed_entry_from_store h u o db)) [
  | inr (e, refused) ↦ rw (unmatched-refused h u k o db e refused) (inl (refl, λ s eq. cc eq))
  | inl (m, compared) ↦ elim (Bool-cases (matched m)) [
    | inl known ↦ rw (unmatched-known h u k o db m compared known) (
        inl (
          refl,
          λ s eq. ap (λ (t : CandidateStageResult). t.candidate) (sym (ok-injective _ s eq)),
        ))
    | inr unknown ↦ elim (Result-cases (candidate_from_observed_entry h u o)) [
      | inr (e, unread) ↦
          rw (unmatched-unread h u k o db m e compared unknown unread) (inl (refl, λ s eq. cc eq))
      | inl (made, read) ↦
          rw (unmatched-staged h u k o db m made compared unknown read)
            (stage-outcome h u k o db m made compared unknown read)
    ]
  ]
]
