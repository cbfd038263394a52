-- ===== src/Catalog/Stored.antt =====
-- What storing the candidate of an observed entry leaves in the table of candidates.
use mcp_multiplex.Prelude.{
  String, Bool, true, false, Option, some, ◌≡◌, inl, inr, refl, sym, ◌∙◌, ◌==◌, eq_iff, has_row,
  find_row, Bool-cases, find_row-append, find_row-append_other, find_row-update_other,
  find_row-update_self, has_row-find,
}
use mathlib.Core.Path.{subst}
use mcp_multiplex.Json.{boolean}
use mcp_multiplex.Exec.{ok, ok-injective, Sha256, Clock}
use mcp_multiplex.Schemas.{bool_value}
use mcp_multiplex.Schemas.Values.{enum-eq, id-eq}
use mcp_multiplex.Schemas.Observed.{ObservedEntry}
use mcp_multiplex.Schemas.Candidate.{CatalogCandidate, from_dict, to_dict}
use mcp_multiplex.Schemas.Reads.{candidate-reads}
use mcp_multiplex.Storage.{Database, CandidateRow}
use mcp_multiplex.Catalog.Candidates.{
  candidate_payload, candidate_id, has_id, candidate_row, refreshed, put_candidate,
}

-- A candidate that waits for an operator: it is pending, and it needs an approval.
pub record IsPending (c : CatalogCandidate) : Type 0 where
  pub review : c.review_state ≡ "pending"
  pub gated : c.approval_required ≡ true

-- The candidate of an observed entry.
pub record IsCandidateOf (h : Sha256) (o : ObservedEntry) (c : CatalogCandidate) : Type 0 where
  pub id : c.candidate_id ≡ candidate_id h o
  pub observed : c.observed_entry_id ≡ o.observed_entry_id
  pub pending : IsPending c

bool-eq : (key : String) (b d : Bool) → bool_value key (some (boolean b)) ≡ ok d → b ≡ d
unfolding bool_value
bool-eq key b d e = ok-injective b d e

pub read_candidate-IsCandidateOf :
    (h : Sha256) (o : ObservedEntry) (classification : String) (c : CatalogCandidate)
    → from_dict (candidate_payload h o classification) ≡ ok c
    → IsCandidateOf h o c
read_candidate-IsCandidateOf h o classification c e =
    let r = candidate-reads (candidate_payload h o classification) c e in
    record {
      id = sym (id-eq _ _ _ _ r.id);
      observed = sym (id-eq _ _ _ _ r.observed);
      pending = record {
        review = sym (enum-eq _ _ _ _ r.review);
        gated = sym (bool-eq _ _ _ r.approval);
      };
    }

pub stored-IsCandidateOf :
    (h : Sha256) (o : ObservedEntry) (c v : CatalogCandidate)
    → IsCandidateOf h o c
    → from_dict (to_dict c) ≡ ok v
    → IsCandidateOf h o v
unfolding to_dict
stored-IsCandidateOf h o c v i e =
    let r = candidate-reads (to_dict c) v e in
    record {
      id = sym (id-eq _ _ _ _ r.id) ∙ i.id;
      observed = sym (id-eq _ _ _ _ r.observed) ∙ i.observed;
      pending = record {
        review = sym (enum-eq _ _ _ _ r.review) ∙ i.pending.review;
        gated = sym (bool-eq _ _ _ r.approval) ∙ i.pending.gated;
      };
    }

-- The row that holds a candidate's present state.
abbrev pub found : String → Database → Option CandidateRow
found id db = find_row (has_id id) db.catalog_candidates

put_candidate-found :
    (k : Clock) (c : CatalogCandidate) (db : Database)
    → IsPending c
    → (r : CandidateRow) × (found c.candidate_id (put_candidate k c db) ≡ some r)
      × IsPending r.candidate
unfolding put_candidate refreshed candidate_row
put_candidate-found k c db pending =
    let same : (c.candidate_id == c.candidate_id) ≡ true = (eq_iff _ _).1 refl in
    elim (Bool-cases (has_row (has_id c.candidate_id) db.catalog_candidates)) [
      | inl there ↦
          let (r, at) =
            find_row-update_self (has_id c.candidate_id) (refreshed k c) db.catalog_candidates
              (λ _. same) there in
          (refreshed k c r, rw there at, record { review = pending.review; gated = pending.gated })
      | inr absent ↦
          let at =
            find_row-append (has_id c.candidate_id) (candidate_row k c) db.catalog_candidates
              (has_row-find _ db.catalog_candidates absent) in
          (
            candidate_row k c,
            rw (absent, at, same),
            record { review = pending.review; gated = pending.gated },
          )
    ]

put_candidate-other :
    (k : Clock) (c : CatalogCandidate) (db : Database) (id : String)
    → (c.candidate_id == id) ≡ false
    → found id (put_candidate k c db) ≡ found id db
unfolding put_candidate refreshed candidate_row
put_candidate-other k c db id apart =
    elim (Bool-cases (has_row (has_id c.candidate_id) db.catalog_candidates)) [
      | inl there ↦ rw there (
          find_row-update_other (has_id id) (has_id c.candidate_id) (refreshed k c)
            db.catalog_candidates
            (λ r own. subst (λ x. (x == id) ≡ false) (sym ((eq_iff _ _).0 own)) apart)
            (λ _ _. apart))
      | inr absent ↦
          rw absent
            (find_row-append_other (has_id id) (candidate_row k c) db.catalog_candidates apart)
    ]

-- A candidate of the entry was stored: its row is pending, it was made from the entry, and every
-- other row is as it was.
pub record Stages (h : Sha256) (o : ObservedEntry) (before after : Database) : Type 0 where
  pub row : CandidateRow
  pub stored : found (candidate_id h o) after ≡ some row
  pub pending : IsPending row.candidate
  pub others : (id : String) → (candidate_id h o == id) ≡ false → found id after ≡ found id before
  pub frame : after ≡ record before { catalog_candidates = after.catalog_candidates }

pub put_candidate-Stages :
    (h : Sha256) (k : Clock) (o : ObservedEntry) (c : CatalogCandidate) (db : Database)
    → IsCandidateOf h o c
    → Stages h o db (put_candidate k c db)
put_candidate-Stages h k o c db i =
    let (row, at, pending) = put_candidate-found k c db i.pending in
    record {
      row = row;
      stored = subst (λ id. found id (put_candidate k c db) ≡ some row) i.id at;
      pending = pending;
      others = λ id apart.
          put_candidate-other k c db id (subst (λ x. (x == id) ≡ false) (sym i.id) apart);
      frame = unfold put_candidate in refl;
    }
