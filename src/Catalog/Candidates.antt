-- ===== src/Catalog/Candidates.antt =====
-- catalog/candidates.py: entries that no catalog entry matches are staged for review.
use mcp_multiplex.Prelude.{
  String, Bool, true, false, ◌&&◌, List, [], ◌∷◌, ◌++◌, Option, none, some, if◌then◌else◌, ◌==◌,
  ◌<>◌, truthy?, text_or, elem, has_row, find_row, update_rows, sort_by, text_leb, take_text,
}
use mcp_multiplex.Json.{Fields, number, boolean, text, array, object, field, end}
use mcp_multiplex.Json.Canonical.{canonical_fields}
use mcp_multiplex.Exec.{
  Result, ok, and_then, require, key_error, Action, pure, lift, gets, reads, modify, Sha256, Clock,
  ◌>>=◌, ◌>>◌,
}
use mcp_multiplex.Security.{Urls}
use mcp_multiplex.Schemas.{nullable, text_items}
use mcp_multiplex.Schemas.Observed.{ObservedEntry}
use mcp_multiplex.Schemas.Candidate.{CatalogCandidate, from_dict, to_dict}
use mcp_multiplex.Storage.{Database, CandidateRow}
use mcp_multiplex.Catalog.Matching.{CatalogMatch, matched, match_observed_entry_from_store}

unfoldable pub is_local_http_url : Urls → String → Result Bool
is_local_http_url u value = and_then (u.split value) λ parsed. ok (
    elem (u.lower parsed.scheme) ("http" ∷ "https" ∷ [])
    && elem (u.lower (text_or parsed.hostname "")) ("127.0.0.1" ∷ "localhost" ∷ "::1" ∷ []))

unfoldable pub candidate_classification : Urls → ObservedEntry → Result (Option String)
candidate_classification u o =
    if o.transport == "stdio"
    then ok (some "unknown_stdio")
    else if truthy? o.url
    then and_then (is_local_http_url u (text_or o.url ""))
        (λ local. ok (some (if local then "unknown_local_http" else "unknown_remote_http")))
    else ok none

unfoldable pub backend_shape : ObservedEntry → Fields
backend_shape o =
    if o.transport == "stdio"
    then field "type" (text "stdio") (
        field "command" (nullable o.command) (
          field "args" (array (text_items o.args)) (
            field "cwd" (nullable o.cwd) (field "env_names" (array (text_items o.env_names)) end))))
    else field "type" (text o.transport) (
        field "url" (nullable o.url)
          (field "headers_present" (array (text_items o.headers_present)) end))

unfoldable pub candidate_reasons : ObservedEntry → String → List String
candidate_reasons o classification =
    "not_in_catalog"
    ∷ (if classification == "unknown_stdio"
        then "unknown_package"
        else if classification == "unknown_local_http"
        then "unsafe_local_http_endpoint"
        else "unknown_remote_http_endpoint")
    ∷ (if o.enabled then "active_direct_bypass" else "disabled_observed_entry")
    ∷ []

unfoldable pub candidate_id : Sha256 → ObservedEntry → String
candidate_id h o = "cand_" <> take_text 24 (h.of_json (object (canonical_fields (backend_shape o))))

-- The payload of `candidate_from_observed_entry`
abbrev pub candidate_payload : Sha256 → ObservedEntry → String → Fields
candidate_payload h o classification = field "schema_version" (number "1") (
    field "candidate_id" (text (candidate_id h o)) (
      field "source" (text "observed_agent_config") (
        field "observed_entry_id" (text o.observed_entry_id) (
          field "proposed_name" (text o.mount_name) (
            field "classification" (text classification) (
              field "review_state" (text "pending") (
                field "risk_tier" (text "unknown") (
                  field "confidence" (text "low") (
                    field "backend_shape" (object (backend_shape o)) (
                      field "approval_required" (boolean true) (
                        field "reasons" (array (text_items (candidate_reasons o classification)))
                          end)))))))))))

abbrev pub read_candidate :
    Sha256 → ObservedEntry → Option String → Result (Option CatalogCandidate)
read_candidate h o none = ok none
read_candidate h o (some classification) =
    and_then (from_dict (candidate_payload h o classification)) λ c. ok (some c)

unfoldable pub candidate_from_observed_entry :
    Sha256 → Urls → ObservedEntry → Result (Option CatalogCandidate)
candidate_from_observed_entry h u o = and_then (candidate_classification u o) (read_candidate h o)

abbrev pub has_id : String → CandidateRow → Bool
has_id id r = r.candidate.candidate_id == id

-- `CatalogCandidateStore.show`, and `_candidate_from_row`
unfoldable pub show : String → Database → Result CatalogCandidate
show id db =
    and_then (require (find_row (has_id id) db.catalog_candidates) (key_error id))
      λ row. from_dict (to_dict row.candidate)

-- `_candidate_row`, with the columns that the table has
unfoldable pub candidate_row : Clock → CatalogCandidate → CandidateRow
candidate_row c candidate = record {
  candidate = record candidate { backend_shape = canonical_fields candidate.backend_shape };
  updated_at = c.sql_now;
}

-- What ON CONFLICT(candidate_id) DO UPDATE sets: all columns but the schema's version.
unfoldable pub refreshed : Clock → CatalogCandidate → CandidateRow → CandidateRow
refreshed c candidate r =
    let fresh = candidate_row c candidate in
    record fresh {
      candidate = record fresh.candidate { schema_version = r.candidate.schema_version };
    }

unfoldable pub put_candidate : Clock → CatalogCandidate → Database → Database
put_candidate c candidate db = record db {
  catalog_candidates =
      if has_row (has_id candidate.candidate_id) db.catalog_candidates
      then update_rows (has_id candidate.candidate_id) (refreshed c candidate) db.catalog_candidates
      else db.catalog_candidates ++ candidate_row c candidate ∷ [];
}

-- `CatalogCandidateStore.upsert`
unfoldable pub upsert : Clock → CatalogCandidate → Action Database CatalogCandidate
upsert c candidate = do
  validated ← lift (from_dict (to_dict candidate))
  modify (put_candidate c validated)
  reads (show validated.candidate_id)

-- ORDER BY review_state, proposed_name, candidate_id
review_order : CandidateRow → CandidateRow → Bool
review_order r s =
    if r.candidate.review_state == s.candidate.review_state
    then if r.candidate.proposed_name == s.candidate.proposed_name
      then text_leb r.candidate.candidate_id s.candidate.candidate_id
      else text_leb r.candidate.proposed_name s.candidate.proposed_name
    else text_leb r.candidate.review_state s.candidate.review_state

show_all : List CandidateRow → Database → Result (List CatalogCandidate)
show_all [] db = ok []
show_all (r ∷ rows) db =
    and_then (show r.candidate.candidate_id db) λ c. and_then (show_all rows db) λ cs. ok (c ∷ cs)

-- `CatalogCandidateStore.list`
unfoldable pub list : Database → Result (List CatalogCandidate)
unfolding show_all review_order
list db = show_all (sort_by review_order db.catalog_candidates) db

pub record CandidateStageResult : Type 0 where
  pub status : String
  pub observed_entry_id : String
  pub match : CatalogMatch
  pub candidate : Option CatalogCandidate

abbrev pub stage_result :
    String → ObservedEntry → CatalogMatch → Option CatalogCandidate → CandidateStageResult
stage_result status o m candidate = record {
  status = status;
  observed_entry_id = o.observed_entry_id;
  match = m;
  candidate = candidate;
}

-- What follows in `stage_unknown_candidate` once the candidate is made.
unfoldable pub stage :
    Clock
    → ObservedEntry
    → CatalogMatch
    → Option CatalogCandidate
    → Action Database CandidateStageResult
stage c o m none = pure (stage_result "unsupported" o m none)
stage c o m (some candidate) = do
  exists ← gets (λ (db : Database). has_row (has_id candidate.candidate_id) db.catalog_candidates)
  stored ← upsert c candidate
  pure (stage_result (if exists then "existing" else "created") o m (some stored))

unfoldable pub stage_unknown_candidate :
    Sha256 → Urls → Clock → ObservedEntry → Action Database CandidateStageResult
stage_unknown_candidate h u c o = do
  m ← reads (match_observed_entry_from_store h u o)
  elim (matched m) [
    | true ↦ pure (stage_result "matched_known" o m none)
    | false ↦ do candidate ← lift (candidate_from_observed_entry h u o); stage c o m candidate
  ]
