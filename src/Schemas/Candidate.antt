-- ===== src/Schemas/Candidate.antt =====
-- schemas/models.py: CatalogCandidate.
use mcp_multiplex.Prelude.{ℕ, String, Bool, not, ◌&&◌, List, [], ◌∷◌, starts_with}
use mcp_multiplex.Json.{Fields, boolean, text, array, object, end, field}
use mcp_multiplex.Json.Dict
use mcp_multiplex.Exec.{Result, ok}
use mcp_multiplex.Schemas.{
  ◌>>=◌, ◌>>◌, invalid_if, catalog_review_states, risk_tiers, candidate_classifications,
  candidate_confidences, require_string, require_bool, require_schema_version, require_string_list,
  require_object, require_enum, require_id, reject_unknown_keys, text_items, int_json,
}

pub record CatalogCandidate : Type 0 where
  pub schema_version : ℕ
  pub candidate_id : String
  pub source : String
  pub observed_entry_id : String
  pub proposed_name : String
  pub classification : String
  pub review_state : String
  pub risk_tier : String
  pub confidence : String
  pub backend_shape : Fields
  pub approval_required : Bool
  pub reasons : List String

abbrev pub candidate_fields : List String
candidate_fields =
    "schema_version" ∷ "candidate_id" ∷ "source" ∷ "observed_entry_id" ∷ "proposed_name"
    ∷ "classification" ∷ "review_state" ∷ "risk_tier" ∷ "confidence" ∷ "backend_shape"
    ∷ "approval_required" ∷ "reasons" ∷ []

unfoldable pub from_dict : Fields → Result CatalogCandidate
from_dict payload = do
  reject_unknown_keys "CatalogCandidate" candidate_fields payload
  schema_version ← require_schema_version (Dict.get "schema_version" payload)
  classification ← require_enum payload "classification" candidate_classifications
  approval_required ← require_bool payload "approval_required"
  invalid_if (starts_with classification "unknown_" && not approval_required)
      "unknown candidates must require approval"
  candidate_id ← require_id payload "candidate_id" "cand_"
  source ← require_string payload "source"
  observed_entry_id ← require_id payload "observed_entry_id" "obs_"
  proposed_name ← require_string payload "proposed_name"
  review_state ← require_enum payload "review_state" catalog_review_states
  risk_tier ← require_enum payload "risk_tier" risk_tiers
  confidence ← require_enum payload "confidence" candidate_confidences
  backend_shape ← require_object payload "backend_shape"
  reasons ← require_string_list payload "reasons"
  ok (record {
    schema_version = schema_version;
    candidate_id = candidate_id;
    source = source;
    observed_entry_id = observed_entry_id;
    proposed_name = proposed_name;
    classification = classification;
    review_state = review_state;
    risk_tier = risk_tier;
    confidence = confidence;
    backend_shape = backend_shape;
    approval_required = approval_required;
    reasons = reasons;
  })

unfoldable pub to_dict : CatalogCandidate → Fields
to_dict c = field "schema_version" (int_json c.schema_version) (
    field "candidate_id" (text c.candidate_id) (
      field "source" (text c.source) (
        field "observed_entry_id" (text c.observed_entry_id) (
          field "proposed_name" (text c.proposed_name) (
            field "classification" (text c.classification) (
              field "review_state" (text c.review_state) (
                field "risk_tier" (text c.risk_tier) (
                  field "confidence" (text c.confidence) (
                    field "backend_shape" (object c.backend_shape) (
                      field "approval_required" (boolean c.approval_required)
                        (field "reasons" (array (text_items c.reasons)) end)))))))))))
