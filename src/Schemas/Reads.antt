-- ===== src/Schemas/Reads.antt =====
-- What `from_dict` of a candidate and of a plan read from the dict, key by key.
use mcp_multiplex.Prelude.{◌≡◌}
use mathlib.Core.Path.{subst}
use mcp_multiplex.Json.{Fields}
use mcp_multiplex.Exec.{ok, ok-injective}
use mcp_multiplex.Schemas.{
  >>=-elim, >>-elim, invalid_if-elim, catalog_review_states, candidate_classifications, plan_types,
  plan_statuses, require_string, require_bool, require_object, require_enum, require_id,
}
use mcp_multiplex.Schemas.Candidate
use mcp_multiplex.Schemas.Candidate.{CatalogCandidate}
use mcp_multiplex.Schemas.Plan
use mcp_multiplex.Schemas.Plan.{RemediationPlan}

pub record ReadsCandidate (payload : Fields) (c : CatalogCandidate) : Type 0 where
  pub id : require_id payload "candidate_id" "cand_" ≡ ok c.candidate_id
  pub observed : require_id payload "observed_entry_id" "obs_" ≡ ok c.observed_entry_id
  pub classification :
      require_enum payload "classification" candidate_classifications ≡ ok c.classification
  pub review : require_enum payload "review_state" catalog_review_states ≡ ok c.review_state
  pub approval : require_bool payload "approval_required" ≡ ok c.approval_required

pub candidate-reads :
    (payload : Fields) (c : CatalogCandidate)
    → Candidate.from_dict payload ≡ ok c
    → ReadsCandidate payload c
unfolding Candidate.from_dict
candidate-reads payload c h = >>=-elim (>>-elim _ h) λ version r1 h.
    >>=-elim h λ classification r2 h. >>=-elim h λ approval r3 h. invalid_if-elim _ _ h λ gated h.
      >>=-elim h λ id r4 h. >>=-elim h λ source r5 h. >>=-elim h λ observed r6 h.
        >>=-elim h λ name r7 h. >>=-elim h λ review r8 h. >>=-elim h λ risk r9 h.
          >>=-elim h λ confidence r10 h. >>=-elim h λ shape r11 h. >>=-elim h λ reasons r12 h.
            subst (ReadsCandidate payload) (ok-injective _ c h)
              (record { id = r4; observed = r6; classification = r2; review = r8; approval = r3 })

pub record ReadsPlan (payload : Fields) (p : RemediationPlan) : Type 0 where
  pub policy : require_object payload "policy" ≡ ok p.policy
  pub id : require_id payload "plan_id" "plan_" ≡ ok p.plan_id
  pub kind : require_enum payload "plan_type" plan_types ≡ ok p.plan_type
  pub status : require_enum payload "status" plan_statuses ≡ ok p.status
  pub agent : require_string payload "agent_id" ≡ ok p.agent_id
  pub target : require_string payload "target_path" ≡ ok p.target_path
  pub observed : require_id payload "observed_entry_id" "obs_" ≡ ok p.observed_entry_id
  pub catalog : require_id payload "catalog_id" "srv_" ≡ ok p.catalog_id
  pub preimage : require_id payload "expected_preimage_hash" "sha256:" ≡ ok p.expected_preimage_hash

pub plan-reads :
    (payload : Fields) (p : RemediationPlan) → Plan.from_dict payload ≡ ok p → ReadsPlan payload p
unfolding Plan.from_dict
plan-reads payload p h = >>=-elim (>>-elim _ h) λ policy r1 h. invalid_if-elim _ _ h λ explained h.
    >>=-elim h λ version r2 h. >>=-elim h λ id r3 h. >>=-elim h λ kind r4 h.
      >>=-elim h λ status r5 h. >>=-elim h λ agent r6 h. >>=-elim h λ target r7 h.
        >>=-elim h λ observed r8 h. >>=-elim h λ catalog r9 h. >>=-elim h λ diff r10 h.
          >>=-elim h λ preimage r11 h. >>=-elim h λ rollback r12 h. >>=-elim h λ risk r13 h.
            >>=-elim h λ created r14 h. subst (ReadsPlan payload) (ok-injective _ p h) (record {
              policy = r1;
              id = r3;
              kind = r4;
              status = r5;
              agent = r6;
              target = r7;
              observed = r8;
              catalog = r9;
              preimage = r11;
            })
