-- ===== src/Planning/Gated.antt =====
-- Every plan of a dry run waits for an approval and is not to be applied automatically.
use mcp_multiplex.Prelude.{
  String, true, false, some, ◌≡◌, refl, sym, ◌∙◌, arith, if◌then◌else◌, not, opt_eq, eq_of_opt_eq,
  ◌==◌,
}
use mcp_multiplex.Json.{boolean}
use mcp_multiplex.Json.Dict
use mcp_multiplex.Exec.{ok, refuse_if-eq-ok, ok-injective, Sha256}
use mcp_multiplex.Security.{Urls}
use mcp_multiplex.Schemas.{object_value}
use mcp_multiplex.Schemas.Values.{string_value-eq, enum-eq, id-eq}
use mcp_multiplex.Schemas.Observed.{ObservedEntry}
use mcp_multiplex.Schemas.Catalog.{CatalogEntry}
use mcp_multiplex.Schemas.Candidate.{CatalogCandidate}
use mcp_multiplex.Schemas.Plan.{RemediationPlan}
use mcp_multiplex.Schemas.Reads.{plan-reads}
use mcp_multiplex.Catalog.Matching.{CatalogMatch}
use mcp_multiplex.Planning.{Differ, BuildArgs, policy_dict, plan_payload, build_plan}
use mcp_multiplex.Planning.Kinds.{
  is_routed, rewrite_args, import_args, local_http_args, control_plane_args,
  generate_known_direct_rewrite_plan, generate_unknown_import_plan, generate_unsafe_local_http_plan,
  generate_missing_control_plane_plan,
}

-- What a plan says that was built from some arguments.
pub record IsBuilt (a : BuildArgs) (p : RemediationPlan) : Type 0 where
  pub policy : p.policy ≡ policy_dict a.policy a.target_path a.before a.after
  pub kind : p.plan_type ≡ a.plan_type
  pub status : p.status ≡ (if a.policy.approval_required then "pending_approval" else "draft")
  pub agent : p.agent_id ≡ a.agent_id
  pub target : p.target_path ≡ a.target_path
  pub observed : p.observed_entry_id ≡ a.observed_entry_id
  pub catalog : p.catalog_id ≡ a.catalog_id
  pub preimage : p.expected_preimage_hash ≡ a.expected_preimage_hash

pub build-IsBuilt :
    (h : Sha256) (d : Differ) (a : BuildArgs) (p : RemediationPlan)
    → build_plan h d a ≡ ok p
    → IsBuilt a p
unfolding build_plan plan_payload object_value
build-IsBuilt h d a p e =
    let r = plan-reads (plan_payload h d a) p e in
    record {
      policy = sym (ok-injective _ p.policy r.policy);
      kind = sym (enum-eq _ _ _ _ r.kind);
      status = sym (enum-eq _ _ _ _ r.status);
      agent = sym (string_value-eq _ _ _ r.agent);
      target = sym (string_value-eq _ _ _ r.target);
      observed = sym (id-eq _ _ _ _ r.observed);
      catalog = sym (id-eq _ _ _ _ r.catalog);
      preimage = sym (id-eq _ _ _ _ r.preimage);
    }

-- The plan waits for an approval; its policy asks for one, and forbids an automatic apply.
pub record IsGated (p : RemediationPlan) : Type 0 where
  pub waiting : p.status ≡ "pending_approval"
  pub approval : Dict.get "approval_required" p.policy ≡ some (boolean true)
  pub no_auto : Dict.get "auto_apply_allowed" p.policy ≡ some (boolean false)
  pub dry_run : Dict.get "dry_run_only" p.policy ≡ some (boolean true)

-- The arguments have a policy of the kind `gated`.
pub record AreGated (a : BuildArgs) : Type 0 where
  pub approval : a.policy.approval_required ≡ true
  pub no_auto : a.policy.auto_apply_allowed ≡ false
  pub dry_run : a.policy.dry_run_only ≡ true

built-IsGated : (a : BuildArgs) (p : RemediationPlan) → AreGated a → IsBuilt a p → IsGated p
unfolding policy_dict
built-IsGated a p g b = record {
  waiting = b.status ∙ (rw g.approval);
  approval = rw (b.policy, g.approval);
  no_auto = rw (b.policy, g.no_auto);
  dry_run = rw (b.policy, g.dry_run);
}

-- Where a plan comes from: it was built for an entry, the catalog entry that it has a routable match
-- of high confidence with, and that match, which are as `From` tells; for a candidate; or for a
-- configuration without the control plane.
pub data IsPlanned (h : Sha256) (u : Urls)
    (From : ObservedEntry → CatalogEntry → CatalogMatch → Type 0) (p : RemediationPlan)
    : Type 0 where
  rewrite :
      (o : ObservedEntry) (e : CatalogEntry) (m : CatalogMatch) (t : String)
      → From o e m
      → m.catalog_id ≡ some e.catalog_id
      → (m.confidence == "high") ≡ true
      → m.routable ≡ true
      → is_routed o e ≡ false
      → IsBuilt (rewrite_args o e m t) p
      → IsPlanned h u From p
  import :
      (o : ObservedEntry) (c : CatalogCandidate) (t : String)
      → IsBuilt (import_args h u o c t) p
      → IsPlanned h u From p
  local_http :
      (o : ObservedEntry) (c : CatalogCandidate) (t : String)
      → IsBuilt (local_http_args h u o c t) p
      → IsPlanned h u From p
  control_plane :
      (agent_id target_path preimage t : String)
      → IsBuilt (control_plane_args h agent_id target_path preimage t) p
      → IsPlanned h u From p

-- The arguments that a plan was built from.
pub planned-args :
    (h : Sha256) (u : Urls) (From : ObservedEntry → CatalogEntry → CatalogMatch → Type 0)
    (p : RemediationPlan)
    → IsPlanned h u From p
    → (a : BuildArgs) × AreGated a × IsBuilt a p
unfolding rewrite_args import_args local_http_args control_plane_args
planned-args h u From p (rewrite o e m t from same high routable apart b) =
    (rewrite_args o e m t, record { approval = refl; no_auto = refl; dry_run = refl }, b)
planned-args h u From p (import o c t b) =
    (import_args h u o c t, record { approval = refl; no_auto = refl; dry_run = refl }, b)
planned-args h u From p (local_http o c t b) =
    (local_http_args h u o c t, record { approval = refl; no_auto = refl; dry_run = refl }, b)
planned-args h u From p (control_plane x target preimage t b) = (
  control_plane_args h x target preimage t,
  record { approval = refl; no_auto = refl; dry_run = refl },
  b,
)

pub planned-IsGated :
    (h : Sha256) (u : Urls) (From : ObservedEntry → CatalogEntry → CatalogMatch → Type 0)
    (p : RemediationPlan)
    → IsPlanned h u From p
    → IsGated p
planned-IsGated h u From p planned =
    let (a, gated, built) = planned-args h u From p planned in built-IsGated a p gated built

module _ (h : Sha256) (u : Urls) (d : Differ)
    (From : ObservedEntry → CatalogEntry → CatalogMatch → Type 0) where
  pub rewrite-IsPlanned :
      (o : ObservedEntry) (e : CatalogEntry) (m : CatalogMatch) (t : String) (p : RemediationPlan)
      → From o e m
      → generate_known_direct_rewrite_plan h d o e m t ≡ ok p
      → IsPlanned h u From p
  unfolding generate_known_direct_rewrite_plan
  rewrite-IsPlanned o e m t p from made =
      let (apart, made) = refuse_if-eq-ok (is_routed o e) _ _ p made in
      let (same, made) =
        refuse_if-eq-ok (not (opt_eq m.catalog_id (some e.catalog_id))) _ _ p made in
      let (high, made) = refuse_if-eq-ok (not (m.confidence == "high")) _ _ p made in
      let (routable, made) = refuse_if-eq-ok (not m.routable) _ _ p made in
      rewrite o e m t from (eq_of_opt_eq m.catalog_id (some e.catalog_id) (ground arith))
        (ground arith) (ground arith) apart (build-IsBuilt h d (rewrite_args o e m t) p made)

  pub import-IsPlanned :
      (o : ObservedEntry) (c : CatalogCandidate) (t : String) (p : RemediationPlan)
      → generate_unknown_import_plan h u d o c t ≡ ok p
      → IsPlanned h u From p
  unfolding generate_unknown_import_plan
  import-IsPlanned o c t p made =
      let (own, made) =
        refuse_if-eq-ok (not (c.observed_entry_id == o.observed_entry_id)) _ _ p made in
      let (remote, made) = refuse_if-eq-ok (c.classification == "unknown_local_http") _ _ p made in
      import o c t (build-IsBuilt h d (import_args h u o c t) p made)

  pub local_http-IsPlanned :
      (o : ObservedEntry) (c : CatalogCandidate) (t : String) (p : RemediationPlan)
      → generate_unsafe_local_http_plan h u d o c t ≡ ok p
      → IsPlanned h u From p
  unfolding generate_unsafe_local_http_plan
  local_http-IsPlanned o c t p made =
      let (own, made) =
        refuse_if-eq-ok (not (c.observed_entry_id == o.observed_entry_id)) _ _ p made in
      let (near, made) =
        refuse_if-eq-ok (not (c.classification == "unknown_local_http")) _ _ p made in
      local_http o c t (build-IsBuilt h d (local_http_args h u o c t) p made)

  pub control_plane-IsPlanned :
      (agent_id target_path preimage t : String) (p : RemediationPlan)
      → generate_missing_control_plane_plan h d agent_id target_path preimage t ≡ ok p
      → IsPlanned h u From p
  unfolding generate_missing_control_plane_plan
  control_plane-IsPlanned a target preimage t p made =
      control_plane a target preimage t
        (build-IsBuilt h d (control_plane_args h a target preimage t) p made)
