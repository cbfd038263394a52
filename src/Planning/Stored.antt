-- ===== src/Planning/Stored.antt =====
-- What becomes of the plans of a dry run once they are stored.
use mcp_multiplex.Prelude.{
  String, Bool, true, false, List, some, ◌≡◌, refl, sym, ap, ◌∙◌, ◌==◌, eq_iff, All, All-map, apart,
}
use mcp_multiplex.Exec.{planning_error, Error, err, ok, ok-injective, Sha256, Clock}
use mcp_multiplex.Security.{Urls}
use mcp_multiplex.Schemas.Observed.{ObservedEntry}
use mcp_multiplex.Schemas.Catalog.{CatalogEntry}
use mcp_multiplex.Schemas.Plan.{RemediationPlan}
use mcp_multiplex.Storage.{Database}
use mcp_multiplex.Catalog.Matching.{CatalogMatch}
use mcp_multiplex.Apply.{World, Format, ApplyPlan, load_apply_plan}
use mcp_multiplex.Apply.Auto.{AutoApplyDecision, evaluate_auto_apply}
use mcp_multiplex.Apply.Auto.Guards.{evaluate-IsEligible}
use mcp_multiplex.ConfigAudit.{RunArgs}
use mcp_multiplex.Planning.{Differ}
use mcp_multiplex.Planning.Kinds.{
  is_routed, rewrite_args, generate_known_direct_rewrite_plan, import_args, local_http_args,
  control_plane_args,
}
use mcp_multiplex.Planning.Run.{SelfHealingDryRunResult, plan_self_healing_dry_run}
use mcp_multiplex.Planning.Store.{put_plan}
use mcp_multiplex.Planning.Matched.{IsMatched, IsRoutableMatch, matched-IsRoutableMatch}
use mcp_multiplex.Planning.Gated.{IsBuilt, IsGated, IsPlanned, planned-IsGated}
use mcp_multiplex.Planning.Planned.{run-IsPlanned}
use mcp_multiplex.Planning.Refused.{HasRow, IsRefused, inserted-found, row-refused, refused}

-- Each plan of a dry run waits for an approval: its policy asks for one and forbids an automatic
-- apply; inserting it as a new plan stores exactly its row; and as long as its row is as it was
-- inserted, `apply_plan` raises and changes neither the database nor a file.
pub dry_run_plans_wait :
    (h : Sha256) (u : Urls) (d : Differ) (k : Clock) (a : RunArgs) (include : Bool)
    (entries : List ObservedEntry) (r : SelfHealingDryRunResult) (db after : Database)
    → plan_self_healing_dry_run h u d k a include entries db ≡ (ok r, after)
    → All
        (λ p.
          IsGated p
          × ((t : Clock) (before stored : Database)
              → put_plan t p before ≡ ok (true, stored)
              → HasRow t p stored)
          × ((t : Clock) (w : World) → HasRow t p w.db → IsRefused p w))
        r.plans
dry_run_plans_wait h u d k a include entries r db after e =
    let From = IsMatched h u entries db in
    All-map (IsPlanned h u From) _ r.plans
      (λ p planned. (
        planned-IsGated h u From p planned,
        stores_row p,
        λ t w at g c f disk o.
            let (x, unread) = row-refused h u From t p f w planned at in
            (x, refused g c f disk o p.plan_id w x unread),
      ))
      (run-IsPlanned h u d entries db k a include r after e)
  where
    stores_row :
        (p : RemediationPlan) (t : Clock) (before stored : Database)
        → put_plan t p before ≡ ok (true, stored)
        → HasRow t p stored
    stores_row p t before stored put = inserted-found t p before stored put

eligible-kind :
    (f : Format) (p : RemediationPlan) (w : World) (q : ApplyPlan) (t : AutoApplyDecision)
    → load_apply_plan p.plan_id w.db ≡ ok q
    → q.plan_type ≡ p.plan_type
    → evaluate_auto_apply f p.plan_id w ≡ ok t
    → t.eligible ≡ true
    → p.plan_type ≡ "rewrite_known_direct"
eligible-kind f p w q t loaded kind evaluated eligible =
    let (x, is) = evaluate-IsEligible f p.plan_id w t evaluated eligible in
    let same = ok-injective x q (sym is.loaded ∙ loaded) in
    sym kind ∙ sym (ap (λ (y : ApplyPlan). y.plan_type) same) ∙ (eq_iff _ _).0 is.kind

-- The rewrite of an observed entry to a routable entry of the catalog that its match, of high
-- confidence, names; the observed entry is not routed yet. The generator by itself refuses the rewrite
-- for such a match that is not routable.
abbrev pub IsRewrite :
    Sha256 → Urls → Differ → List ObservedEntry → Database → RemediationPlan → Type 0
IsRewrite h u d entries db p =
    (o : ObservedEntry) × (e : CatalogEntry) × (m : CatalogMatch) × (at : String) × IsBuilt
      (rewrite_args o e m at) p
    × IsRoutableMatch h u entries db o e m
    × (m.catalog_id ≡ some e.catalog_id)
    × ((m.confidence == "high") ≡ true)
    × (m.routable ≡ true)
    × (is_routed o e ≡ false)
    × ((x : Error) × (generate_known_direct_rewrite_plan h d o e (record m { routable = false }) at
          ≡ err x))

unroutable_refused :
    (h : Sha256) (d : Differ) (o : ObservedEntry) (e : CatalogEntry) (m : CatalogMatch)
    (at : String)
    → is_routed o e ≡ false
    → m.catalog_id ≡ some e.catalog_id
    → (m.confidence == "high") ≡ true
    → (x : Error) × (generate_known_direct_rewrite_plan h d o e (record m { routable = false }) at
        ≡ err x)
unfolding generate_known_direct_rewrite_plan
unroutable_refused h d o e m at apart same high = (
  planning_error "known direct rewrite requires a routable catalog entry",
  rw (apart, same, (eq_iff e.catalog_id e.catalog_id).1 refl, high) refl,
)

kind-IsRewrite :
    (h : Sha256) (u : Urls) (d : Differ) (entries : List ObservedEntry) (db : Database)
    (p : RemediationPlan)
    → IsPlanned h u (IsMatched h u entries db) p
    → p.plan_type ≡ "rewrite_known_direct"
    → IsRewrite h u d entries db p
unfolding import_args local_http_args control_plane_args
kind-IsRewrite h u d entries db p (IsPlanned.rewrite o e m t from same high routable unrouted b)
      kind =
    (
      o,
      e,
      m,
      t,
      b,
      matched-IsRoutableMatch h u entries db o e m from routable,
      same,
      high,
      routable,
      unrouted,
      unroutable_refused h d o e m t unrouted same high,
    )
kind-IsRewrite h u d entries db p (IsPlanned.import o c t b) kind =
    absurd (apart "import_unknown_candidate" "rewrite_known_direct" refl (sym b.kind ∙ kind))
kind-IsRewrite h u d entries db p (IsPlanned.local_http o c t b) kind =
    absurd (apart "unsafe_local_http_detected" "rewrite_known_direct" refl (sym b.kind ∙ kind))
kind-IsRewrite h u d entries db p (IsPlanned.control_plane x target preimage t b) kind =
    absurd (apart "install_missing_control_plane" "rewrite_known_direct" refl (sym b.kind ∙ kind))

-- Of the plans of a dry run, an automatic apply takes only rewrites: where a stored plan with the id
-- and the type of a planned one is eligible, the planned one was built from one of the observed
-- entries of the run, an entry of the catalog and a match, of the database before the run. The entry
-- is listed and passes the routability check; the match is the entry's score for the observed one,
-- is the one chosen in the whole catalog, and is of high confidence; and the observed entry is not
-- routed yet. The generator of the rewrite by itself refuses such a match that is not routable.
pub only_rewrites_apply_automatically :
    (h : Sha256) (u : Urls) (d : Differ) (k : Clock) (a : RunArgs) (include : Bool)
    (entries : List ObservedEntry) (r : SelfHealingDryRunResult) (db after : Database)
    → plan_self_healing_dry_run h u d k a include entries db ≡ (ok r, after)
    → All
        (λ p.
          (f : Format) (w : World) (q : ApplyPlan) (t : AutoApplyDecision)
          → load_apply_plan p.plan_id w.db ≡ ok q
          → q.plan_type ≡ p.plan_type
          → evaluate_auto_apply f p.plan_id w ≡ ok t
          → t.eligible ≡ true
          → IsRewrite h u d entries db p)
        r.plans
only_rewrites_apply_automatically h u d k a include entries r db after e =
    All-map (IsPlanned h u (IsMatched h u entries db)) _ r.plans
      (λ p planned f w q t loaded kind evaluated eligible.
        kind-IsRewrite h u d entries db p planned
          (eligible-kind f p w q t loaded kind evaluated eligible))
      (run-IsPlanned h u d entries db k a include r after e)
