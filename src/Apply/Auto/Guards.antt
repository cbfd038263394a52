-- ===== src/Apply/Auto/Guards.antt =====
-- What holds of a plan that is applied automatically.
use mcp_multiplex.Prelude.{
  String, Bool, true, false, ◌&&◌, List, [], ◌∷◌, ◌++◌, Option, none, some, ◌≡◌, ◌⊎◌, inl, inr,
  refl, ap, ◌∙◌, arith, ◌==◌, ◌<>◌, text_or, has_row, Bool-cases,
}
use mcp_multiplex.Json.{Fields}
use mcp_multiplex.Json.Dict
use mcp_multiplex.Json.Value.{is_true}
use mcp_multiplex.Exec.{Error, apply_error, Result, ok, err, Result-cases, Sha256, Clock}
use mcp_multiplex.Storage.{Database, AgentRow, ConfigBackup}
use mcp_multiplex.Audit.{append, query}
use mcp_multiplex.Apply.{
  World, read_file, Disk, ApplyPlan, Format, load_apply_plan, policy_after, verify_preimage,
  approval_required,
}
use mcp_multiplex.Apply.Backups.{list_backups}
use mcp_multiplex.Apply.Run.{Options, apply_plan}
use mcp_multiplex.Apply.Auto.{
  find_agent, can_auto_remediate, own_path, agent_reasons, has_text, reasons_of, policy_before,
  is_text, is_none, no_names, local_url, reason_unless, preimage_reasons, is_mutation, is_empty,
  plan_reasons, loop_reasons, decision_of, AutoApplyDecision, evaluate_auto_apply,
}
use mcp_multiplex.Apply.Auto.Authorized.{Authorizes, authorize-Authorizes}
use mcp_multiplex.Apply.Auto.Authorize.{
  join, rejected_event, authorize_auto_apply, reject_auto_apply, auto_apply_plan,
}

-- What a plan needs to be applied automatically: it waits for approval of a rewrite; its agent is
-- certified and owns the target; the entry is exactly as it was observed; the target URL is that
-- of this hub; and the plan has never been applied.
pub record IsEligible (f : Format) (id : String) (w : World) (p : ApplyPlan) : Type 0 where
  pub loaded : load_apply_plan id w.db ≡ ok p
  pub kind : (p.plan_type == "rewrite_known_direct") ≡ true
  pub waiting : (p.status == "pending_approval") ≡ true
  pub gated : approval_required p ≡ true
  pub certified :
      (a : AgentRow) × (find_agent (text_or p.agent_id "") w.db ≡ some a)
      × (can_auto_remediate a ≡ true)
      × (has_row (own_path a.agent_id p.target_path) w.db.config_paths ≡ true)
  pub high_confidence : has_text "match_confidence:high" (reasons_of p.policy) ≡ true
  pub local :
      (after : Fields) × (policy_after p ≡ ok after) × (local_url (Dict.get "url" after) ≡ true)
  pub preimage : verify_preimage f p (read_file p.target_path w.files) ≡ ok tt
  pub no_backup : list_backups (some p.plan_id) w.db ≡ ok []
  pub no_mutation : has_row is_mutation (query none none (some p.plan_id) w.db.events) ≡ false

append-nil_both : (xs ys : List String) → xs ++ ys ≡ [] → (xs ≡ []) × (ys ≡ [])
append-nil_both [] ys e = (refl, e)
append-nil_both (x ∷ xs) ys e = cc e

reason_unless-nil :
    (b : Bool) (r : String) (rest : List String)
    → reason_unless b r ++ rest ≡ []
    → (b ≡ true) × (rest ≡ [])
reason_unless-nil true r rest e = (refl, e)
reason_unless-nil false r rest e = cc e

reason_unless_only : (b : Bool) (r : String) → reason_unless b r ≡ [] → b ≡ true
reason_unless_only true r e = refl
reason_unless_only false r e = cc e

agent_reasons-nil :
    (o : Option AgentRow) (target : String) (db : Database)
    → agent_reasons o target db ≡ []
    → (a : AgentRow) × (o ≡ some a)
      × (can_auto_remediate a ≡ true)
      × (has_row (own_path a.agent_id target) db.config_paths ≡ true)
agent_reasons-nil none target db e = cc e
agent_reasons-nil (some a) target db e =
    let (certified, rest) = reason_unless-nil (can_auto_remediate a) _ _ e in
    (a, refl, certified, reason_unless_only _ _ rest)

decision-eligible : (id : String) (rs : List String) → (decision_of id rs).eligible ≡ true → rs ≡ []
decision-eligible id [] e = refl
decision-eligible id (r ∷ rs) e = cc e

preimage_reasons-nil : (r : Result (Unit {0})) → preimage_reasons r ≡ ok [] → r ≡ ok tt
preimage_reasons-nil (ok u) e = refl
preimage_reasons-nil (err (apply_error m)) e = ground arith
preimage_reasons-nil (err x) e = ground arith

is_empty-nil : (bs : List ConfigBackup) → is_empty bs ≡ true → bs ≡ []
is_empty-nil [] e = refl
is_empty-nil (b ∷ bs) e = cc e

-- No reasons are given only of a plan that is eligible.
no_reasons :
    (f : Format) (id : String) (w : World) (p : ApplyPlan) (before after : Fields)
    (stale : List String) (backups : List ConfigBackup)
    → load_apply_plan id w.db ≡ ok p
    → policy_after p ≡ ok after
    → preimage_reasons (verify_preimage f p (read_file p.target_path w.files)) ≡ ok stale
    → list_backups (some p.plan_id) w.db ≡ ok backups
    → plan_reasons p before after w.db ++ (stale ++ loop_reasons p backups w.db) ≡ []
    → IsEligible f id w p
no_reasons f id w p before after stale backups loaded policy preimage listed none_given =
    let (plan, rest) =
      append-nil_both (plan_reasons p before after w.db) (stale ++ loop_reasons p backups w.db)
        none_given in
    let (fresh, loops) = append-nil_both stale (loop_reasons p backups w.db) rest in
    let (empty, mutations) = reason_unless-nil (is_empty backups) _ _ loops in
    let (kind, r1) = reason_unless-nil (p.plan_type == "rewrite_known_direct") _ _ plan in
    let (waiting, r2) = reason_unless-nil (p.status == "pending_approval") _ _ r1 in
    let (gated, r3) = reason_unless-nil (approval_required p) _ _ r2 in
    let (agent, r4) =
      append-nil_both (agent_reasons (find_agent (text_or p.agent_id "") w.db) p.target_path w.db) _
        r3 in
    let (direct, r5) =
      reason_unless-nil (has_text "known_direct_backend_match" (reasons_of p.policy)) _ _ r4 in
    let (high, r6) =
      reason_unless-nil (has_text "match_confidence:high" (reasons_of p.policy)) _ _ r5 in
    let (exact, r7) =
      reason_unless-nil (has_text "match_reason:exact_backend_fingerprint" (reasons_of p.policy)) _
        _ r6 in
    let (stdio, r8) =
      reason_unless-nil
        (is_text "stdio" (Dict.get "transport" before) && is_true (Dict.get "command" before)) _ _
        r7 in
    let (cwd, r9) = reason_unless-nil (is_none (Dict.get "cwd" before)) _ _ r8 in
    let (env, r10) = reason_unless-nil (no_names (Dict.get "env_names" before)) _ _ r9 in
    let unmutated = reason_unless_only _ _ mutations in
    record {
      loaded = loaded;
      kind = kind;
      waiting = waiting;
      gated = gated;
      certified = agent_reasons-nil _ p.target_path w.db agent;
      high_confidence = high;
      local = (after, policy, reason_unless_only _ _ r10);
      preimage = preimage_reasons-nil _ (preimage ∙ ap ok fresh);
      no_backup = listed ∙ ap ok (is_empty-nil backups empty);
      no_mutation = ground arith;
    }

pub evaluate-IsEligible :
    (f : Format) (id : String) (w : World) (d : AutoApplyDecision)
    → evaluate_auto_apply f id w ≡ ok d
    → d.eligible ≡ true
    → (p : ApplyPlan) × IsEligible f id w p
unfolding evaluate_auto_apply
evaluate-IsEligible f id w d evaluated eligible = elim (Result-cases (load_apply_plan id w.db)) [
  | inl (p, loaded) ↦ elim (Result-cases (policy_before p)) [
    | inl (before, pb) ↦ elim (Result-cases (policy_after p)) [
      | inl (after, pa) ↦
          elim (Result-cases
            (preimage_reasons (verify_preimage f p (read_file p.target_path w.files)))) [
              | inl (stale, pre) ↦ elim (Result-cases (list_backups (some p.plan_id) w.db)) [
                | inl (backups, listed) ↦
                    let rs =
                      plan_reasons p before after w.db ++ (stale ++ loop_reasons p backups w.db) in
                    let e : decision_of p.plan_id rs ≡ d = ground arith in
                    (
                      p,
                      no_reasons f id w p before after stale backups loaded pa pre listed (
                          decision-eligible p.plan_id rs
                            (ap (λ (x : AutoApplyDecision). x.eligible) e ∙ eligible)),
                    )
                | inr (x, failed) ↦ ground arith
              ]
              | inr (x, failed) ↦ ground arith
            ]
      | inr (x, failed) ↦ ground arith
    ]
    | inr (x, failed) ↦ ground arith
  ]
  | inr (x, failed) ↦ ground arith
]

reject_auto_apply-raises :
    (h : Sha256) (c : Clock) (o : Options) (id : String) (d : AutoApplyDecision) (db : Database)
    → (x : Error) × ((reject_auto_apply h c o id d db).0 ≡ err x)
unfolding reject_auto_apply
reject_auto_apply-raises h c o id d db =
    elim (Result-cases (append h c (rejected_event h c o id d) db).0) [
      | inl (e, stored) ↦ (apply_error ("auto-apply rejected: " <> join d.reasons), ground arith)
      | inr (x, failed) ↦ (x, ground arith)
    ]

-- `auto_apply_plan` raises and changes no file; or its plan is eligible, and what happens is what
-- `apply_plan` does in the database that the authorization leaves. There the plan is approved, its
-- policy asks for no approval and allows an automatic apply, and its target, its entry, its
-- preimage and the rest of its policy are those that were judged; each other plan is as it was; and
-- no table changed but those of the plans, the approvals and the events. A plan is not eligible if its
-- agent is not certified or does not own the target, if the entry is not as it was observed, if
-- the new URL is not the hub's, or if the plan was ever applied or rolled back.
pub auto_apply_outcome :
    (h : Sha256) (c : Clock) (f : Format) (disk : Disk) (o : Options) (id : String) (w : World)
    → let r = auto_apply_plan h c f disk o id w in
      ((x : Error) × (r.0 ≡ err x) × (r.1.files ≡ w.files))
      ⊎ ((p : ApplyPlan) × (now : Database) × IsEligible f id w p
          × Authorizes id p w.db now
          × (r ≡ apply_plan h c f disk o id (record w { db = now })))
unfolding auto_apply_plan
auto_apply_outcome h c f disk o id w = elim (Result-cases (evaluate_auto_apply f id w)) [
  | inl (d, evaluated) ↦ elim (Bool-cases d.eligible) [
    | inl eligible ↦
        let (p, ready) = evaluate-IsEligible f id w d evaluated eligible in
        elim (Result-cases (authorize_auto_apply h c o id d w.db).0) [
          | inl (u, authorized) ↦ inr (
            p,
            (authorize_auto_apply h c o id d w.db).1,
            ready,
            authorize-Authorizes h c o id d p w.db ready.loaded,
            ground arith,
          )
          | inr (x, failed) ↦ inl (x, ground arith, ground arith)
        ]
    | inr refused ↦
        let (x, raised) = reject_auto_apply-raises h c o id d w.db in
        inl (x, ground arith, ground arith)
  ]
  | inr (x, failed) ↦ inl (x, ground arith, ground arith)
]
