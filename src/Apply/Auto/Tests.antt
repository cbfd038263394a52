-- ===== src/Apply/Auto/Tests.antt =====
-- A run of an automatic apply.
use mathlib.Core.Option.{some-injective}
use mcp_multiplex.Prelude.{true, false, [], ◌∷◌, none, some, ◌≡◌, ◌⊎◌, refl, map}
use mcp_multiplex.Json.{text, object, field, end, array, cons, nil, boolean}
use mcp_multiplex.Exec.{ok, err, Error}
use mcp_multiplex.Samples.{sample_sha, sample_clock, sample_database}
use mcp_multiplex.Audit.{query}
use mcp_multiplex.Apply.{
  World, ApplyPlan, ObservedEntry, Format, approval_required, plan_of_row, load_apply_plan,
  policy_after, verify_preimage,
}
use mcp_multiplex.Apply.Backups.{list_backups}
use mcp_multiplex.Apply.Run.{apply_plan}
use mcp_multiplex.Apply.Auto.{policy_before, evaluate_auto_apply}
use mcp_multiplex.Apply.Auto.Authorize.{auto_apply_plan}
use mcp_multiplex.Apply.Auto.Authorized.{Authorizes}
use mcp_multiplex.Apply.Auto.Guards.{IsEligible, auto_apply_outcome}
use mathlib.Core.Option
use mcp_multiplex.Storage.{Database, PlanRow}
use mcp_multiplex.Apply.Samples.{target, row, entry, format, disk, options}

-- A plan that waits for approval, of a certified agent that owns the target.
abbrev auto_row : PlanRow
auto_row = record row {
  status = "pending_approval";
  agent_id = some "codex";
  policy =
      field "reasons"
        (array (
          cons (text "known_direct_backend_match") (
            cons (text "match_confidence:high")
              (cons (text "match_reason:exact_backend_fingerprint") nil))))
        (field "before"
          (object (field "transport" (text "stdio") (field "command" (text "npx") end)))
          (field "after"
            (object
              (field "mount_name" (text "fs") (field "url" (text "http://127.0.0.1:30000/fs") end)))
            (field "approval_required" (boolean true) end)));
}

abbrev auto_world : World
auto_world = record {
  db = record sample_database {
    agents =
        record {
          agent_id = "codex";
          agent_kind = "codex";
          auth_token_ref = none;
          certification_level = "certified";
          last_seen_at = none;
        }
        ∷ [];
    config_paths =
        record { agent_id = "codex"; path = target; precedence = 0; is_project_shared = false }
        ∷ [];
    plans = auto_row ∷ [];
    approvals = [];
  };
  files = (target, "old") ∷ [];
}

abbrev auto_format : Format
auto_format = record format {
  parse = λ p phase content. ok (
      map
        (λ (e : ObservedEntry). record e {
          url = Option.map (λ u. "http://127.0.0.1:30000/fs") e.url;
        })
        (entry content));
}

auto_eligible :
    evaluate_auto_apply auto_format "plan_1" auto_world
    ≡ ok (record {
      plan_id = "plan_1";
      eligible = true;
      reasons = "certified_safe_known_direct" ∷ [];
    })
unfolding approval_required plan_of_row load_apply_plan policy_before policy_after verify_preimage
    list_backups evaluate_auto_apply query
auto_eligible = refl

auto_apply_outcome_example :
    let r =
      auto_apply_plan sample_sha sample_clock auto_format disk (options none) "plan_1" auto_world in
    ((x : Error) × (r.0 ≡ err x) × (r.1.files ≡ auto_world.files))
    ⊎ ((p : ApplyPlan) × (now : Database) × IsEligible auto_format "plan_1" auto_world p
        × Authorizes "plan_1" p auto_world.db now
        × (r
            ≡ apply_plan sample_sha sample_clock auto_format disk
                (options none)
                "plan_1"
                (record auto_world { db = now })))
auto_apply_outcome_example =
    auto_apply_outcome sample_sha sample_clock auto_format disk (options none) "plan_1" auto_world
