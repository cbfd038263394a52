-- ===== src/Planning/Groups.antt =====
-- planning/__init__.py: the configurations without the entry of the control plane, and the id of a run.
use mcp_multiplex.Prelude.{
  String, Bool, true, false, not, ◌&&◌, List, [], ◌∷◌, none, some, if◌then◌else◌, ◌==◌, ◌<>◌,
  has_row, select_rows, sort_by, text_leb, take_text,
}
use mcp_multiplex.Json.{Items, text, array, object, nil, cons, field, end}
use mcp_multiplex.Json.Canonical.{canonical}
use mcp_multiplex.Exec.{Result, ok, and_then, Sha256}
use mcp_multiplex.Schemas.Observed.{ObservedEntry}
use mcp_multiplex.Planning.{Differ}
use mcp_multiplex.Planning.Kinds.{generate_missing_control_plane_plan}
use mcp_multiplex.Planning.Entries.{PlanningOutcome}

abbrev pub same_config : ObservedEntry → ObservedEntry → Bool
same_config a b = a.agent_id == b.agent_id && a.config_path == b.config_path

-- One entry for each configuration of an agent, in order of the agent and the path.
first_of_each : List ObservedEntry → List ObservedEntry
first_of_each [] = []
first_of_each (o ∷ entries) =
    let rest = first_of_each entries in if has_row (same_config o) rest then rest else o ∷ rest

abbrev config_order : ObservedEntry → ObservedEntry → Bool
config_order a b =
    if a.agent_id == b.agent_id
    then text_leb a.config_path b.config_path
    else text_leb a.agent_id b.agent_id

-- The sort key of `_config_snapshot_hash`
abbrev snapshot_order : ObservedEntry → ObservedEntry → Bool
snapshot_order a b =
    if a.agent_id == b.agent_id && a.config_path == b.config_path
    then if a.mount_name == b.mount_name
      then text_leb a.entry_hash b.entry_hash
      else text_leb a.mount_name b.mount_name
    else config_order a b

abbrev snapshot_items : List ObservedEntry → Items
snapshot_items [] = nil
snapshot_items (o ∷ entries) =
    cons
      (object (
        field "observed_entry_id" (text o.observed_entry_id) (
          field "entry_hash" (text o.entry_hash) (
            field "mount_name" (text o.mount_name)
              (field "target_path" (text o.config_path) end)))))
      (snapshot_items entries)

unfoldable pub config_snapshot_hash : Sha256 → List ObservedEntry → String
config_snapshot_hash h entries =
    "sha256:" <> h.of_json (canonical (array (snapshot_items (sort_by snapshot_order entries))))

-- The configurations of `_observed_groups_missing_control_plane`, each by one of its entries.
unfoldable pub missing_control_plane : List ObservedEntry → List ObservedEntry
unfolding first_of_each
missing_control_plane entries =
    select_rows
      (λ g.
        not (has_row (λ (o : ObservedEntry). same_config g o && o.mount_name == "mcp_hub") entries))
      (sort_by config_order (first_of_each entries))

-- The outcome of a configuration without the control plane's entry.
unfoldable pub plan_control_plane :
    Sha256 → Differ → String → List ObservedEntry → ObservedEntry → Result PlanningOutcome
plan_control_plane h d created_at entries g =
    let preimage = config_snapshot_hash h (select_rows (same_config g) entries) in
    and_then (generate_missing_control_plane_plan h d g.agent_id g.config_path preimage created_at)
      λ p. ok (record {
        action = "planned_missing_control_plane";
        observed_entry_id = p.observed_entry_id;
        agent_id = p.agent_id;
        target_path = p.target_path;
        classification = "missing_control_plane";
        plan = some p;
        match = none;
        candidate_stage = none;
        reason = "mcp_hub control-plane entry is absent";
      })

unfoldable pub plan_groups :
    Sha256
    → Differ
    → String
    → List ObservedEntry
    → List ObservedEntry
    → Result (List PlanningOutcome)
plan_groups h d created_at entries [] = ok []
plan_groups h d created_at entries (g ∷ groups) =
    and_then (plan_control_plane h d created_at entries g)
      λ first. and_then (plan_groups h d created_at entries groups) λ rest. ok (first ∷ rest)

-- `_run_id`
run_order : ObservedEntry → ObservedEntry → Bool
run_order a b =
    if same_config a b then text_leb a.observed_entry_id b.observed_entry_id else config_order a b

run_items : List ObservedEntry → Items
run_items [] = nil
run_items (o ∷ entries) =
    cons
      (object (
        field "observed_entry_id" (text o.observed_entry_id)
          (field "entry_hash" (text o.entry_hash) end)))
      (run_items entries)

unfoldable pub plan_run_id : Sha256 → List ObservedEntry → String
unfolding run_order run_items
plan_run_id h entries =
    "run_plan_"
    <> take_text 24 (h.of_json (canonical (array (run_items (sort_by run_order entries)))))

-- The groups, where they are asked for.
abbrev pub control_plane_outcomes :
    Sha256 → Differ → Bool → String → List ObservedEntry → Result (List PlanningOutcome)
control_plane_outcomes h d false created_at entries = ok []
control_plane_outcomes h d true created_at entries =
    plan_groups h d created_at entries (missing_control_plane entries)
