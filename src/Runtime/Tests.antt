-- ===== src/Runtime/Tests.antt =====
-- Runs of the stores of sessions and backends, of pool keys and of the registry of handles.
use mathlib.Core.Path.{subst}
use mathlib.Core.Option.{some-injective}
use mcp_multiplex.Prelude.{
  ℕ, ◌+◌, String, true, false, List, [], ◌∷◌, none, some, ◌≡◌, ◌↔◌, refl, sym, apart, ◌==◌,
}
use mcp_multiplex.Json.{Fields, text, number, object, end, field}
use mcp_multiplex.Json.Dict
use mcp_multiplex.Exec.{integrity_error, proxy_error, ok, err, Clock}
use mcp_multiplex.Storage.{Database, BackendSession}
use mcp_multiplex.Samples.{sample_sha, sample_clock, sample_database}
use mcp_multiplex.Runtime.Backends.{
  StartArgs, new_backend, new_backend_id, insert, show, create_starting, update, mark_stopped,
  mark_hot, find_hot_by_pool,
}
use mcp_multiplex.Runtime.Backends.Keys.{
  Call, AreUnique, run_all, starts, stops, heats, run_all-AreUnique,
}
use mcp_multiplex.Runtime.Backends.Pools.{pool_is_taken, find_hot_by_pool-eq}
use mcp_multiplex.Runtime.Pool.{PoolArgs, runtime_pool_key, stable_component}
use mcp_multiplex.Runtime.Pool.Scope.{Scope, HasScope}
use mcp_multiplex.Runtime.Pool.Sharing.{NoCollision, same_key_iff_same_scope}
use mcp_multiplex.Runtime.Rewrite.{
  rewrite_request_id, restore_response_id, new_backend_request_id, restore-rewrite,
  restore_response_id-refuses,
}
use mcp_multiplex.Runtime.Registry.Ownership

abbrev start : StartArgs
start = record {
  catalog_id = "cat_1";
  runtime_pool_key = "global:catalog:cat_1";
  pid = some 41;
  workspace_root = none;
  account_scope = none;
  frontend_session_count = 1;
  backend_id = some "be_1";
}

abbrev calls : List (Clock × Call)
calls = (sample_clock, starts start) ∷ (sample_clock, heats "be_1" (object end) 1) ∷ []

abbrev running : Database
running = run_all sample_sha calls sample_database

-- A started backend that was stopped leaves its pool without one, for good.
stuck_pool :
    create_starting sample_sha sample_clock start
      (run_all sample_sha ((sample_clock, stops "be_1") ∷ []) running)
    ≡ (err integrity_error, run_all sample_sha ((sample_clock, stops "be_1") ∷ []) running)
unfolding create_starting insert new_backend new_backend_id update show mark_stopped mark_hot
stuck_pool = refl

run_all-AreUnique_example : AreUnique running.backends
run_all-AreUnique_example = run_all-AreUnique sample_sha calls sample_database tt

pool_is_taken_example :
    create_starting sample_sha sample_clock start
      (run_all sample_sha ((sample_clock, stops "be_1") ∷ []) running)
    ≡ (err integrity_error, run_all sample_sha ((sample_clock, stops "be_1") ∷ []) running)
pool_is_taken_example =
    pool_is_taken sample_sha ((sample_clock, stops "be_1") ∷ []) sample_clock start running
      (unfold create_starting insert new_backend new_backend_id update show mark_hot in refl)

abbrev hot_row : BackendSession
hot_row = record {
  backend_id = "be_1";
  catalog_id = "cat_1";
  runtime_pool_key = "global:catalog:cat_1";
  state = "hot";
  pid = some 41;
  account_scope = none;
  workspace_root = none;
  backend_initialize_count = 1;
  frontend_session_count = 1;
  initialize_result_json = some (object end);
  created_at = "2026-01-02T03:04:05Z";
  last_used_at = some "2026-01-02T03:04:05Z";
}

find_hot_by_pool-eq_example :
    find_hot_by_pool "cat_1" "global:catalog:cat_1"
      (record sample_database { backends = hot_row ∷ [] })
    ≡ ok (some hot_row)
find_hot_by_pool-eq_example =
    find_hot_by_pool-eq "cat_1" "global:catalog:cat_1" hot_row
      (record sample_database { backends = hot_row ∷ [] }) (refl, refl, tt) refl

abbrev in_workspace : String → PoolArgs
in_workspace root = record {
  catalog_id = "cat_1";
  shareability = "per_workspace";
  frontend_session_id = "fs_1";
  workspace_root = some root;
  agent_id = none;
  account_scope = none;
  remote_url = none;
  transport_type = some "stdio";
}

no_collision : NoCollision sample_sha (in_workspace "/a") (in_workspace "/b")
unfolding stable_component
no_collision = record {
  workspaces = λ a b p q e.
      let pa = some-injective "/a" a p in
      let pb = some-injective "/b" b q in
      absurd (
        apart "/a" "/b" refl (
          subst (λ k. stable_component sample_sha "/a" ≡ stable_component sample_sha k) (sym pb)
            (subst (λ k. stable_component sample_sha k ≡ stable_component sample_sha b) (sym pa)
              e)));
  agents = λ a b p q e. cc (p);
  accounts = λ a b p q e. cc (p);
  sessions = λ e. refl;
}

same_key_iff_same_scope_example :
    ((k : String) × (runtime_pool_key sample_sha (in_workspace "/a") ≡ ok k)
      × (runtime_pool_key sample_sha (in_workspace "/b") ≡ ok k))
    ↔ ((s : Scope) × HasScope (in_workspace "/a") s × HasScope (in_workspace "/b") s)
same_key_iff_same_scope_example =
    same_key_iff_same_scope sample_sha (in_workspace "/a") (in_workspace "/b") no_collision refl

workspace_key : runtime_pool_key sample_sha (in_workspace "/a") ≡ ok "workspace:catalog:cat_1:/a"
unfolding runtime_pool_key stable_component
workspace_key = refl

abbrev request : Fields
request = field "id" (number "7") (field "method" (text "tools/list") end)

abbrev new_id : String
new_id = new_backend_request_id sample_sha sample_clock "fs_1" "be_1" (number "7")

abbrev response : Fields
response = field "id" (text new_id) (field "result" (object end) end)

restore-rewrite_example :
    let (forwarded, rewrite) = rewrite_request_id sample_sha sample_clock request "fs_1" "be_1" in
    (Dict.get "id" forwarded ≡ some (text new_id))
    × ((k : String) → ("id" == k) ≡ false → Dict.get k forwarded ≡ Dict.get k request)
    × ((restored : Fields) × (restore_response_id response rewrite ≡ ok restored)
        × (Dict.get "id" restored ≡ some (number "7"))
        × ((k : String) → ("id" == k) ≡ false → Dict.get k restored ≡ Dict.get k response))
restore-rewrite_example =
    restore-rewrite sample_sha sample_clock "fs_1" "be_1" request response (number "7") refl refl

restore_response_id-refuses_example :
    restore_response_id
      (field "id" (number "7") end)
      (rewrite_request_id sample_sha sample_clock request "fs_1" "be_1").1
    ≡ err (proxy_error "backend response id did not match mapped request id")
restore_response_id-refuses_example =
    restore_response_id-refuses sample_sha sample_clock "fs_1" "be_1" request
      (field "id" (number "7") end) (number "7") (number "7") refl refl (λ e. cc e)

-- Handle 1 is replaced by 2, which is closed at the end.
abbrev handle_calls : List (Ownership.Call ℕ)
handle_calls =
    Ownership.registers "be_1" 1 ∷ Ownership.registers "be_1" 2 ∷ Ownership.closes_all ∷ []

no_handle_lost_example :
    let r = Ownership.run_all handle_calls (record { handles = []; closed = [] }) in
    Ownership.count (λ n. true) (Ownership.handles_of r) + Ownership.count (λ n. true) r.closed
    ≡ Ownership.count (λ n. true) (Ownership.registered handle_calls)
no_handle_lost_example = Ownership.no_handle_lost (λ n. true) handle_calls
