-- ===== src/Apply.antt =====
-- apply/__init__.py: the plan, its checks, the files and the backups. The other modules build on it.
pub mod Backups
pub mod Run
pub mod Files
pub mod Restores
pub mod Outcome
pub mod Auto
pub mod Samples
mod Tests
use mcp_multiplex.Prelude.{
  String, ℕ, Bool, true, false, not, ◌&&◌, ◌||◌, List, [], ◌∷◌, ◌++◌, Option, none, some,
  if◌then◌else◌, ◌==◌, ◌<>◌, text_or, truthy, truthy?, elem, has_row, find_row, select_rows,
  update_rows, sort_by, text_leb, take_text, starts_with,
}
use mcp_multiplex.Json.{Json, Fields, boolean, text, object, end}
use mcp_multiplex.Json.Dict
use mcp_multiplex.Exec.{
  Error, apply_error, key_error, os_error, value_error, integrity_error, Result, ok, err, and_then,
  check, require, refuse_if, Action, pure, lift, raise, gets, reads, modify, transaction, Sha256,
  Clock, ◌>>=◌, ◌>>◌,
}
use mcp_multiplex.Storage.{Database, PlanRow, Approval, ConfigBackup}
use mcp_multiplex.Approvals

-- The database, and the files by path; a file is its bytes.
pub record World : Type 0 where
  pub db : Database
  pub files : List (String × String)

-- A call that uses the database alone.
abbrev pub on_db : {A : Type 0} → Action Database A → Action World A
on_db m w = let (r, db) = m w.db in (r, record w { db = db })

abbrev pub read_file : String → List (String × String) → Option String
read_file path [] = none
read_file path ((p, content) ∷ rest) = if p == path then some content else read_file path rest

abbrev pub write_file : String → String → List (String × String) → List (String × String)
write_file path content [] = (path, content) ∷ []
write_file path content ((p, old) ∷ rest) =
    let tail = write_file path content rest in
    if p == path then (path, content) ∷ rest else (p, old) ∷ tail

-- Which writes the disk accepts: of the backup, of the new configuration, of the restored one.
pub record Disk : Type 0 where
  pub takes_backup : Bool
  pub takes_config : Bool
  pub takes_restored : Bool

-- `ApplyPlan`
pub record ApplyPlan : Type 0 where
  pub plan_id : String
  pub plan_type : String
  pub status : String
  pub agent_id : Option String
  pub target_path : String
  pub observed_entry_id : String
  pub policy : Fields
  pub expected_preimage_hash : String

-- adapters.ObservedEntry: the fields that are compared
pub record ObservedEntry : Type 0 where
  pub observed_entry_id : String
  pub entry_hash : String
  pub mount_name : String
  pub transport : String
  pub url : Option String
  pub command : Option String
  pub args : List String

-- What the adapters do for the format of a plan's target: `_parse_config_for_plan` of a file's
-- content, `_rewrite_known_direct` and `_validate_rewritten_config`; and the UTF-8 of a text.
pub record Format : Type 0 where
  pub parse : ApplyPlan → (phase : String) → Option String → Result (List ObservedEntry)
  pub rewrite : ApplyPlan → String → Result String
  pub validate : ApplyPlan → String → Result (Unit {0})
  pub decode : String → Result String
  pub encode : String → String

unfoldable pub approval_required : ApplyPlan → Bool
approval_required p = elim (Dict.get "approval_required" p.policy) [
  | some (boolean b) ↦ b
  | _ ↦ false
]

-- `_load_apply_plan`, of the row that was found
unfoldable pub plan_of_row : PlanRow → Result ApplyPlan
plan_of_row r =
    if truthy? r.target_path && (truthy? r.observed_entry_id && truthy? r.expected_preimage_hash)
    then ok (record {
      plan_id = r.plan_id;
      plan_type = r.plan_type;
      status = r.status;
      agent_id = r.agent_id;
      target_path = text_or r.target_path "";
      observed_entry_id = text_or r.observed_entry_id "";
      policy = r.policy;
      expected_preimage_hash = text_or r.expected_preimage_hash "";
    })
    else err (apply_error "plan is missing target_path, observed_entry_id, or preimage hash")

unfoldable pub load_apply_plan : String → Database → Result ApplyPlan
load_apply_plan plan_id db =
    and_then
      (require (find_row (λ (p : PlanRow). p.plan_id == plan_id) db.plans)
        (apply_error ("unknown plan: " <> plan_id)))
      plan_of_row

abbrev approved? : Option Approval → ApplyPlan → Bool
approved? none p = false
approved? (some a) p = a.state == "approved" && p.status == "approved"

-- `_require_apply_allowed`
unfoldable pub require_apply_allowed : ApplyPlan → Database → Result (Unit {0})
require_apply_allowed p db =
    check (refuse_if (p.status == "rejected") (apply_error "rejected plan cannot apply")) (
      if approval_required p
      then and_then (Approvals.find_by_plan p.plan_id db) (λ approval.
        refuse_if (not (approved? approval p))
          (apply_error "approval required plans cannot apply without approval"))
      else refuse_if (not (elem p.status ("draft" ∷ "approved" ∷ [])))
          (apply_error ("plan status cannot apply: " <> p.status)))

unfoldable pub policy_after : ApplyPlan → Result Fields
policy_after p = elim (Dict.get "after" p.policy) [
  | some (object fs) ↦ ok fs
  | _ ↦ err (apply_error "plan policy is missing after projection")
]

-- The loop of `_verify_preimage`.
preimage_of : ApplyPlan → List ObservedEntry → Result (Unit {0})
preimage_of p [] = err (apply_error "expected observed entry is missing from pre-image")
preimage_of p (e ∷ rest) =
    let later = preimage_of p rest in
    if e.observed_entry_id == p.observed_entry_id
    then refuse_if (not (e.entry_hash == p.expected_preimage_hash))
        (apply_error "expected pre-image hash does not match observed entry")
    else later

unfoldable pub verify_preimage : Format → ApplyPlan → Option String → Result (Unit {0})
unfolding preimage_of
verify_preimage f p content = and_then (f.parse p "pre-image" content) (preimage_of p)

abbrev same_text : Option Json → String → Bool
same_text (some (text s)) t = s == t
same_text _ t = false

abbrev no_command : Option String → List String → Bool
no_command none [] = true
no_command none (a ∷ args) = false
no_command (some c) args = false

-- The loop of `_verify_post_state`.
post_state_of : Option Json → String → List ObservedEntry → Result (Unit {0})
post_state_of mount url [] =
    err (apply_error "post-write verification failed: target entry missing")
post_state_of mount url (e ∷ rest) =
    let later = post_state_of mount url rest in
    if same_text mount e.mount_name
    then (if e.transport == "streamable_http" && text_or e.url "" == url
        then refuse_if (not (no_command e.command e.args))
            (apply_error "post-write verification failed: direct command remains")
        else err (apply_error "post-write verification failed: entry is not Hub-routed"))
    else later

abbrev url_of : Fields → Option String
url_of after = elim (Dict.get "url" after) [
  | some (text s) ↦ (if truthy s then some s else none)
  | _ ↦ none
]

unfoldable pub verify_post_state : Format → ApplyPlan → Option String → Result (Unit {0})
unfolding post_state_of
verify_post_state f p content = and_then (policy_after p) λ after.
    and_then (require (url_of after) (apply_error "plan policy is missing expected post-state url"))
      λ url.
        and_then (f.parse p "post-image" content) (post_state_of (Dict.get "mount_name" after) url)
