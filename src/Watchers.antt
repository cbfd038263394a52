-- ===== src/Watchers.antt =====
-- observability/watchers.py: the polling watcher. Times are whole ticks. An audit that a poll
-- starts is recorded with its trigger, its targets and its number; the audit itself is elsewhere.
pub mod Debounce
mod Tests
use mcp_multiplex.Prelude.{
  ℕ, ◌+◌, ◌-◌, String, Bool, true, false, ◌&&◌, List, [], ◌∷◌, ◌++◌, Option, none, some,
  if◌then◌else◌, eqb, leb, ◌==◌, elem, find_row, update_rows,
}

-- `FileSignature`
pub record FileSignature : Type 0 where
  pub mtime_ns : ℕ
  pub size : ℕ
  pub digest : String

-- `WatchedConfigPath`: the path and the agent
pub record Target : Type 0 where
  pub path : String
  pub agent_id : String

-- `PendingChange`
pub record PendingChange : Type 0 where
  pub first_seen_at : ℕ
  pub signature : Option FileSignature

-- What `_last_signatures` and `_pending` hold for a path.
pub record PathState : Type 0 where
  pub path : String
  pub last : Option FileSignature
  pub pending : Option PendingChange

pub data Trigger : Type 0 where
  startup file_change periodic : Trigger

pub record AuditRun : Type 0 where
  pub trigger : Trigger
  pub targets : List Target
  pub number : ℕ

-- `PollingAuditWatcher`, with the audits that it started, the latest last
pub record Watcher : Type 0 where
  pub targets : List Target
  pub debounce : ℕ
  pub period : ℕ
  pub paths : List PathState
  pub next_periodic_at : Option ℕ
  pub run_counter : ℕ
  pub runs : List AuditRun

abbrev pub same_signature : Option FileSignature → Option FileSignature → Bool
same_signature none none = true
same_signature none (some b) = false
same_signature (some a) none = false
same_signature (some a) (some b) =
    eqb a.mtime_ns b.mtime_ns && (eqb a.size b.size && a.digest == b.digest)

-- The file is as it was audited last.
abbrev pub settle : (now debounce : ℕ) → PathState → Option PendingChange → Bool × PathState
settle now debounce s none = (false, s)
settle now debounce s (some p) =
    if leb (p.first_seen_at + debounce) now
    then (true, record s { last = p.signature; pending = none })
    else (false, s)

-- The file differs from what was audited last.
abbrev pub await :
    (now debounce : ℕ) → Option FileSignature → PathState → Option PendingChange → Bool × PathState
await now debounce sig s none =
    (false, record s { pending = some (record { first_seen_at = now; signature = sig }) })
await now debounce sig s (some p) =
    if same_signature p.signature sig
    then (if leb (p.first_seen_at + debounce) now
        then (true, record s { last = sig; pending = none })
        else (false, s))
    else (false, record s { pending = some (record { first_seen_at = now; signature = sig }) })

-- The body of the loop of `_stable_changed_targets`: is the path stable, and its state then.
unfoldable pub observe : (now debounce : ℕ) → Option FileSignature → PathState → Bool × PathState
observe now debounce sig s =
    if same_signature sig s.last
    then settle now debounce s s.pending
    else await now debounce sig s s.pending

abbrev pub state_of : String → List PathState → PathState
state_of path states = elim (find_row (λ (s : PathState). s.path == path) states) [
  | some s ↦ s
  | none ↦ record { path = path; last = none; pending = none }
]

-- The loop: the paths that are stable, and the states; `file path` is the signature of a file.
unfoldable pub stable_paths :
    (file : String → Option FileSignature)
    → (now debounce : ℕ) → List Target
    → List PathState
    → List String × List PathState
stable_paths file now debounce [] states = ([], states)
stable_paths file now debounce (t ∷ targets) states =
    let (stable, s) = observe now debounce (file t.path) (state_of t.path states) in
    let (rest, after) =
      stable_paths file now debounce targets
        (update_rows (λ (x : PathState). x.path == t.path) (λ x. s) states) in
    (if stable then t.path ∷ rest else rest, after)

abbrev pub changed_targets : List String → List Target → List Target
changed_targets paths [] = []
changed_targets paths (t ∷ targets) =
    let rest = changed_targets paths targets in if elem t.path paths then t ∷ rest else rest

-- `_run_audit`
abbrev pub run_audit : Trigger → List Target → Watcher → Watcher
run_audit trigger targets w = record w {
  run_counter = w.run_counter + 1;
  runs = w.runs ++ record { trigger = trigger; targets = targets; number = w.run_counter + 1 } ∷ [];
}

unfoldable pub run_startup_audit : ℕ → Watcher → Watcher
run_startup_audit now w =
    run_audit startup w.targets (record w { next_periodic_at = some (now + w.period) })

abbrev pub audit_changes : List Target → Watcher → Watcher
audit_changes [] w = w
audit_changes (t ∷ targets) w = run_audit file_change (t ∷ targets) w

abbrev pub due_at : ℕ → ℕ → Option ℕ → ℕ
due_at now period none = now + period
due_at now period (some t) = t

-- The second half of `poll`: the periodic audit.
unfoldable pub audit_periodic : ℕ → Watcher → Watcher
audit_periodic now w =
    let due = due_at now w.period w.next_periodic_at in
    if leb due now
    then record (run_audit periodic w.targets w) { next_periodic_at = some (now + w.period) }
    else record w { next_periodic_at = some due }

unfoldable pub poll : (String → Option FileSignature) → ℕ → Watcher → Watcher
poll file now w =
    let (stable, states) = stable_paths file now w.debounce w.targets w.paths in
    audit_periodic now
      (audit_changes (changed_targets stable w.targets) (record w { paths = states }))
