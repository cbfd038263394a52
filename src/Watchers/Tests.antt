-- ===== src/Watchers/Tests.antt =====
-- Runs of the watcher on one file.
use mcp_multiplex.Prelude.{◌+◌, true, [], ◌∷◌, ◌++◌, Option, none, some, ◌≡◌, refl, leb}
use mcp_multiplex.Watchers.{
  FileSignature, PendingChange, PathState, file_change, startup, Watcher, observe, stable_paths,
  run_startup_audit, audit_periodic, poll,
}
use mcp_multiplex.Watchers.Debounce.{
  watch, all_see, debounced, stable_change_fires_once, undone_change_fires_twice,
}

abbrev old : Option FileSignature
old = some (record { mtime_ns = 1; size = 10; digest = "a" })

abbrev new : Option FileSignature
new = some (record { mtime_ns = 2; size = 11; digest = "b" })

abbrev idle : PathState
idle = record { path = "/c"; last = old; pending = none }

abbrev changed : PathState
changed = record {
  path = "/c";
  last = old;
  pending = some (record { first_seen_at = 10; signature = new });
}

abbrev watcher : Watcher
watcher = record {
  targets = record { path = "/c"; agent_id = "codex" } ∷ [];
  debounce = 5;
  period = 300;
  paths = idle ∷ [];
  next_periodic_at = none;
  run_counter = 0;
  runs = [];
}

poll_run :
    (poll (λ p. new) 15 (poll (λ p. new) 10 (run_startup_audit 0 watcher))).runs
    ≡ record { trigger = startup; targets = watcher.targets; number = 1 }
      ∷ record { trigger = file_change; targets = watcher.targets; number = 2 }
      ∷ []
unfolding poll stable_paths observe audit_periodic run_startup_audit
poll_run = refl

debounced_example :
    (p : PendingChange) × (changed.pending ≡ some p) × (leb (p.first_seen_at + 5) 15 ≡ true)
debounced_example = debounced 15 5 new changed (unfold observe in refl)

stable_change_fires_once_example :
    (watch 5 (all_see new (10 ∷ (12 ∷ []) ++ (16 ∷ 20 ∷ []))) idle).0 ≡ 16 ∷ []
stable_change_fires_once_example =
    stable_change_fires_once 5 10 16 new (12 ∷ []) (20 ∷ []) idle refl refl (refl, tt) refl

undone_change_fires_twice_example :
    (watch 5 (all_see old (15 ∷ 16 ∷ 21 ∷ [])) changed).0 ≡ 15 ∷ 21 ∷ []
undone_change_fires_twice_example =
    undone_change_fires_twice 5 10 15 16 21 old new changed refl refl refl refl refl
