-- ===== src/Approvals/Operator.antt =====
-- No approval is decided but through an operator's channel.
use mathlib.Core.Path.{subst}
use mcp_multiplex.Prelude.{
  String, true, List, [], ◌∷◌, ◌≡◌, refl, sym, elem_two, inl, inr, Option, some, is_some, elem, All,
  All-append, All-update, All-find, text_or, ◌==◌,
}
use mcp_multiplex.Exec.{Sha256, Clock}
use mcp_multiplex.Storage.{Database, Approval}
use mcp_multiplex.Audit.Chain.{append-keeps}
use mcp_multiplex.Approvals.{decision_channels}
use mcp_multiplex.Approvals.Decide.{Decision, decide, record_decision, with_decision, decided_as}
use mcp_multiplex.Approvals.Decisions.{decide_cases, commit_decision-tables, find_approval}
use mcp_multiplex.Approvals.Final.{
  Call, pending, not_required, decision, event, run, run_all, Adds, create_pending-Adds,
  create_not_required-Adds,
}

abbrev pub decided_states : List String
decided_states = "approved" ∷ "rejected" ∷ []

-- A decided approval has a time, and the channel of an operator.
pub record IsOperated (a : Approval) : Type 0 where
  pub channel : elem a.state decided_states ≡ true → elem a.channel decision_channels ≡ true
  pub time : elem a.state decided_states ≡ true → is_some a.decision_at ≡ true

undecided_state :
    (s : String)
    → elem s ("pending" ∷ "not_required" ∷ []) ≡ true
    → elem s decided_states ≡ true
    → ⊥
undecided_state s u d = elim (elem_two s "pending" "not_required" u) [
  | inl e ↦ cc (subst (λ k. elem k decided_states ≡ true) (sym e) d)
  | inr e ↦ cc (subst (λ k. elem k decided_states ≡ true) (sym e) d)
]

Adds-IsOperated :
    (db db' : Database) → Adds db db' → All IsOperated db.approvals → All IsOperated db'.approvals
Adds-IsOperated db db' (inl same) all = rw same all
Adds-IsOperated db db' (inr (a, undecided, added)) all = rw added (
    All-append IsOperated db.approvals a all (record {
      channel = λ d. absurd (undecided_state a.state undecided d);
      time = λ d. absurd (undecided_state a.state undecided d);
    }))

decide-IsOperated :
    (h : Sha256) (c : Clock) (i : String) (d : Decision) (ac ch : String) (at co : Option String)
    (db : Database)
    → All IsOperated db.approvals
    → All IsOperated (decide h c i d ac ch at co db).1.approvals
unfolding record_decision
decide-IsOperated h c i d ac ch at co db all = elim (decide_cases h c i d ac ch at co db) [
  | inl (x, failed) ↦ rw failed all
  | inr (a, p, auth, committed) ↦
      let time = text_or at c.now in
      let e = decided_as a d ac ch time co in
      rw (committed, (commit_decision-tables h c e p time db).0)
        (All-update IsOperated (λ r. r.approval_id == e.approval_id) (with_decision e) db.approvals
          (λ r m o. record { channel = λ s. auth.operator; time = λ s. refl }) all)
]

run-IsOperated :
    (h : Sha256) (c : Clock) (call : Call) (db : Database)
    → All IsOperated db.approvals
    → All IsOperated (run h c call db).approvals
run-IsOperated h c (pending p x ch at ex co) db all =
    Adds-IsOperated db _ (create_pending-Adds h c p x ch at ex co db) all
run-IsOperated h c (not_required p x ch at) db all =
    Adds-IsOperated db _ (create_not_required-Adds h c p x ch at db) all
run-IsOperated h c (decision i d x ch at co) db all = decide-IsOperated h c i d x ch at co db all
run-IsOperated h c (event e) db all = rw (append-keeps h c e db) all

run_all-IsOperated :
    (h : Sha256) (calls : List (Clock × Call)) (db : Database)
    → All IsOperated db.approvals
    → All IsOperated (run_all h calls db).approvals
run_all-IsOperated h [] db all = all
run_all-IsOperated h ((c, call) ∷ calls) db all =
    run_all-IsOperated h calls (run h c call db) (run-IsOperated h c call db all)

-- If each decided approval of a database has a time and the channel of an operator, so has each
-- one that is found after any calls; a model's channel never decides.
pub decided_by_operator :
    (h : Sha256) (calls : List (Clock × Call)) (id : String) (a : Approval) (db : Database)
    → All IsOperated db.approvals
    → find_approval id (run_all h calls db) ≡ some a
    → elem a.state decided_states ≡ true
    → (elem a.channel decision_channels ≡ true) × (is_some a.decision_at ≡ true)
decided_by_operator h calls id a db all found decided =
    let o = All-find IsOperated _ a _ (run_all-IsOperated h calls db all) found in
    (o.channel decided, o.time decided)
