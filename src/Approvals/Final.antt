-- ===== src/Approvals/Final.antt =====
-- Over any sequence of calls: a decision is final, and it was an operator's.
use mathlib.Core.Path.{subst}
use mathlib.Core.Option.{some-injective}
use mcp_multiplex.Prelude.{
  String, true, List, [], ◌∷◌, ◌++◌, Option, none, some, ◌≡◌, ◌≢◌, ◌⊎◌, inl, inr, refl, sym, ap,
  ◌∙◌, arith, ◌==◌, eq_iff, elem, find_row-append_some, Bool-cases, not, has_row, ◌&&◌,
}
use mcp_multiplex.Exec.{Error, integrity_error, ok, err, Sha256, Clock, Result-cases}
use mcp_multiplex.Storage.{Database, PlanRow, Approval}
use mcp_multiplex.Audit.{EventArgs, append}
use mcp_multiplex.Audit.Chain.{append-keeps}
use mcp_multiplex.Approvals.{
  validate_approval, find_plan, find_by_plan, insert, get_or_insert, pending_approval,
  not_required_approval, create_pending, create_not_required, approval_required,
}
use mcp_multiplex.Approvals.Decide.{Decision, decide}
use mcp_multiplex.Approvals.Decisions.{validate_approval-eq, show-eq-ok, find_approval}
use mcp_multiplex.Approvals.Lifecycle.{decide_outcome}

-- The calls that write approvals, by clients in any order, with events appended in between.
pub data Call : Type 0 where
  pending :
      (plan_id actor channel : String) → (created_at expires_at comment : Option String) → Call
  not_required : (plan_id actor channel : String) → Option String → Call
  decision :
      (id : String) → Decision → (actor channel : String) → (at comment : Option String) → Call
  event : EventArgs → Call

abbrev pub run : Sha256 → Clock → Call → Database → Database
run h c (pending p a ch at ex co) db = (create_pending h c p a ch at ex co db).1
run h c (not_required p a ch at) db = (create_not_required h c p a ch at db).1
run h c (decision i d a ch at co) db = (decide h c i d a ch at co db).1
run h c (event e) db = (append h c e db).1

abbrev pub run_all : Sha256 → List (Clock × Call) → Database → Database
run_all h [] db = db
run_all h ((c, call) ∷ calls) db = run_all h calls (run h c call db)

insert_cases :
    (a : Approval) (db : Database)
    → (insert a db ≡ ok (tt, record db { approvals = db.approvals ++ a ∷ [] }))
      ⊎ ((x : Error) × (insert a db ≡ err x))
unfolding insert
insert_cases a db =
    elim (Bool-cases (
      not (has_row (λ (b : Approval). b.approval_id == a.approval_id) db.approvals)
      && has_row (λ (p : PlanRow). p.plan_id == a.plan_id) db.plans)) [
        | inl allowed ↦ inl (rw allowed)
        | inr refused ↦ inr (integrity_error, rw refused)
      ]

-- `db'` is `db`, or has one more approval, which is not decided.
abbrev pub Adds : Database → Database → Type 0
Adds db db' =
    (db' ≡ db)
    ⊎ ((a : Approval) × (elem a.state ("pending" ∷ "not_required" ∷ []) ≡ true)
        × (db' ≡ record db { approvals = db.approvals ++ a ∷ [] }))

get_or_insert-Adds :
    (plan_id : String) (fresh : Approval) (db : Database)
    → elem fresh.state ("pending" ∷ "not_required" ∷ []) ≡ true
    → Adds db (get_or_insert plan_id fresh db).1
unfolding get_or_insert
get_or_insert-Adds plan_id fresh db undecided = elim (Result-cases (find_by_plan plan_id db)) [
  | inl (none, absent) ↦ elim (Result-cases (validate_approval fresh)) [
    | inl (a, valid) ↦ elim (insert_cases fresh db) [
      | inl inserted ↦ inr (fresh, undecided, ground (arith, validate_approval-eq fresh a valid))
      | inr (x, refused) ↦ inl (ground (arith, validate_approval-eq fresh a valid))
    ]
    | inr (x, invalid) ↦ inl (ground arith)
  ]
  | inl (some a, there) ↦ inl (ground arith)
  | inr (x, failed) ↦ inl (ground arith)
]

pub create_pending-Adds :
    (h : Sha256) (c : Clock) (p a ch : String) (at ex co : Option String) (db : Database)
    → Adds db (create_pending h c p a ch at ex co db).1
unfolding create_pending
create_pending-Adds h c p a ch at ex co db = elim (Result-cases (find_plan p db)) [
  | inl (plan, found) ↦ elim (Bool-cases (approval_required plan)) [
    | inl gated ↦
        let fresh = pending_approval h c p a ch at ex co in
        let e : create_pending h c p a ch at ex co db ≡ get_or_insert p fresh db = ground arith in
        subst (λ x. Adds db x.1) (sym e) (get_or_insert-Adds p fresh db refl)
    | inr free ↦ inl (ground arith)
  ]
  | inr (x, unknown) ↦ inl (ground arith)
]

pub create_not_required-Adds :
    (h : Sha256) (c : Clock) (p a ch : String) (at : Option String) (db : Database)
    → Adds db (create_not_required h c p a ch at db).1
unfolding create_not_required
create_not_required-Adds h c p a ch at db = elim (Result-cases (find_plan p db)) [
  | inl (plan, found) ↦ elim (Bool-cases (approval_required plan)) [
    | inl gated ↦ inl (ground arith)
    | inr free ↦
        let fresh = not_required_approval h c p a ch at in
        let e : create_not_required h c p a ch at db ≡ get_or_insert p fresh db = ground arith in
        subst (λ x. Adds db x.1) (sym e) (get_or_insert-Adds p fresh db refl)
  ]
  | inr (x, unknown) ↦ inl (ground arith)
]

Adds-final :
    (id : String) (a : Approval) (db db' : Database)
    → Adds db db'
    → find_approval id db ≡ some a
    → find_approval id db' ≡ some a
Adds-final id a db db' (inl same) found = rw same found
Adds-final id a db db' (inr (b, undecided, added)) found =
    rw added (find_row-append_some (λ (x : Approval). x.approval_id == id) b a db.approvals found)

decide-final :
    (h : Sha256) (c : Clock) (i : String) (d : Decision) (ac ch : String) (at co : Option String)
    (id : String) (a : Approval) (db : Database)
    → find_approval id db ≡ some a
    → a.state ≢ "pending"
    → find_approval id (decide h c i d ac ch at co db).1 ≡ some a
decide-final h c i d ac ch at co id a db found decided =
    elim (decide_outcome h c i d ac ch at co db) [
      | inl (x, failed) ↦ rw failed found
      | inr (b, p, auth, (done, _)) ↦ elim (Bool-cases (i == id)) [
        | inl same ↦
            let other = (show-eq-ok i db b auth.shown).0 in
            let eq = (eq_iff i id).0 same in
            absurd (
              decided (
                ap (λ (x : Approval). x.state)
                  (some-injective a b (sym found ∙ sym (ap (λ k. find_approval k db) eq) ∙ other))
                ∙ auth.pending))
        | inr apart ↦ done.other_approvals id apart ∙ found
      ]
    ]

run-final :
    (h : Sha256) (c : Clock) (call : Call) (id : String) (a : Approval) (db : Database)
    → find_approval id db ≡ some a
    → a.state ≢ "pending"
    → find_approval id (run h c call db) ≡ some a
run-final h c (pending p x ch at ex co) id a db found decided =
    Adds-final id a db _ (create_pending-Adds h c p x ch at ex co db) found
run-final h c (not_required p x ch at) id a db found decided =
    Adds-final id a db _ (create_not_required-Adds h c p x ch at db) found
run-final h c (decision i d x ch at co) id a db found decided =
    decide-final h c i d x ch at co id a db found decided
run-final h c (event e) id a db found decided = rw (append-keeps h c e db) found

-- Whatever calls follow, an approval that is not pending any more stays as it is, every field of
-- it: no later decision, by any channel, changes it.
pub decision_is_final :
    (h : Sha256) (calls : List (Clock × Call)) (id : String) (a : Approval) (db : Database)
    → find_approval id db ≡ some a
    → a.state ≢ "pending"
    → find_approval id (run_all h calls db) ≡ some a
decision_is_final h [] id a db found decided = found
decision_is_final h ((c, call) ∷ calls) id a db found decided =
    decision_is_final h calls id a (run h c call db) (run-final h c call id a db found decided)
      decided
