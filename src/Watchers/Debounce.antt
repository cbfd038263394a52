-- ===== src/Watchers/Debounce.antt =====
-- When a change of a file starts an audit.
use mcp_multiplex.Prelude.{
  ℕ, ◌+◌, true, false, List, [], ◌∷◌, ◌++◌, Option, none, some, ◌≡◌, inl, inr, refl, arith,
  if◌then◌else◌, leb, eq_iff, Bool-cases, Option-cases,
}
use mcp_multiplex.Watchers.{FileSignature, PendingChange, PathState, same_signature, observe}

pub same_signature_refl : (s : Option FileSignature) → same_signature s s ≡ true
same_signature_refl none = refl
same_signature_refl (some a) = ground (arith, eq_iff a.digest a.digest)

-- A path is looked at in each poll: the time and the signature that the file has then.
abbrev pub watch : ℕ → List (ℕ × Option FileSignature) → PathState → List ℕ × PathState
watch debounce [] s = ([], s)
watch debounce ((now, sig) ∷ polls) s =
    let (stable, s') = observe now debounce sig s in
    let (rest, last) = watch debounce polls s' in (if stable then now ∷ rest else rest, last)

-- The polls of the times, each of which finds the file with the one signature.
abbrev pub all_see : Option FileSignature → List ℕ → List (ℕ × Option FileSignature)
all_see sig [] = []
all_see sig (t ∷ ts) = (t, sig) ∷ all_see sig ts

-- All times are before the limit.
abbrev pub AllBefore : ℕ → List ℕ → Type 0
AllBefore limit [] = Unit {0}
AllBefore limit (t ∷ ts) = (leb limit t ≡ false) × AllBefore limit ts

-- No audit is started earlier than the debounce time after the pending change was first seen.
pub debounced :
    (now debounce : ℕ) (sig : Option FileSignature) (s : PathState)
    → (observe now debounce sig s).0 ≡ true
    → (p : PendingChange) × (s.pending ≡ some p) × (leb (p.first_seen_at + debounce) now ≡ true)
unfolding observe
debounced now debounce sig s fired = elim (Option-cases s.pending) [
  | inl quiet ↦ elim (Bool-cases (same_signature sig s.last)) [
    | inl same ↦ ground arith
    | inr other ↦ ground arith
  ]
  | inr (p, waiting) ↦ elim (Bool-cases (leb (p.first_seen_at + debounce) now)) [
    | inl due ↦ (p, waiting, due)
    | inr early ↦ elim (Bool-cases (same_signature sig s.last)) [
      | inl same ↦ ground arith
      | inr other ↦ elim (Bool-cases (same_signature p.signature sig)) [
        | inl kept ↦ ground arith
        | inr changed ↦ ground arith
      ]
    ]
  ]
]

-- The state of a path whose change was first seen at a time.
abbrev pub waiting_since : ℕ → Option FileSignature → PathState → PathState
waiting_since t sig s = record s { pending = some (record { first_seen_at = t; signature = sig }) }

quiet :
    (debounce : ℕ) (sig : Option FileSignature) (ts : List ℕ) (s : PathState)
    → s.pending ≡ none
    → same_signature sig s.last ≡ true
    → (watch debounce (all_see sig ts) s).0 ≡ []
unfolding observe
quiet debounce sig [] s none_waits same = refl
quiet debounce sig (t ∷ ts) s none_waits same =
    let rest = quiet debounce sig ts s none_waits same in ground arith

waits :
    (debounce t0 : ℕ) (sig : Option FileSignature) (ts : List ℕ) (rest : List ℕ) (s : PathState)
    → same_signature sig s.last ≡ false
    → AllBefore (t0 + debounce) ts
    → (watch debounce (all_see sig (ts ++ rest)) (waiting_since t0 sig s)).0
      ≡ (watch debounce (all_see sig rest) (waiting_since t0 sig s)).0
unfolding observe
waits debounce t0 sig [] rest s other before = refl
waits debounce t0 sig (t ∷ ts) rest s other before =
    let later = waits debounce t0 sig ts rest s other before.1 in
    ground (arith, same_signature_refl sig)

-- A change that stays starts exactly one audit: at the first poll that is the debounce time or
-- more after the poll that first saw it, whatever polls came between and come afterwards.
pub stable_change_fires_once :
    (debounce t0 t1 : ℕ) (sig : Option FileSignature) (between later : List ℕ) (s : PathState)
    → s.pending ≡ none
    → same_signature sig s.last ≡ false
    → AllBefore (t0 + debounce) between
    → leb (t0 + debounce) t1 ≡ true
    → (watch debounce (all_see sig (t0 ∷ between ++ (t1 ∷ later))) s).0 ≡ t1 ∷ []
unfolding observe
stable_change_fires_once debounce t0 t1 sig between later s none_waits other before due =
    let fired =
      quiet debounce sig later (record s { last = sig; pending = none }) refl
        (same_signature_refl sig) in
    let waited = waits debounce t0 sig between (t1 ∷ later) s other before in
    ground (arith, same_signature_refl sig)

-- A change that is undone before it was audited starts an audit all the same, and then another
-- one, of a file that each poll finds as it was audited before the change.
pub undone_change_fires_twice :
    (debounce t0 t1 t2 t3 : ℕ) (old new : Option FileSignature) (s : PathState)
    → s.last ≡ old
    → s.pending ≡ some (record { first_seen_at = t0; signature = new })
    → same_signature old new ≡ false
    → leb (t0 + debounce) t1 ≡ true
    → leb (t2 + debounce) t3 ≡ true
    → (watch debounce (all_see old (t1 ∷ t2 ∷ t3 ∷ [])) s).0 ≡ t1 ∷ t3 ∷ []
unfolding observe
undone_change_fires_twice debounce t0 t1 t2 t3 old new s audited pending apart due1 due3 =
    ground (arith, same_signature_refl old)
