-- ===== src/Audit/Tamper.antt =====
-- What the check of the hash chain sees of a log that was changed afterwards.
use mcp_multiplex.Prelude.{String, List, [], ◌∷◌, ◌++◌, Option, none, some, ◌≡◌, ◌≢◌, sym, ◌∙◌}
use mcp_multiplex.Exec.{Sha256}
use mcp_multiplex.Storage.{EventRow}
use mcp_multiplex.Audit.{event_hash_payload, compute_event_hash, validate_hash_chain}
use mcp_multiplex.Audit.Chain.{IsChained, validate_hash_chain-IsChained}

-- The part of a chained log from one row on.
IsChained-from :
    (h : Sha256) (p : Option String) (pre rows : List EventRow)
    → IsChained h p (pre ++ rows)
    → (q : Option String) × IsChained h q rows
IsChained-from h p [] rows c = (p, c)
IsChained-from h p (r ∷ pre) rows c = IsChained-from h (some r.event_hash) pre rows c.2

-- The row before a place decides what the row at the place must name.
named_by :
    (h : Sha256) (p : Option String) (pre a b : List EventRow) (r s : EventRow)
    → IsChained h p (pre ++ r ∷ a)
    → IsChained h p (pre ++ s ∷ b)
    → r.previous_event_hash ≡ s.previous_event_hash
named_by h p [] a b r s c d = c.0 ∙ sym d.0
named_by h p (x ∷ pre) a b r s c d = named_by h (some x.event_hash) pre a b r s c.2 d.2

-- In a valid log, a row whose content was changed under its stored hash, to one with another
-- digest, makes the check report a finding.
pub change_detected :
    (h : Sha256) (pre post : List EventRow) (r s : EventRow)
    → validate_hash_chain h (pre ++ r ∷ post) ≡ []
    → s.event_hash ≡ r.event_hash
    → compute_event_hash h (event_hash_payload s) ≢ compute_event_hash h (event_hash_payload r)
    → validate_hash_chain h (pre ++ s ∷ post) ≢ []
change_detected h pre post r s valid same differs e =
    let (p, c) =
      IsChained-from h none pre (r ∷ post)
        ((validate_hash_chain-IsChained h (pre ++ r ∷ post)).0 valid) in
    let (q, d) =
      IsChained-from h none pre (s ∷ post)
        ((validate_hash_chain-IsChained h (pre ++ s ∷ post)).0 e) in
    differs (sym d.1 ∙ same ∙ c.1)

-- In a valid log, a row that was taken out makes the check report a finding, if a row follows it
-- and it does not name its own hash as that of the row before.
pub removal_detected :
    (h : Sha256) (pre post : List EventRow) (r s : EventRow)
    → validate_hash_chain h (pre ++ r ∷ s ∷ post) ≡ []
    → r.previous_event_hash ≢ some r.event_hash
    → validate_hash_chain h (pre ++ s ∷ post) ≢ []
removal_detected h pre post r s valid distinct e =
    let chained = (validate_hash_chain-IsChained h (pre ++ r ∷ s ∷ post)).0 valid in
    let (p, c) = IsChained-from h none pre (r ∷ s ∷ post) chained in
    distinct (
      named_by h none pre (s ∷ post) post r s chained
        ((validate_hash_chain-IsChained h (pre ++ s ∷ post)).0 e)
      ∙ c.2.0)
