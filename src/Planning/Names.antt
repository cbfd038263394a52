-- ===== src/Planning/Names.antt =====
-- planning/__init__.py: the ids that are derived from what a plan is about.
use Prim.Native.Char.{code}
use Prim.Native.String.{String}
use mcp_multiplex.Prelude.{
  ℕ, Bool, false, not, ◌&&◌, ◌||◌, List, [], ◌∷◌, if◌then◌else◌, ◌<>◌, leb, eqb, text_or, some,
  take_text, strip_left, strip_right,
}
use mcp_multiplex.Exec.{Sha256}
use mcp_multiplex.Security.{Urls}
use mcp_multiplex.Schemas.Candidate.{CatalogCandidate}

-- `"\0".join(parts)`
abbrev pub join_parts : List String → String
join_parts [] = ""
join_parts (p ∷ []) = p
join_parts (p ∷ q ∷ parts) = p <> "\0" <> join_parts (q ∷ parts)

unfoldable pub plan_id : Sha256 → List String → String
plan_id h parts = "plan_" <> take_text 24 (h.of_text (join_parts parts))

unfoldable pub synthetic_observed_id : Sha256 → List String → String
synthetic_observed_id h parts = "obs_" <> take_text 24 (h.of_text (join_parts parts))

-- `[a-z0-9_]`
abbrev is_word : ℕ → Bool
is_word c = (leb b'a' c && leb c b'z') || ((leb b'0' c && leb c b'9') || eqb c b'_')

-- `re.sub(r"[^a-z0-9_]+", "_", s)`: a run of other characters becomes one underscore.
abbrev replace_runs : Bool → String → String
replace_runs in_run String.[] = ""
replace_runs in_run (String.◌∷◌ c s) =
    let rest = replace_runs (not (is_word (code c))) s in
    if is_word (code c) then String.◌∷◌ c rest else if in_run then rest else "_" <> rest

abbrev is_underscore : ℕ → Bool
is_underscore c = eqb c b'_'

abbrev candidate_name : Urls → String → String
candidate_name u name =
    text_or
      (some
        (strip_right is_underscore (strip_left is_underscore (replace_runs false (u.lower name)))))
      "candidate"

unfoldable pub future_catalog_id : Sha256 → Urls → CatalogCandidate → String
future_catalog_id h u c =
    "srv_candidate_"
    <> candidate_name u c.proposed_name
    <> "_"
    <> take_text 12 (h.of_text c.candidate_id)
