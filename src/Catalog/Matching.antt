-- ===== src/Catalog/Matching.antt =====
-- catalog/matching.py: which catalog entry an observed entry is, and how sure that is.
use mcp_multiplex.Prelude.{
  ℕ, String, Bool, true, false, not, ◌&&◌, ◌||◌, List, [], ◌∷◌, ◌++◌, Option, none, some,
  if◌then◌else◌, ◌==◌, ◌<>◌, truthy, truthy?, text_or, is_some, elem, eqb, ltb, text_leb,
  strip_left, strip_right,
}
use mcp_multiplex.Json.{text, array, object, field, end}
use mcp_multiplex.Json.Canonical.{canonical}
use mcp_multiplex.Json.Number.{decimal}
use mcp_multiplex.Exec.{Result, ok, and_then, Sha256}
use mcp_multiplex.Security.{Urls, is_space}
use mcp_multiplex.Schemas.{nullable, text_items}
use mcp_multiplex.Schemas.Observed.{ObservedEntry}
use mcp_multiplex.Schemas.Catalog.{CatalogEntry}
use mcp_multiplex.Storage.{Database}
use mcp_multiplex.Catalog
use mcp_multiplex.Catalog.Routable.{RoutabilityCheck, validate_routable_catalog_entry, reason_if}

pub record CatalogMatch : Type 0 where
  pub observed_entry_id : String
  pub catalog_id : Option String
  pub confidence : String
  pub reasons : List String
  pub auto_apply_allowed : Bool
  pub routable : Bool
  pub routability_reasons : List String

unfoldable pub matched : CatalogMatch → Bool
matched m = is_some m.catalog_id && not (m.confidence == "none")

-- `_fingerprint`
abbrev fingerprint_of : Sha256 → String → Option String → List String → String
fingerprint_of h type command args =
    "sha256:"
    <> h.of_json (
        canonical (
          object (
            field "type" (text type)
              (field "command" (nullable command) (field "args" (array (text_items args)) end)))))

unfoldable pub backend_fingerprint_for_observed_entry : Sha256 → ObservedEntry → Option String
backend_fingerprint_for_observed_entry h o =
    if o.transport == "stdio" then some (fingerprint_of h "stdio" o.command o.args) else none

unfoldable pub backend_fingerprint_for_catalog_entry : Sha256 → CatalogEntry → String
backend_fingerprint_for_catalog_entry h e =
    fingerprint_of h e.transport.backend.type e.transport.backend.command e.transport.backend.args

abbrev port_text : Option ℕ → String
port_text none = ""
port_text (some n) = if eqb n 0 then "" else ":" <> decimal n

unfoldable pub normalize_url : Urls → String → Result String
normalize_url u value = and_then (u.split value) λ parsed. and_then parsed.port λ port. ok (
    u.unsplit (u.lower parsed.scheme) (u.lower (text_or parsed.hostname "") <> port_text port)
      (text_or (some (strip_right (λ c. eqb c b'/') parsed.path)) "/") (u.sort_query parsed.query))

-- Both URLs are normalized, and compared.
abbrev same_url : Urls → String → String → Result Bool
same_url u a b = and_then (normalize_url u a) λ x. and_then (normalize_url u b) λ y. ok (x == y)

unfoldable pub is_exact_hub_url_match : Urls → ObservedEntry → CatalogEntry → Result Bool
is_exact_hub_url_match u o e =
    if truthy? o.url && o.transport == "streamable_http"
    then same_url u (text_or o.url "") ("http://127.0.0.1:30000" <> e.transport.hub_path)
    else ok false

unfoldable pub is_exact_backend_fingerprint_match : Sha256 → ObservedEntry → CatalogEntry → Bool
is_exact_backend_fingerprint_match h o e =
    e.transport.backend.type == "stdio" && (elim (backend_fingerprint_for_observed_entry h o) [
      | none ↦ false
      | some observed ↦ observed == backend_fingerprint_for_catalog_entry h e
    ])

unfoldable pub is_normalized_backend_url_match : Urls → ObservedEntry → CatalogEntry → Result Bool
is_normalized_backend_url_match u o e =
    if o.transport == "stdio" || (not (truthy? o.url) || not (truthy? e.transport.backend.url))
    then ok false
    else same_url u (text_or o.url "") (text_or e.transport.backend.url "")

-- `_normalize_name`
abbrev normalize_name : Urls → String → String
normalize_name u value = u.lower (strip_right is_space (strip_left is_space value))

-- One of the aliases that are not empty has a name that was observed.
any_alias : Urls → List String → List String → Bool
any_alias u observed [] = false
any_alias u observed (a ∷ aliases) =
    (truthy a && elem (normalize_name u a) observed) || any_alias u observed aliases

normalized : Urls → List String → List String
normalized u [] = []
normalized u (s ∷ ss) = normalize_name u s ∷ normalized u ss

unfoldable pub is_alias_name_match : Urls → ObservedEntry → CatalogEntry → Bool
unfolding any_alias normalized
is_alias_name_match u o e = any_alias u (normalized u (o.mount_name ∷ o.args)) e.aliases

-- The reasons that `_score_entry` collects; each is there at most once.
unfoldable pub match_reasons : Sha256 → Urls → ObservedEntry → CatalogEntry → Result (List String)
match_reasons h u o e = and_then (is_exact_hub_url_match u o e) λ hub.
    and_then (is_normalized_backend_url_match u o e) λ backend. ok (
      reason_if hub "exact_hub_url"
      ++ (reason_if (is_exact_backend_fingerprint_match h o e) "exact_backend_fingerprint"
          ++ (reason_if backend "normalized_backend_url"
              ++ (reason_if (is_alias_name_match u o e) "alias_name"
                  ++ reason_if (o.mount_name == e.name) "mount_name"))))

-- `_confidence_for_reasons`
unfoldable pub confidence_for_reasons : List String → String
confidence_for_reasons reasons =
    if elem "exact_hub_url" reasons || elem "exact_backend_fingerprint" reasons
    then "high"
    else if elem "normalized_backend_url" reasons
    then "medium"
    else if elem "alias_name" reasons || elem "mount_name" reasons
    then "weak"
    else "none"

-- The result where no entry matches.
abbrev pub no_match : ObservedEntry → CatalogMatch
no_match o = record {
  observed_entry_id = o.observed_entry_id;
  catalog_id = none;
  confidence = "none";
  reasons = [];
  auto_apply_allowed = false;
  routable = false;
  routability_reasons = [];
}

unfoldable pub match_of :
    ObservedEntry → CatalogEntry → RoutabilityCheck → List String → CatalogMatch
match_of o e r [] = no_match o
match_of o e r (reason ∷ reasons) =
    let confidence = confidence_for_reasons (reason ∷ reasons) in
    record {
      observed_entry_id = o.observed_entry_id;
      catalog_id = some e.catalog_id;
      confidence = confidence;
      reasons = (reason ∷ reasons) ++ reason_if (not r.routable) "not_routable";
      auto_apply_allowed =
          confidence == "high" && (r.routable && (o.enabled && o.parser_confidence == "complete"));
      routable = r.routable;
      routability_reasons = r.reasons;
    }

-- `_score_entry`
unfoldable pub score_entry : Sha256 → Urls → ObservedEntry → CatalogEntry → Result CatalogMatch
score_entry h u o e =
    and_then (validate_routable_catalog_entry u e)
      λ r. and_then (match_reasons h u o e) λ reasons. ok (match_of o e r reasons)

-- The matches among the scored entries, in the order of the entries.
unfoldable pub score_all :
    Sha256 → Urls → ObservedEntry → List CatalogEntry → Result (List CatalogMatch)
score_all h u o [] = ok []
score_all h u o (e ∷ entries) =
    and_then (score_entry h u o e)
      λ m. and_then (score_all h u o entries) λ ms. ok (if matched m then m ∷ ms else ms)

-- `_confidence_rank`
abbrev pub confidence_rank : String → ℕ
confidence_rank c =
    if c == "none" then 0 else if c == "weak" then 1 else if c == "medium" then 2 else 3

-- The order of the sort keys, of which `True` is the greater.
unfoldable pub key_leb : CatalogMatch → CatalogMatch → Bool
key_leb a b =
    if ltb (confidence_rank a.confidence) (confidence_rank b.confidence)
    then true
    else if ltb (confidence_rank b.confidence) (confidence_rank a.confidence)
    then false
    else if a.auto_apply_allowed
    then b.auto_apply_allowed && text_leb (text_or a.catalog_id "") (text_or b.catalog_id "")
    else b.auto_apply_allowed || text_leb (text_or a.catalog_id "") (text_or b.catalog_id "")

-- `sorted(matches, key=…, reverse=True)[0]`: of the greatest, the first.
unfoldable pub best : CatalogMatch → List CatalogMatch → CatalogMatch
best m [] = m
best m (n ∷ ms) = best (if key_leb n m then m else n) ms

abbrev pub best_or : CatalogMatch → List CatalogMatch → CatalogMatch
best_or default [] = default
best_or default (m ∷ ms) = best m ms

unfoldable pub match_observed_entry :
    Sha256 → Urls → ObservedEntry → List CatalogEntry → Result CatalogMatch
match_observed_entry h u o entries =
    and_then (score_all h u o entries) λ ms. ok (best_or (no_match o) ms)

unfoldable pub match_observed_entry_from_store :
    Sha256 → Urls → ObservedEntry → Database → Result CatalogMatch
match_observed_entry_from_store h u o db = and_then (Catalog.list u db) (match_observed_entry h u o)
