-- ===== src/Catalog/Routable.antt =====
-- catalog/__init__.py: what an entry must be to be routed.
use mcp_multiplex.Prelude.{
  String, Bool, true, false, not, ◌&&◌, List, [], ◌∷◌, ◌++◌, some, if◌then◌else◌, ◌==◌, ◌<>◌,
  truthy, truthy?, text_or, starts_with,
}
use mcp_multiplex.Exec.{
  Result, ok, err, and_then, check, refuse_if, validation_error, catalog_error,
}
use mcp_multiplex.Security.{Urls}
use mcp_multiplex.Schemas.Catalog.{CatalogEntry, from_dict, to_dict}
use mcp_multiplex.Storage.{Database}
use mcp_multiplex.Catalog.{show}

pub record RoutabilityCheck : Type 0 where
  pub catalog_id : String
  pub routable : Bool
  pub reasons : List String

abbrev pub reason_if : Bool → String → List String
reason_if c reason = if c then reason ∷ [] else []

-- What keeps a valid entry from being routed.
unfoldable pub routing_reasons : CatalogEntry → List String
routing_reasons e =
    reason_if (not (e.review_state == "approved")) "review_state must be approved"
    ++ (reason_if (not (e.lifecycle_state == "enabled")) "lifecycle_state must be enabled"
        ++ (reason_if (not (starts_with e.transport.hub_path ("/servers/" <> e.name <> "/")))
              "transport.hub_path must preserve the catalog server name"
            ++ (reason_if (not (e.transport.frontend == "streamable_http"))
                  "transport.frontend must be streamable_http"
                ++ (reason_if (not (truthy e.runtime.shareability))
                      "runtime.shareability is required"
                    ++ (reason_if (not (truthy e.runtime.concurrency))
                          "runtime.concurrency is required"
                        ++ (reason_if (not (truthy e.runtime.health_check))
                              "runtime.health_check is required"
                            ++ (reason_if
                                  (e.transport.backend.type == "stdio"
                                    && not (truthy? e.transport.backend.command))
                                  "stdio backend command is required"
                                ++ reason_if
                                    (not (e.transport.backend.type == "stdio")
                                      && not (truthy? e.transport.backend.url))
                                    "HTTP backend url is required")))))))

abbrev no_reasons : List String → Bool
no_reasons [] = true
no_reasons (r ∷ rs) = false

abbrev check_of : CatalogEntry → RoutabilityCheck
check_of e = record {
  catalog_id = e.catalog_id;
  routable = no_reasons (routing_reasons e);
  reasons = routing_reasons e;
}

-- `except ValidationError`; another exception is not caught.
abbrev routability : String → Result CatalogEntry → Result RoutabilityCheck
routability id (ok validated) = ok (check_of validated)
routability id (err (validation_error m)) =
    ok (record { catalog_id = text_or (some id) "<invalid>"; routable = false; reasons = m ∷ [] })
routability id (err e) = err e

unfoldable pub validate_routable_catalog_entry : Urls → CatalogEntry → Result RoutabilityCheck
validate_routable_catalog_entry u e = routability e.catalog_id (from_dict u (to_dict e))

joined : List String → String
joined [] = ""
joined (s ∷ []) = s
joined (s ∷ t ∷ ss) = s <> ", " <> joined (t ∷ ss)

unfoldable pub validate_routable : Urls → String → Database → Result RoutabilityCheck
validate_routable u id db = and_then (show u id db) (validate_routable_catalog_entry u)

-- `require_routable`, with `RoutabilityCheck.require`
unfoldable pub require_routable : Urls → String → Database → Result CatalogEntry
unfolding joined
require_routable u id db = and_then (validate_routable u id db) λ r.
    check
      (refuse_if (not r.routable) (
        catalog_error
          ("catalog entry " <> r.catalog_id <> " is not routable: " <> joined r.reasons)))
      (show u id db)
