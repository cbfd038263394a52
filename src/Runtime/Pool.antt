-- ===== src/Runtime/Pool.antt =====
-- `runtime_pool_key` of runtime/__init__.py: which sessions share a backend.
pub mod Scope
pub mod Sharing
use mcp_multiplex.Prelude.{
  String, Bool, true, false, ◌&&◌, Option, none, some, ◌≡◌, ◌↔◌, refl, if◌then◌else◌, ◌==◌, ◌<>◌,
  truthy?, text_or, take_text,
}
use mcp_multiplex.Json.{Json, null, text, object, field, end}
use mcp_multiplex.Exec.{Error, proxy_error, Result, ok, err, Sha256}

-- The keyword arguments of `runtime_pool_key`.
pub record PoolArgs : Type 0 where
  pub catalog_id : String
  pub shareability : String
  pub frontend_session_id : String
  pub workspace_root : Option String
  pub agent_id : Option String
  pub account_scope : Option String
  pub remote_url : Option String
  pub transport_type : Option String

-- `_stable_component`
unfoldable pub stable_component : Sha256 → String → String
stable_component h value = take_text 24 (h.of_text value)

abbrev nullable : Option String → Json
nullable none = null
nullable (some s) = text s

abbrev pub identity : PoolArgs → Json
identity a = object (
    field "shareability" (text a.shareability) (
      field "frontend_session_id" (text a.frontend_session_id) (
        field "transport_type" (nullable a.transport_type)
          (field "remote_url" (nullable a.remote_url) end))))

abbrev pub identity_digest : Sha256 → PoolArgs → String
identity_digest h a = take_text 24 (h.of_dump (identity a))

abbrev pub base : PoolArgs → String
base a = "catalog:" <> a.catalog_id

unfoldable pub runtime_pool_key : Sha256 → PoolArgs → Result String
runtime_pool_key h a =
    if a.shareability == "global"
    then ok ("global:" <> base a)
    else if a.shareability == "per_workspace" && truthy? a.workspace_root
    then ok ("workspace:" <> base a <> ":" <> stable_component h (text_or a.workspace_root ""))
    else if a.shareability == "per_agent" && truthy? a.agent_id
    then ok ("agent:" <> base a <> ":" <> stable_component h (text_or a.agent_id ""))
    else if a.shareability == "per_account" && truthy? a.account_scope
    then ok ("account:" <> base a <> ":" <> stable_component h (text_or a.account_scope ""))
    else if a.shareability == "no_proxy"
    then err (proxy_error "catalog policy forbids proxying this backend")
    else ok ("isolated:" <> base a <> ":" <> identity_digest h a)
