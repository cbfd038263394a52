-- ===== src/Runtime/Registry.antt =====
-- The handles of the running backends: `StdioBackendRegistry` and `HttpBackendRegistry` of
-- runtime/__init__.py. A registry is the dict of its handles and the handles on which `close()`
-- was called, in order; the two classes differ in the type of the handles alone.
pub mod Ownership
use mcp_multiplex.Prelude.{
  ℕ, ◌+◌, String, Bool, true, false, List, [], ◌∷◌, ◌++◌, map, Option, none, some, ◌≡◌, refl, arith,
  if◌then◌else◌, ◌==◌, Bool-cases, inl, inr, has_row, eq_iff,
}
use mcp_multiplex.Exec.{Error, proxy_error, Result, ok, err, require}

-- HttpBackendClient: the endpoint with the session that the remote server gave
pub record HttpBackendClient : Type 0 where
  pub url : String
  pub backend_session_id : Option String

pub record Registry (H : Type 0) : Type 0 where
  pub handles : List (String × H)
  pub closed : List H

module _ {H : Type 0} where
  -- `dict.get`
  abbrev pub get : String → List (String × H) → Option H
  get id [] = none
  get id ((k, x) ∷ rest) = if k == id then some x else get id rest

  -- What `dict.pop` leaves.
  abbrev pub without : String → List (String × H) → List (String × H)
  without id [] = []
  without id ((k, x) ∷ rest) = let tail = without id rest in if k == id then tail else (k, x) ∷ tail

  abbrev pub close_popped : Option H → List H → List H
  close_popped none closed = closed
  close_popped (some x) closed = closed ++ x ∷ []

  -- A new key stands behind the others.
  unfoldable pub register : String → H → Registry H → Registry H
  register id handle r = record {
    handles = without id r.handles ++ (id, handle) ∷ [];
    closed = close_popped (get id r.handles) r.closed;
  }

  -- The handle that `request` and `notify` use; each class has its message.
  unfoldable pub handle_for : (message id : String) → Registry H → Result H
  handle_for message id r = require (get id r.handles) (proxy_error message)

  unfoldable pub close : String → Registry H → Registry H
  close id r = record {
    handles = without id r.handles;
    closed = close_popped (get id r.handles) r.closed;
  }

  unfoldable pub close_all : Registry H → Registry H
  close_all r = record { handles = []; closed = r.closed ++ map (λ e. e.1) r.handles }
