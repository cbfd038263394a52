-- ===== src/Runtime/Pool/Sharing.antt =====
-- Who shares a backend: sessions of one catalog entry, exactly where the policy grants it.
use mathlib.Core.Path.{subst}
use Prim.Native.Char.{Char, code}
use mcp_multiplex.Prelude.{
  String, some, ◌≡◌, ◌≢◌, ◌↔◌, refl, ap, sym, ◌∙◌, arith, ◌<>◌, append-cancel, second-eq,
}
use mcp_multiplex.Exec.{ok, Sha256}
use mcp_multiplex.Runtime.Pool.{
  PoolArgs, stable_component, identity, identity_digest, base, runtime_pool_key,
}
use mcp_multiplex.Runtime.Pool.Scope.{
  Scope, everyone, workspace, agent, account, session, key_of, HasScope, key-HasScope, HasScope-key,
}

-- The digests of two calls differ where what they are of differs.
pub record NoCollision (h : Sha256) (x y : PoolArgs) : Type 0 where
  pub workspaces :
      (a b : String)
      → x.workspace_root ≡ some a
      → y.workspace_root ≡ some b
      → stable_component h a ≡ stable_component h b
      → a ≡ b
  pub agents :
      (a b : String)
      → x.agent_id ≡ some a
      → y.agent_id ≡ some b
      → stable_component h a ≡ stable_component h b
      → a ≡ b
  pub accounts :
      (a b : String)
      → x.account_scope ≡ some a
      → y.account_scope ≡ some b
      → stable_component h a ≡ stable_component h b
      → a ≡ b
  pub sessions : identity_digest h x ≡ identity_digest h y → identity x ≡ identity y

component-eq :
    (kind base s t : String) → kind <> base <> ":" <> s ≡ kind <> base <> ":" <> t → s ≡ t
component-eq kind base s t e =
    append-cancel ":" s t (append-cancel base (":" <> s) (":" <> t) (append-cancel kind _ _ e))

-- The second character of a key tells what kind of scope it is of.
abbrev kind : Scope → Char
kind everyone = "l"
kind (workspace r) = "o"
kind (agent r) = "g"
kind (account r) = "c"
kind (session j) = "s"

module _ (h : Sha256) (b : String) where
  key_of-kind :
      (s : Scope)
      → (c : Char) × (w u : String) × (key_of h b s ≡ String.◌∷◌ c (String.◌∷◌ (kind s) w) <> u)
  key_of-kind everyone = ("g", "obal:", _, refl)
  key_of-kind (workspace r) = ("w", "rkspace:", _, refl)
  key_of-kind (agent r) = ("a", "ent:", _, refl)
  key_of-kind (account r) = ("a", "count:", _, refl)
  key_of-kind (session j) = ("i", "olated:", _, refl)

  other_kind : (s t : Scope) → key_of h b s ≡ key_of h b t → code (kind s) ≢ code (kind t) → s ≡ t
  other_kind s t e n =
      let (c, w, u, p) = key_of-kind s in
      let (d, v, z, q) = key_of-kind t in
      absurd (n (ap code (second-eq c (kind s) d (kind t) w v u z (sym p ∙ e ∙ q))))

module _ (h : Sha256) (x y : PoolArgs) (distinct : NoCollision h x y) (b : String) where
  key_of-injective :
      (s t : Scope) → HasScope x s → HasScope y t → key_of h b s ≡ key_of h b t → s ≡ t
  key_of-injective everyone everyone p q e = refl
  key_of-injective everyone (workspace s) p q e =
      other_kind h b everyone (workspace s) e (λ n. ground arith)
  key_of-injective everyone (agent s) p q e =
      other_kind h b everyone (agent s) e (λ n. ground arith)
  key_of-injective everyone (account s) p q e =
      other_kind h b everyone (account s) e (λ n. ground arith)
  key_of-injective everyone (session s) p q e =
      other_kind h b everyone (session s) e (λ n. ground arith)
  key_of-injective (workspace r) everyone p q e =
      other_kind h b (workspace r) everyone e (λ n. ground arith)
  key_of-injective (workspace r) (workspace s) p q e =
      ap workspace (distinct.workspaces r s p.1 q.1 (component-eq "workspace:" b _ _ e))
  key_of-injective (workspace r) (agent s) p q e =
      other_kind h b (workspace r) (agent s) e (λ n. ground arith)
  key_of-injective (workspace r) (account s) p q e =
      other_kind h b (workspace r) (account s) e (λ n. ground arith)
  key_of-injective (workspace r) (session s) p q e =
      other_kind h b (workspace r) (session s) e (λ n. ground arith)
  key_of-injective (agent r) everyone p q e =
      other_kind h b (agent r) everyone e (λ n. ground arith)
  key_of-injective (agent r) (workspace s) p q e =
      other_kind h b (agent r) (workspace s) e (λ n. ground arith)
  key_of-injective (agent r) (agent s) p q e =
      ap agent (distinct.agents r s p.1 q.1 (component-eq "agent:" b _ _ e))
  key_of-injective (agent r) (account s) p q e =
      other_kind h b (agent r) (account s) e (λ n. ground arith)
  key_of-injective (agent r) (session s) p q e =
      other_kind h b (agent r) (session s) e (λ n. ground arith)
  key_of-injective (account r) everyone p q e =
      other_kind h b (account r) everyone e (λ n. ground arith)
  key_of-injective (account r) (workspace s) p q e =
      other_kind h b (account r) (workspace s) e (λ n. ground arith)
  key_of-injective (account r) (agent s) p q e =
      other_kind h b (account r) (agent s) e (λ n. ground arith)
  key_of-injective (account r) (account s) p q e =
      ap account (distinct.accounts r s p.1 q.1 (component-eq "account:" b _ _ e))
  key_of-injective (account r) (session s) p q e =
      other_kind h b (account r) (session s) e (λ n. ground arith)
  key_of-injective (session r) everyone p q e =
      other_kind h b (session r) everyone e (λ n. ground arith)
  key_of-injective (session r) (workspace s) p q e =
      other_kind h b (session r) (workspace s) e (λ n. ground arith)
  key_of-injective (session r) (agent s) p q e =
      other_kind h b (session r) (agent s) e (λ n. ground arith)
  key_of-injective (session r) (account s) p q e =
      other_kind h b (session r) (account s) e (λ n. ground arith)
  key_of-injective (session r) (session s) p q e =
      let digests = component-eq "isolated:" b _ _ e in
      ap session (p.1 ∙ distinct.sessions (rw (p.1, q.1) at digests) ∙ sym q.1)

-- Two sessions of one catalog entry get one pool key exactly where the entry's policy gives both
-- of them one scope: it is global; or per workspace, agent or account, and both name the same
-- one; or both are isolated, and of one policy, session, transport and URL. Their digests must not collide.
pub same_key_iff_same_scope :
    (h : Sha256) (x y : PoolArgs)
    → NoCollision h x y
    → x.catalog_id ≡ y.catalog_id
    → ((k : String) × (runtime_pool_key h x ≡ ok k) × (runtime_pool_key h y ≡ ok k))
      ↔ ((s : Scope) × HasScope x s × HasScope y s)
same_key_iff_same_scope h x y distinct same = (
  λ (k, p, q).
      let (s, hs, e) = key-HasScope h x k p in
      let (t, ht, f) = key-HasScope h y k q in
      let keys = sym e ∙ f ∙ ap (λ c. key_of h ("catalog:" <> c) t) (sym same) in
      (
        s,
        hs,
        subst (HasScope y) (sym (key_of-injective h x y distinct (base x) s t hs ht keys)) ht,
      ),
  λ (s, hs, ht). (
    key_of h (base x) s,
    HasScope-key h x s hs,
    HasScope-key h y s ht ∙ ap (λ c. ok (key_of h ("catalog:" <> c) s)) (sym same),
  ),
)
