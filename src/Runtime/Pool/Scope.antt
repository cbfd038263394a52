-- ===== src/Runtime/Pool/Scope.antt =====
-- What a pool key stands for, and that it stands for one thing.
use mcp_multiplex.Prelude.{
  String, true, false, ◌&&◌, Option, none, some, ◌≡◌, inl, inr, refl, arith, ◌==◌, ◌<>◌, truthy,
  truthy?, text_or, take_text, Bool-cases, eq_iff,
}
use mcp_multiplex.Json.{Json}
use mcp_multiplex.Exec.{ok, Sha256}
use mcp_multiplex.Runtime.Pool.{PoolArgs, stable_component, identity, base, runtime_pool_key}

-- Those that a backend may serve: everyone, a workspace, an agent, an account, or one session.
pub data Scope : Type 0 where
  everyone : Scope
  workspace agent account : String → Scope
  session : Json → Scope

abbrev pub key_of : Sha256 → String → Scope → String
key_of h base everyone = "global:" <> base
key_of h base (workspace r) = "workspace:" <> base <> ":" <> stable_component h r
key_of h base (agent r) = "agent:" <> base <> ":" <> stable_component h r
key_of h base (account r) = "account:" <> base <> ":" <> stable_component h r
key_of h base (session j) = "isolated:" <> base <> ":" <> take_text 24 (h.of_dump j)

-- A policy with what it needs to be applied.
abbrev pub Grants : String → Option String → String → PoolArgs → Type 0
Grants policy o r a = (a.shareability ≡ policy) × (o ≡ some r) × (truthy r ≡ true)

-- The policy lets the session use a backend, but shares it with no one.
pub record IsIsolated (a : PoolArgs) : Type 0 where
  pub not_everyone : (a.shareability == "global") ≡ false
  pub no_workspace : (a.shareability == "per_workspace" && truthy? a.workspace_root) ≡ false
  pub no_agent : (a.shareability == "per_agent" && truthy? a.agent_id) ≡ false
  pub no_account : (a.shareability == "per_account" && truthy? a.account_scope) ≡ false
  pub not_forbidden : (a.shareability == "no_proxy") ≡ false

abbrev pub HasScope : PoolArgs → Scope → Type 0
HasScope a everyone = a.shareability ≡ "global"
HasScope a (workspace r) = Grants "per_workspace" a.workspace_root r a
HasScope a (agent r) = Grants "per_agent" a.agent_id r a
HasScope a (account r) = Grants "per_account" a.account_scope r a
HasScope a (session j) = IsIsolated a × (j ≡ identity a)

granted :
    (policy : String) (o : Option String) (a : PoolArgs)
    → (a.shareability == policy && truthy? o) ≡ true
    → (r : String) × Grants policy o r a × (text_or o "" ≡ r)
granted policy none a h = ground arith
granted policy (some r) a h =
    (r, ((eq_iff a.shareability policy).0 (ground arith), refl, ground arith), ground arith)

-- A key is that of a scope that its arguments have.
pub key-HasScope :
    (h : Sha256) (a : PoolArgs) (k : String)
    → runtime_pool_key h a ≡ ok k
    → (s : Scope) × HasScope a s × (k ≡ key_of h (base a) s)
unfolding runtime_pool_key
key-HasScope h a k e = elim (Bool-cases (a.shareability == "global")) [
  | inl p ↦ (everyone, (eq_iff a.shareability "global").0 p, ground arith)
  | inr np ↦ elim (Bool-cases (a.shareability == "per_workspace" && truthy? a.workspace_root)) [
    | inl w ↦
        let (r, g, t) = granted "per_workspace" a.workspace_root a w in
        (workspace r, g, ground arith)
    | inr nw ↦ elim (Bool-cases (a.shareability == "per_agent" && truthy? a.agent_id)) [
      | inl w ↦ let (r, g, t) = granted "per_agent" a.agent_id a w in (agent r, g, ground arith)
      | inr na ↦ elim (Bool-cases (a.shareability == "per_account" && truthy? a.account_scope)) [
        | inl w ↦
            let (r, g, t) = granted "per_account" a.account_scope a w in
            (account r, g, ground arith)
        | inr nc ↦ elim (Bool-cases (a.shareability == "no_proxy")) [
          | inl f ↦ absurd (ground arith)
          | inr nf ↦ (
            session (identity a),
            (
              record {
                not_everyone = np;
                no_workspace = nw;
                no_agent = na;
                no_account = nc;
                not_forbidden = nf;
              },
              refl,
            ),
            ground arith,
          )
        ]
      ]
    ]
  ]
]

is_truthy_or : (r : String) → truthy r ≡ true → text_or (some r) "" ≡ r
is_truthy_or r t = ground arith

-- A scope that the arguments have is that of the key.
pub HasScope-key :
    (h : Sha256) (a : PoolArgs) (s : Scope)
    → HasScope a s
    → runtime_pool_key h a ≡ ok (key_of h (base a) s)
unfolding runtime_pool_key
HasScope-key h a everyone e = rw e refl
HasScope-key h a (workspace r) (p, o, t) = rw (p, o, t, is_truthy_or r t) refl
HasScope-key h a (agent r) (p, o, t) = rw (p, o, t, is_truthy_or r t) refl
HasScope-key h a (account r) (p, o, t) = rw (p, o, t, is_truthy_or r t) refl
HasScope-key h a (session j) (i, e) =
    rw (i.not_everyone, i.no_workspace, i.no_agent, i.no_account, i.not_forbidden, e) refl
