-- ===== src/Credentials/Startup.antt =====
-- What a backend is started with: the values of the required names, and of no others.
use mcp_multiplex.Prelude.{
  String, Bool, true, ◌||◌, List, [], ◌∷◌, ◌++◌, none, some, ◌≡◌, inl, inr, refl, arith, ◌==◌,
  if◌then◌else◌, elem, find_row, has_row, All, Option-cases, Bool-cases, eq_iff, ◌≢◌, ◌⊎◌, ◌∙◌, ap,
}
use mathlib.Core.Path.{subst}
use mcp_multiplex.Exec.{err-ne-ok, ok, bind_elim, ok-injective}
use mcp_multiplex.Storage.{Database, CredentialRef}
use mcp_multiplex.Credentials.{list}
use mcp_multiplex.Credentials.Sources.{Sources, resolve}
use mcp_multiplex.Credentials.Readiness.{
  ResolvedCredentials, Resolution, named, put_env, resolve_each, all_found,
  resolve_for_backend_startup,
}

-- The environment has a value for the name.
abbrev pub has_name : String → List (String × String) → Bool
has_name name env = has_row (λ (a : String × String). a.0 == name) env

longer : (names : List String) (name : String) → names ++ name ∷ [] ≢ []
longer [] name e = cc e
longer (n ∷ names) name e = cc e

module _ (s : Sources) (credentials : List CredentialRef) where
  -- The value that the resolver gives for the reference of the name
  abbrev pub IsResolved : String × String → Type 0
  IsResolved (name, value) =
      (c : CredentialRef) × (find_row (named name) credentials ≡ some c) × (resolve s c ≡ ok value)

  put_env-All :
      (P : String × String → Type 0) (name value : String) (env : List (String × String))
      → P (name, value)
      → All P env
      → All P (put_env name value env)
  put_env-All P name value [] here all = (here, tt)
  put_env-All P name value (a ∷ env) here all = elim (Bool-cases (a.0 == name)) [
    | inl same ↦ rw same (here, all.1)
    | inr other ↦ rw other (all.0, put_env-All P name value env here all.1)
  ]

  has_name-put_env :
      (n name value : String) (env : List (String × String))
      → has_name n (put_env name value env) ≡ (if name == n then true else has_name n env)
  has_name-put_env n name value [] = refl
  has_name-put_env n name value (a ∷ env) =
      ground
        (arith, has_name-put_env n name value env, eq_iff a.0 name, eq_iff a.0 n, eq_iff name n)

  abbrev skipped : Resolution → String → Resolution
  skipped r name = record r { missing = r.missing ++ name ∷ [] }

  abbrev taken : Resolution → String → String → Resolution
  taken r name value = record r { resolved = put_env name value r.resolved }

  -- A name that no reference has, or one whose value was found, and then the other names.
  Step : String → List String → Resolution → Resolution → Type 0
  Step name names before after =
      ((find_row (named name) credentials ≡ none)
        × (resolve_each s credentials (skipped before name) names ≡ ok after))
      ⊎ ((value : String) × IsResolved (name, value)
          × (resolve_each s credentials (taken before name value) names ≡ ok after))

  step :
      (name : String) (names : List String) (before after : Resolution)
      → resolve_each s credentials before (name ∷ names) ≡ ok after
      → Step name names before after
  unfolding resolve_each Step
  step name names before after e = elim (Option-cases (find_row (named name) credentials)) [
    | inl absent ↦ inl (absent, rw (absent, resolve_each) at e)
    | inr (c, there) ↦
        bind_elim (resolve s c)
          (λ value. resolve_each s credentials (taken before name value) names) after
          (rw (there, resolve_each) at e) λ value found rest. inr (value, (c, there, found), rest)
  ]

  resolved-IsResolved :
      (names : List String) (before after : Resolution)
      → resolve_each s credentials before names ≡ ok after
      → All IsResolved before.resolved
      → All IsResolved after.resolved
  unfolding resolve_each Step
  resolved-IsResolved [] before after e all =
      subst (λ (r : Resolution). All IsResolved r.resolved) (ok-injective before after e) all
  resolved-IsResolved (name ∷ names) before after e all = elim (step name names before after e) [
    | inl (absent, rest) ↦ resolved-IsResolved names (skipped before name) after rest all
    | inr (value, found, rest) ↦
        resolved-IsResolved names (taken before name value) after rest
          (put_env-All IsResolved name value before.resolved found all)
  ]

  none_missing :
      (names : List String) (before after : Resolution)
      → resolve_each s credentials before names ≡ ok after
      → after.missing ≡ []
      → before.missing ≡ []
  unfolding resolve_each Step
  none_missing [] before after e none_left =
      ap (λ (r : Resolution). r.missing) (ok-injective before after e) ∙ none_left
  none_missing (name ∷ names) before after e none_left = elim (step name names before after e) [
    | inl (absent, rest) ↦
        absurd (
          longer before.missing name
            (none_missing names (skipped before name) after rest none_left))
    | inr (value, found, rest) ↦ none_missing names (taken before name value) after rest none_left
  ]

  -- The environment has a value for a name just where it had one before or the name is required.
  has_name-resolved :
      (n : String) (names : List String) (before after : Resolution)
      → resolve_each s credentials before names ≡ ok after
      → after.missing ≡ []
      → has_name n after.resolved ≡ (has_name n before.resolved || elem n names)
  unfolding resolve_each Step
  has_name-resolved n [] before after e none_left =
      let same = ap (λ (r : Resolution). has_name n r.resolved) (ok-injective before after e) in
      ground arith
  has_name-resolved n (name ∷ names) before after e none_left =
      elim (step name names before after e) [
        | inl (absent, rest) ↦ absurd (
            longer before.missing name
              (none_missing names (skipped before name) after rest none_left))
        | inr (value, found, rest) ↦
            let later = has_name-resolved n names (taken before name value) after rest none_left in
            let here = has_name-put_env n name value before.resolved in ground arith
      ]

abbrev nothing : Resolution
nothing = record { resolved = []; missing = [] }

all_found-ok :
    (names : List String) (out : Resolution) (r : ResolvedCredentials)
    → all_found names out ≡ ok r
    → (out.missing ≡ []) × (record { env = out.resolved; resolved_names = names } ≡ r)
all_found-ok names out r e = cases out.resolved out.missing e
  where
    cases :
        (resolved : List (String × String)) (missing : List String)
        → all_found names (record { resolved = resolved; missing = missing }) ≡ ok r
        → (missing ≡ []) × (record { env = resolved; resolved_names = names } ≡ r)
    cases resolved [] e = (refl, ok-injective _ r e)
    cases resolved (m ∷ ms) e = absurd (err-ne-ok _ r e)

-- What a backend is started with, where the start does not raise: each value of the environment is the
-- one that the resolver gives for the catalog entry's reference of that name, and the environment has a
-- value for a name just where the name is one of the required ones.
pub starts_with_required :
    (s : Sources) (catalog_id : String) (names : List String) (db : Database)
    (r : ResolvedCredentials)
    → resolve_for_backend_startup s catalog_id names db ≡ ok r
    → (credentials : List CredentialRef) × (list (some catalog_id) db ≡ ok credentials)
      × All (IsResolved s credentials) r.env
      × ((n : String) → has_name n r.env ≡ elem n names)
unfolding resolve_for_backend_startup
starts_with_required s catalog_id names db r e =
    bind_elim (list (some catalog_id) db) _ r e λ credentials listed rest.
      bind_elim (resolve_each s credentials nothing names) (all_found names) r rest λ out went last.
        let (none_left, same) = all_found-ok names out r last in
        (
          credentials,
          listed,
          subst (λ (x : ResolvedCredentials). All (IsResolved s credentials) x.env) same
              (resolved-IsResolved s credentials names nothing out went tt),
          λ n.
              subst (λ (x : ResolvedCredentials). has_name n x.env ≡ elem n names) same
                (has_name-resolved s credentials n names nothing out went none_left),
        )
