-- ===== src/Schemas/Values.antt =====
-- What the readers of a value take, and what they give back.
use mcp_multiplex.Prelude.{
  ℕ, zero, suc, String, true, List, [], ◌∷◌, ◌≡◌, refl, arith, Option, none, some, truthy, elem,
  starts_with, leb, Bool-cases, inl, inr, ◌∙◌,
}
use mathlib.Core.Path.{subst}
use mcp_multiplex.Json.{Json, null, boolean, number, text, array, object}
use mcp_multiplex.Json.Number.{ℤ, pos, negsuc, read_int-decimal}
use mcp_multiplex.Exec.{ok, ok-injective, bind_elim, and_then}
use mcp_multiplex.Security.{Urls, validate_command_name, validate_http_url}
use mcp_multiplex.Schemas.{
  string_value, optional_value, int_value, at_least, version_of, list_value, texts, texts_value,
  string_list_value, enum_value, with_prefix, as_validation, safe_command, safe_http_url, nullable,
  text_items, int_json,
}

-- What is written is read back.
pub texts-items : (ss : List String) → texts (text_items ss) ≡ some ss
unfolding texts text_items
texts-items [] = refl
texts-items (s ∷ ss) = rw (texts-items ss)

pub string_list-items :
    (key : String) (ss : List String) → string_list_value key (some (array (text_items ss))) ≡ ok ss
unfolding list_value texts_value
string_list-items key ss = rw (texts-items ss, texts_value)

pub optional-nullable :
    (key : String) (o : Option String) → optional_value key (some (nullable o)) ≡ ok o
unfolding optional_value
optional-nullable key none = refl
optional-nullable key (some s) = refl

pub string-text : (key s : String) → truthy s ≡ true → string_value key (some (text s)) ≡ ok s
unfolding string_value
string-text key s h = rw h

pub enum-elem :
    (key s : String) (allowed : List String)
    → elem s allowed ≡ true
    → enum_value key allowed s ≡ ok s
unfolding enum_value
enum-elem key s allowed h = rw h

pub prefix-starts :
    (prefix name s : String) → starts_with s prefix ≡ true → with_prefix prefix name s ≡ ok s
unfolding with_prefix
prefix-starts prefix name s h = rw h

pub int-decimal : (key : String) (n : ℕ) → int_value key (some (int_json n)) ≡ ok (pos n)
unfolding int_value
int-decimal key n = rw (read_int-decimal n)

pub at_least-le :
    (key : String) (minimum n : ℕ) → leb minimum n ≡ true → at_least key minimum (pos n) ≡ ok n
unfolding at_least
at_least-le key minimum n h = rw h

-- What a reader returned satisfies the reader's test.
pub string_value-truthy :
    (key : String) (v : Option Json) (s : String) → string_value key v ≡ ok s → truthy s ≡ true
unfolding string_value
string_value-truthy key (some (text t)) s h = ground arith
string_value-truthy key none s h = cc
string_value-truthy key (some null) s h = cc
string_value-truthy key (some (boolean b)) s h = cc
string_value-truthy key (some (number n)) s h = cc
string_value-truthy key (some (array xs)) s h = cc
string_value-truthy key (some (object fs)) s h = cc

pub enum_value-elem :
    (key : String) (allowed : List String) (v s : String)
    → enum_value key allowed v ≡ ok s
    → (v ≡ s) × (elem s allowed ≡ true)
unfolding enum_value
enum_value-elem key allowed v s h = elim (Bool-cases (elem v allowed)) [
  | inl known ↦
      let same : v ≡ s = ok-injective v s (rw known at h) in
      (same, subst (λ t. elem t allowed ≡ true) same known)
  | inr unknown ↦ cc (rw unknown at h)
]

pub with_prefix-starts :
    (prefix name v s : String)
    → with_prefix prefix name v ≡ ok s
    → (v ≡ s) × (starts_with s prefix ≡ true)
unfolding with_prefix
with_prefix-starts prefix name v s h = elim (Bool-cases (starts_with v prefix)) [
  | inl holds ↦
      let same : v ≡ s = ok-injective v s (rw holds at h) in
      (same, subst (λ t. starts_with t prefix ≡ true) same holds)
  | inr fails ↦ cc (rw fails at h)
]

pub version_of-one : (i : ℤ) (n : ℕ) → version_of i ≡ ok n → n ≡ 1
unfolding version_of
version_of-one (pos (suc zero)) n h = ground arith
version_of-one (pos zero) n h = cc
version_of-one (pos (suc (suc k))) n h = cc
version_of-one (negsuc k) n h = cc

-- The tests of commands and URLs return what they were given.
pub safe_command-same : (name : String) (o c : Option String) → safe_command name o ≡ ok c → o ≡ c
unfolding safe_command as_validation validate_command_name
safe_command-same name none c h = ground arith
safe_command-same name (some s) c h = ground arith

pub safe_http_url-same :
    (u : Urls) (name : String) (o c : Option String) → safe_http_url u name o ≡ ok c → o ≡ c
unfolding safe_http_url as_validation validate_http_url
safe_http_url-same u name none c h = ground arith
safe_http_url-same u name (some s) c h = ground arith

-- The text that a reader returned is the one that the dict holds.
pub string_value-eq : (key t s : String) → string_value key (some (text t)) ≡ ok s → t ≡ s
unfolding string_value
string_value-eq key t s h = ground arith

pub enum-eq :
    (key : String) (allowed : List String) (t s : String)
    → and_then (string_value key (some (text t))) (enum_value key allowed) ≡ ok s
    → t ≡ s
enum-eq key allowed t s h =
    bind_elim (string_value key (some (text t))) (enum_value key allowed) s h
      λ v read known. string_value-eq key t v read ∙ (enum_value-elem key allowed v s known).0

pub id-eq :
    (key prefix t s : String)
    → and_then (string_value key (some (text t))) (with_prefix prefix key) ≡ ok s
    → t ≡ s
id-eq key prefix t s h =
    bind_elim (string_value key (some (text t))) (with_prefix prefix key) s h
      λ v read starts. string_value-eq key t v read ∙ (with_prefix-starts prefix key v s starts).0
