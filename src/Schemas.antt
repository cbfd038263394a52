-- ===== src/Schemas.antt =====
-- schemas/models.py: how a value of a JSON object is read, or refused with a ValidationError.
pub mod Values
pub mod Observed
pub mod Catalog
pub mod Candidate
pub mod Plan
pub mod Health
pub mod Reads
pub mod RoundTrip
mod Tests
use mcp_multiplex.Prelude.{
  ℕ, zero, suc, String, Bool, true, false, not, ◌&&◌, List, [], ◌∷◌, ◌≡◌, refl, ap, arith, Option,
  none, some, ◌==◌, ◌<>◌, if◌then◌else◌, truthy, elem, starts_with, ends_with, leb, text_leb,
  sort_by, select_rows, Bool-cases, inl, inr, ◌∙◌,
}
use mathlib.Core.Path.{subst}
use mcp_multiplex.Json.{
  Json, Items, Fields, null, boolean, number, text, array, object, nil, cons, end, field,
}
use mcp_multiplex.Json.Dict
use mcp_multiplex.Json.Number.{ℤ, pos, negsuc, read_int, decimal, read_int-decimal}
use mcp_multiplex.Exec.{
  Error, Result, ok, err, ok-injective, bind_elim, check-eq-ok, refuse_if-eq-ok, and_then, check,
  refuse_if, validation_error, security_error,
}
use mcp_multiplex.Security.{Urls, validate_command_name, validate_http_url}

infixl 5 ◌>>=◌ ◌>>◌
unfoldable pub ◌>>=◌ {ℓ κ} : {A : Type ℓ} {B : Type κ} → Result A → (A → Result B) → Result B
m >>= f = and_then m f

unfoldable pub ◌>>◌ {ℓ} : {A : Type ℓ} → Result (Unit {0}) → Result A → Result A
m >> k = check m k

-- What a block that returned went through: a step that returned, and a test that passed.
pub >>=-elim {ℓ κ μ} :
    {A : Type ℓ} {B : Type κ} {P : Type μ} {r : Result A} {f : A → Result B} {b : B}
    → (r >>= f) ≡ ok b
    → ((a : A) → r ≡ ok a → f a ≡ ok b → P)
    → P
unfolding ◌>>=◌
>>=-elim {r} {f} {b} h k = bind_elim r f b h k

pub >>-elim {ℓ} :
    {A : Type ℓ} (r : Result (Unit {0})) {rest : Result A} {b : A}
    → (r >> rest) ≡ ok b
    → rest ≡ ok b
unfolding ◌>>◌
>>-elim r {rest} {b} h = check-eq-ok r rest b h

-- A test that raises a ValidationError.
unfoldable pub invalid_if : Bool → String → Result (Unit {0})
invalid_if c message = refuse_if c (validation_error message)

pub invalid_if-elim {ℓ κ} :
    {A : Type ℓ} {P : Type κ} (c : Bool) (message : String) {rest : Result A} {b : A}
    → (invalid_if c message >> rest) ≡ ok b
    → (c ≡ false → rest ≡ ok b → P)
    → P
unfolding ◌>>◌ invalid_if
invalid_if-elim c message {rest} {b} h k =
    let (e, r) = refuse_if-eq-ok c (validation_error message) rest b h in k e r

-- The sets of the module.
abbrev pub agent_kinds : List String
agent_kinds = "codex" ∷ "claude_code" ∷ "gemini" ∷ "cline" ∷ "opencode" ∷ []

abbrev pub transports : List String
transports = "stdio" ∷ "streamable_http" ∷ "http" ∷ "sse" ∷ []

abbrev pub parser_confidences : List String
parser_confidences = "complete" ∷ "partial" ∷ "opaque" ∷ []

abbrev pub catalog_review_states : List String
catalog_review_states = "approved" ∷ "pending" ∷ "rejected" ∷ "quarantined" ∷ []

abbrev pub catalog_lifecycle_states : List String
catalog_lifecycle_states = "enabled" ∷ "disabled" ∷ "deprecated" ∷ []

abbrev pub risk_tiers : List String
risk_tiers = "low" ∷ "normal" ∷ "high" ∷ "unknown" ∷ []

abbrev pub reviewed_risk_tiers : List String
reviewed_risk_tiers = "low" ∷ "normal" ∷ "high" ∷ []

abbrev pub shareabilities : List String
shareabilities =
    "global" ∷ "per_workspace" ∷ "per_agent" ∷ "per_account" ∷ "isolated_per_frontend_session"
    ∷ "no_proxy" ∷ []

abbrev pub concurrencies : List String
concurrencies = "concurrent_readonly" ∷ "serialized" ∷ "exclusive" ∷ []

abbrev pub candidate_classifications : List String
candidate_classifications = "unknown_stdio" ∷ "unknown_local_http" ∷ "unknown_remote_http" ∷ []

abbrev pub candidate_confidences : List String
candidate_confidences = "low" ∷ "medium" ∷ "high" ∷ []

abbrev pub plan_types : List String
plan_types =
    "rewrite_known_direct" ∷ "import_unknown_candidate" ∷ "route_approved_candidate"
    ∷ "install_missing_control_plane" ∷ "remove_duplicate_bypass" ∷ "profile_extra_detected"
    ∷ "unsafe_local_http_detected" ∷ "unsupported_config_detected" ∷ []

abbrev pub plan_statuses : List String
plan_statuses = "draft" ∷ "pending_approval" ∷ "approved" ∷ "rejected" ∷ "applied" ∷ "failed" ∷ []

abbrev pub health_areas : List String
health_areas = "daemon" ∷ "compliance" ∷ "runtime" ∷ "credentials" ∷ "storage" ∷ "security" ∷ []

-- `_require_string`, of what `payload.get(key)` returns
unfoldable pub string_value : String → Option Json → Result String
string_value key (some (text s)) =
    if truthy s then ok s else err (validation_error (key <> " is required"))
string_value key _ = err (validation_error (key <> " is required"))

abbrev pub require_string : Fields → String → Result String
require_string payload key = string_value key (Dict.get key payload)

-- `_optional_string`
unfoldable pub optional_value : String → Option Json → Result (Option String)
optional_value key none = ok none
optional_value key (some null) = ok none
optional_value key (some (text s)) = ok (some s)
optional_value key _ = err (validation_error (key <> " must be a string or null"))

abbrev pub optional_string : Fields → String → Result (Option String)
optional_string payload key = optional_value key (Dict.get key payload)

-- `_require_bool`
unfoldable pub bool_value : String → Option Json → Result Bool
bool_value key (some (boolean b)) = ok b
bool_value key _ = err (validation_error (key <> " must be a boolean"))

abbrev pub require_bool : Fields → String → Result Bool
require_bool payload key = bool_value key (Dict.get key payload)

int_of : String → Option ℤ → Result ℤ
int_of key none = err (validation_error (key <> " must be an integer"))
int_of key (some i) = ok i

-- `_require_int` without a minimum
unfoldable pub int_value : String → Option Json → Result ℤ
unfolding int_of
int_value key (some (number n)) = int_of key (read_int n)
int_value key _ = err (validation_error (key <> " must be an integer"))

pub at_least : String → ℕ → ℤ → Result ℕ
at_least key minimum (negsuc n) = err (validation_error (key <> " must be >= " <> decimal minimum))
at_least key minimum (pos n) =
    if leb minimum n
    then ok n
    else err (validation_error (key <> " must be >= " <> decimal minimum))

-- `_require_int` with a minimum, none of which is negative
unfoldable pub require_int : Fields → String → ℕ → Result ℕ
unfolding at_least
require_int payload key minimum =
    and_then (int_value key (Dict.get key payload)) (at_least key minimum)

-- `_require_schema_version`
unfoldable pub version_of : ℤ → Result ℕ
version_of (pos (suc zero)) = ok 1
version_of _ = err (validation_error "schema_version must be 1")

abbrev pub require_schema_version : Option Json → Result ℕ
require_schema_version value = and_then (int_value "schema_version" value) version_of

-- `_require_list`
unfoldable pub list_value : String → Option Json → Result Items
list_value key (some (array xs)) = ok xs
list_value key _ = err (validation_error (key <> " must be a list"))

-- The texts of a list, or none where it holds another value.
unfoldable pub texts : Items → Option (List String)
texts nil = some []
texts (cons (text s) xs) = elim (texts xs) [ none ↦ none | some rest ↦ some (s ∷ rest) ]
texts (cons x xs) = none

unfoldable pub texts_value : String → Items → Result (List String)
texts_value message xs = elim (texts xs) [ none ↦ err (validation_error message) | some ss ↦ ok ss ]

-- `_require_string_list`
abbrev pub string_list_value : String → Option Json → Result (List String)
string_list_value key value =
    and_then (list_value key value) (texts_value (key <> " must contain only strings"))

abbrev pub require_string_list : Fields → String → Result (List String)
require_string_list payload key = string_list_value key (Dict.get key payload)

-- `_require_object`
unfoldable pub object_value : String → Option Json → Result Fields
object_value key (some (object fs)) = ok fs
object_value key _ = err (validation_error (key <> " must be an object"))

abbrev pub require_object : Fields → String → Result Fields
require_object payload key = object_value key (Dict.get key payload)

-- `_require_enum`
unfoldable pub enum_value : String → List String → String → Result String
enum_value key allowed value =
    if elem value allowed
    then ok value
    else err (validation_error (key <> " has unsupported value: " <> value))

abbrev pub require_enum : Fields → String → List String → Result String
require_enum payload key allowed = and_then (require_string payload key) (enum_value key allowed)

-- `_validate_id` and `_validate_hash`
unfoldable pub with_prefix : String → String → String → Result String
with_prefix prefix name value =
    if starts_with value prefix
    then ok value
    else err (validation_error (name <> " must start with " <> prefix))

abbrev pub require_id : Fields → String → String → Result String
require_id payload key prefix = and_then (require_string payload key) (with_prefix prefix key)

-- `_validate_hub_path`
unfoldable pub validate_hub_path : String → Result String
validate_hub_path value =
    if starts_with value "/servers/" && ends_with value "/mcp"
    then ok value
    else err (validation_error "transport.hub_path must match /servers/<server>/mcp")

-- `except SecurityError as error: raise ValidationError(str(error))`
unfoldable pub as_validation {ℓ} : {A : Type ℓ} → Result A → Result A
as_validation (err (security_error m)) = err (validation_error m)
as_validation r = r

-- `_validate_safe_command` and `_validate_safe_http_url`
unfoldable pub safe_command : String → Option String → Result (Option String)
safe_command name value = as_validation (validate_command_name value name)

unfoldable pub safe_http_url : Urls → String → Option String → Result (Option String)
safe_http_url u name value = as_validation (validate_http_url u value name)

keys : Fields → List String
keys end = []
keys (field k v fs) = k ∷ keys fs

-- `str` of a list of names, each of them in quotes.
quoted : List String → String
quoted [] = ""
quoted (k ∷ []) = "'" <> k <> "'"
quoted (k ∷ j ∷ ks) = "'" <> k <> "', " <> quoted (j ∷ ks)

unknown_keys : List String → Fields → List String
unfolding keys
unknown_keys accepted payload =
    sort_by text_leb (select_rows (λ k. not (elem k accepted)) (keys payload))

-- `_reject_unknown_keys`
unfoldable pub reject_unknown_keys : String → List String → Fields → Result (Unit {0})
unfolding quoted unknown_keys
reject_unknown_keys model accepted payload = elim (unknown_keys accepted payload) [
  | [] ↦ ok tt
  | k ∷ ks ↦
      err (validation_error ("unknown fields for " <> model <> ": [" <> quoted (k ∷ ks) <> "]"))
]

-- The values that `to_dict` makes of a text or None, of a list of texts, and of an int.
abbrev pub nullable : Option String → Json
nullable none = null
nullable (some s) = text s

unfoldable pub text_items : List String → Items
text_items [] = nil
text_items (s ∷ ss) = cons (text s) (text_items ss)

abbrev pub int_json : ℕ → Json
int_json n = number (decimal n)
