-- ===== src/Auth.antt =====
-- auth/__init__.py: what local tokens and registration tokens share.
pub mod Local
pub mod Registration
pub mod Calls
pub mod OneTime
pub mod Revoked
mod Tests
use mcp_multiplex.Prelude.{
  String, ℕ, Bool, true, false, not, ◌&&◌, ◌||◌, List, [], ◌∷◌, ◌++◌, Option, none, some, is_some,
  if◌then◌else◌, leb, ◌==◌, ◌<>◌, text_or, truthy, elem, has_row, find_row, update_rows, text_leb,
  take_text,
}
use mcp_multiplex.Json.{Json, Fields, Items, nil, cons, array, text, null, object, field, end}
use mcp_multiplex.Exec.{
  Error, auth_error, value_error, key_error, integrity_error, Result, ok, err, and_then, require,
  refuse_if, check, Action, pure, lift, reads, gets, modify, transaction, Sha256, Clock, Calendar,
  ◌>>=◌, ◌>>◌,
}
use mcp_multiplex.Storage.{Database, AgentRow, AuthTokenRow, RegistrationTokenRow}
use mcp_multiplex.Audit.{EventArgs, append}

abbrev pub auth_scopes : List String
auth_scopes = "control:read" ∷ "control:mutate" ∷ "agent:register" ∷ "runtime:admin" ∷ []

abbrev pub subject_types : List String
subject_types = "operator" ∷ "agent" ∷ "daemon" ∷ []

pub record IssuedToken : Type 0 where
  pub token_id : String
  pub token : String
  pub token_ref : String
  pub subject_type : String
  pub subject_id : Option String
  pub scopes : List String
  pub expires_at : Option String

-- `sorted(set(scopes))`
abbrev pub insert_scope : String → List String → List String
insert_scope s [] = s ∷ []
insert_scope s (x ∷ xs) =
    let rest = insert_scope s xs in
    if s == x then x ∷ xs else if text_leb s x then s ∷ x ∷ xs else x ∷ rest

abbrev pub sorted_set : List String → List String
sorted_set [] = []
sorted_set (s ∷ xs) = insert_scope s (sorted_set xs)

-- The members that are no scope.
abbrev pub unknown_scopes : List String → List String
unknown_scopes [] = []
unknown_scopes (s ∷ xs) =
    let rest = unknown_scopes xs in if elem s auth_scopes then rest else s ∷ rest

-- A list in an f-string. The texts are put in quotes; none has a quote or an escape itself.
abbrev repr_tail : List String → String
repr_tail [] = "]"
repr_tail (s ∷ xs) = ", '" <> s <> "'" <> repr_tail xs

abbrev repr_list : List String → String
repr_list [] = "[]"
repr_list (s ∷ xs) = "['" <> s <> "'" <> repr_tail xs

unfoldable pub validate_subject : String → Result (Unit {0})
validate_subject subject_type =
    refuse_if (not (elem subject_type subject_types))
      (auth_error ("unsupported subject_type: " <> subject_type))

unfoldable pub validate_scopes : List String → Result (List String)
validate_scopes [] = err (auth_error "at least one scope is required")
validate_scopes (s ∷ xs) = elim (unknown_scopes (sorted_set (s ∷ xs))) [
  | [] ↦ ok (sorted_set (s ∷ xs))
  | u ∷ us ↦ err (auth_error ("unsupported auth scopes: " <> repr_list (u ∷ us)))
]

unfoldable pub hash_token : Sha256 → String → String
hash_token h token = "sha256:" <> h.of_text token

unfoldable pub token_id : Sha256 → String → String → String
token_id h prefix token = prefix <> "_" <> take_text 24 (h.of_text token)

-- `_is_expired`
unfoldable pub is_expired : Calendar → Clock → Option String → Result Bool
is_expired cal c none = ok false
is_expired cal c (some expires_at) = elim (cal.parse expires_at) [
  | none ↦ err (value_error ("Invalid isoformat string: " <> expires_at))
  | some t ↦ ok (leb t c.instant)
]

abbrev pub nullable : Option String → Json
nullable none = null
nullable (some s) = text s

abbrev pub text_items : List String → Items
text_items [] = nil
text_items (s ∷ xs) = cons (text s) (text_items xs)

-- `_emit_auth_event`
unfoldable pub auth_event : Sha256 → Clock → String → Fields → Option String → EventArgs
auth_event h c event_type payload agent_id = record {
  event_id =
      "evt_"
      <> take_text 24 (
          h.of_json (
            object (
              field "event_type" (text event_type) (
                field "nonce" (text c.nonce)
                  (field "payload" (object payload) (field "timestamp" (text c.now) end))))));
  event_type = event_type;
  actor = "daemon";
  result = "success";
  payload = payload;
  agent_id = agent_id;
  plan_id = none;
  target_path = none;
  before_hash = none;
  after_hash = none;
  backup_id = none;
  timestamp = some c.now;
}
