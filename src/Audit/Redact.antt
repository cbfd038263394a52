-- ===== src/Audit/Redact.antt =====
-- `redact_secrets` of observability/audit.py.
use mathlib.Core.Path.{subst}
use mcp_multiplex.Prelude.{
  ℕ, ◌+◌, String, Bool, true, false, ◌||◌, ◌&&◌, List, [], ◌∷◌, ◌≡◌, ◌↔◌, refl, ap, sym,
  if◌then◌else◌, leb, eqb, codes,
}
use mcp_multiplex.Json.{
  Json, Items, Fields, null, boolean, number, text, array, object, nil, cons, end, field,
}

abbrev pub redacted_value : String
redacted_value = "[REDACTED]"

-- The letter that re.IGNORECASE compares: ASCII capitals, dotted and dotless I, long s, and the
-- Kelvin sign match a small ASCII letter.
fold_case : ℕ → ℕ
fold_case c =
    if leb b'A' c && leb c b'Z'
    then c + 32
    else if eqb c 0x130 || eqb c 0x131
    then b'i'
    else if eqb c 0x17f
    then b's'
    else if eqb c 0x212a
    then b'k'
    else c

has_prefix : List ℕ → List ℕ → Bool
unfolding fold_case
has_prefix [] s = true
has_prefix (c ∷ w) [] = false
has_prefix (c ∷ w) (d ∷ s) = eqb c (fold_case d) && has_prefix w s

has_infix : List ℕ → List ℕ → Bool
unfolding has_prefix
has_infix w [] = has_prefix w []
has_infix w (c ∷ s) = has_prefix w (c ∷ s) || has_infix w s

has_any : List String → List ℕ → Bool
unfolding has_infix
has_any [] s = false
has_any (w ∷ ws) s = has_infix (codes w) s || has_any ws s

-- The alternatives of SECRET_KEY_PATTERN, with `[_-]?` written out.
abbrev secret_words : List String
secret_words =
    "secret" ∷ "token" ∷ "password" ∷ "passwd" ∷ "apikey" ∷ "api_key" ∷ "api-key" ∷ "accesskey"
    ∷ "access_key" ∷ "access-key" ∷ "authtoken" ∷ "auth_token" ∷ "auth-token" ∷ "credential" ∷ []

-- SECRET_KEY_PATTERN.search(key)
unfoldable pub is_secret_key : String → Bool
unfolding has_any
is_secret_key key = has_any secret_words (codes key)

unfoldable mutual
  pub redact_secrets : Json → Json
  redact_secrets null = null
  redact_secrets (boolean b) = boolean b
  redact_secrets (number n) = number n
  redact_secrets (text s) = text s
  redact_secrets (array xs) = array (redact_items xs)
  redact_secrets (object fs) = object (redact_fields fs)

  pub redact_items : Items → Items
  redact_items nil = nil
  redact_items (cons x xs) = cons (redact_secrets x) (redact_items xs)

  pub redact_fields : Fields → Fields
  redact_fields end = end
  redact_fields (field k v fs) =
      field k (if is_secret_key k then text redacted_value else redact_secrets v) (redact_fields fs)

-- Under a secret key stands the label, at every depth outside such keys.
abbrev mutual
  pub IsRedacted : Json → Type 0
  IsRedacted (array xs) = AreRedacted xs
  IsRedacted (object fs) = FieldsRedacted fs
  IsRedacted _ = Unit {0}

  pub AreRedacted : Items → Type 0
  AreRedacted nil = Unit {0}
  AreRedacted (cons x xs) = IsRedacted x × AreRedacted xs

  pub FieldsRedacted : Fields → Type 0
  FieldsRedacted end = Unit {0}
  FieldsRedacted (field k v fs) =
      (if is_secret_key k then v ≡ text redacted_value else IsRedacted v) × FieldsRedacted fs

redact_if :
    (b : Bool) (v : Json)
    → IsRedacted v
    → (if b
        then (if b then text redacted_value else v) ≡ text redacted_value
        else IsRedacted (if b then text redacted_value else v))
redact_if true v h = refl
redact_if false v h = h

mutual
  unfolding redact_secrets redact_items redact_fields

  redact_secrets_all : (x : Json) → IsRedacted (redact_secrets x)
  redact_secrets_all null = tt
  redact_secrets_all (boolean b) = tt
  redact_secrets_all (number n) = tt
  redact_secrets_all (text s) = tt
  redact_secrets_all (array xs) = redact_items_all xs
  redact_secrets_all (object fs) = redact_fields_all fs

  redact_items_all : (xs : Items) → AreRedacted (redact_items xs)
  redact_items_all nil = tt
  redact_items_all (cons x xs) = (redact_secrets_all x, redact_items_all xs)

  redact_fields_all : (fs : Fields) → FieldsRedacted (redact_fields fs)
  redact_fields_all end = tt
  redact_fields_all (field k v fs) =
      (redact_if (is_secret_key k) (redact_secrets v) (redact_secrets_all v), redact_fields_all fs)

keep_if :
    (b : Bool) (v w : Json)
    → (if b then v ≡ text redacted_value else IsRedacted v)
    → (IsRedacted v → w ≡ v)
    → (if b then text redacted_value else w) ≡ v
keep_if true v w h e = sym h
keep_if false v w h e = e h

mutual
  unfolding redact_secrets redact_items redact_fields

  redact_secrets_keeps : (x : Json) → IsRedacted x → redact_secrets x ≡ x
  redact_secrets_keeps null h = refl
  redact_secrets_keeps (boolean b) h = refl
  redact_secrets_keeps (number n) h = refl
  redact_secrets_keeps (text s) h = refl
  redact_secrets_keeps (array xs) h = ap array (redact_items_keeps xs h)
  redact_secrets_keeps (object fs) h = ap object (redact_fields_keeps fs h)

  redact_items_keeps : (xs : Items) → AreRedacted xs → redact_items xs ≡ xs
  redact_items_keeps nil h = refl
  redact_items_keeps (cons x xs) h = cc (redact_secrets_keeps x h.0, redact_items_keeps xs h.1)

  redact_fields_keeps : (fs : Fields) → FieldsRedacted fs → redact_fields fs ≡ fs
  redact_fields_keeps end h = refl
  redact_fields_keeps (field k v fs) h = cc (
    keep_if (is_secret_key k) v (redact_secrets v) h.0 (redact_secrets_keeps v),
    redact_fields_keeps fs h.1,
  )

-- The result of redaction has the label under every secret key, at every depth.
pub redact_secrets-IsRedacted : (x : Json) → IsRedacted (redact_secrets x)
redact_secrets-IsRedacted x = redact_secrets_all x

-- A value is its own redaction exactly when the label stands under each of its secret keys.
pub redact_secrets-fixed : (x : Json) → (redact_secrets x ≡ x) ↔ IsRedacted x
redact_secrets-fixed x = (λ e. subst IsRedacted e (redact_secrets_all x), redact_secrets_keeps x)
