-- ===== src/Exec.antt =====
-- Python's exceptions and calls that change a store. The classes of the exceptions that the source
-- raises are the constructors of `Error`, each with the message.
use mcp_multiplex.Prelude.{
  ℕ, String, Option, none, some, Bool, true, false, List, [], ◌∷◌, ◌≡◌, ◌⊎◌, inl, inr, refl, ap,
  sym, ◌∙◌, ◌≢◌, if◌then◌else◌,
}
use mcp_multiplex.Json.{Json}

pub data Error : Type 0 where
  -- schemas.ValidationError, and the ValueError of the standard library
  validation_error value_error : String → Error
  -- KeyError, sqlite3.IntegrityError, OSError
  key_error : String → Error
  integrity_error : Error
  os_error : String → Error
  -- the packages' own classes
  approval_error auth_error apply_error rollback_error proxy_error : String → Error
  planning_error security_error catalog_error registry_error : String → Error
  credential_error resolution_error : String → Error
  -- an exception of the interpreter, such as AttributeError
  python_error : Error

pub data Result {ℓ} (A : Type ℓ) : Type ℓ where
  ok : A → Result A
  err : Error → Result A

abbrev pub and_then {ℓ κ} : {A : Type ℓ} {B : Type κ} → Result A → (A → Result B) → Result B
and_then (ok a) f = f a
and_then (err e) f = err e

pub Result-cases {ℓ} :
    {A : Type ℓ} (r : Result A) → ((a : A) × (r ≡ ok a)) ⊎ ((e : Error) × (r ≡ err e))
Result-cases (ok a) = inl (a, refl)
Result-cases (err e) = inr (e, refl)

abbrev or_ok {ℓ} : {A : Type ℓ} → A → Result A → A
or_ok d (ok a) = a
or_ok d (err e) = d

pub ok-injective {ℓ} : {A : Type ℓ} (a b : A) → ok a ≡ ok b → a ≡ b
ok-injective a b e = ap (or_ok a) e

pub err-ne-ok {ℓ} : {A : Type ℓ} (e : Error) (a : A) → err e ≢ ok a
err-ne-ok e a h = cc h

-- What a chain of steps that returned went through.
pub bind_elim {ℓ κ μ} :
    {A : Type ℓ} {B : Type κ} {P : Type μ} (r : Result A) (f : A → Result B) (b : B)
    → and_then r f ≡ ok b
    → ((a : A) → r ≡ ok a → f a ≡ ok b → P)
    → P
bind_elim (ok a) f b h k = k a refl h
bind_elim (err e) f b h k = cc

abbrev pub require {ℓ} : {A : Type ℓ} → Option A → Error → Result A
require none e = err e
require (some a) e = ok a

abbrev pub refuse_if : Bool → Error → Result (Unit {0})
refuse_if c e = if c then err e else ok tt

-- A validator, and what runs when it did not raise.
abbrev pub check {ℓ} : {A : Type ℓ} → Result (Unit {0}) → Result A → Result A
check (ok _) rest = rest
check (err e) rest = err e

-- Validators in a row: the first that raises ends the call.
abbrev pub check_all {ℓ} : {A : Type ℓ} → List (Result (Unit {0})) → Result A → Result A
check_all [] rest = rest
check_all (c ∷ cs) rest = check c (check_all cs rest)

pub check-eq-ok {ℓ} :
    {A : Type ℓ} (r : Result (Unit {0})) (rest : Result A) (a : A)
    → check r rest ≡ ok a
    → rest ≡ ok a
check-eq-ok (ok u) rest a h = h
check-eq-ok (err e) rest a h = cc

pub check_all-eq-ok {ℓ} :
    {A : Type ℓ} (cs : List (Result (Unit {0}))) (rest : Result A) (a : A)
    → check_all cs rest ≡ ok a
    → rest ≡ ok a
check_all-eq-ok [] rest a h = h
check_all-eq-ok (c ∷ cs) rest a h =
    check_all-eq-ok cs rest a (check-eq-ok c (check_all cs rest) a h)

pub and_then-eq-ok {ℓ κ} :
    {A : Type ℓ} {B : Type κ} (r : Result A) (f : A → Result B) (b : B)
    → and_then r f ≡ ok b
    → (a : A) × (r ≡ ok a) × (f a ≡ ok b)
and_then-eq-ok (ok a) f b h = (a, refl, h)
and_then-eq-ok (err e) f b h = cc

pub require-eq-ok {ℓ} :
    {A : Type ℓ} (o : Option A) (e : Error) (a : A) → require o e ≡ ok a → o ≡ some a
require-eq-ok none e a h = cc
require-eq-ok (some b) e a h = cc

pub refuse_if-eq-ok {ℓ} :
    {A : Type ℓ} (c : Bool) (e : Error) (rest : Result A) (a : A)
    → check (refuse_if c e) rest ≡ ok a
    → (c ≡ false) × (rest ≡ ok a)
refuse_if-eq-ok true e rest a h = cc
refuse_if-eq-ok false e rest a h = (refl, h)

-- A call that may raise. What it committed before the raise stays, so the store comes back too.
abbrev pub Action : Type 0 → Type 0 → Type 0
Action S A = S → Result A × S

module _ {S A : Type 0} where
  abbrev pub pure : A → Action S A
  pure a s = (ok a, s)

  abbrev pub raise : Error → Action S A
  raise e s = (err e, s)

  abbrev pub lift : Result A → Action S A
  lift r s = (r, s)

  abbrev pub gets : (S → A) → Action S A
  gets f s = (ok (f s), s)

  -- A call that only reads.
  abbrev pub reads : (S → Result A) → Action S A
  reads f s = (f s, s)

  abbrev pub or_raise : Error → Option A → Action S A
  or_raise e none s = (err e, s)
  or_raise e (some a) s = (ok a, s)

  -- `with connection:` — the statements are committed together, or not at all.
  abbrev pub transaction : (S → Result (A × S)) → Action S A
  transaction t s = elim (t s) [ ok (a, s') ↦ (ok a, s') | err e ↦ (err e, s) ]

module _ {S : Type 0} where
  abbrev pub raise_if : Bool → Error → Action S (Unit {0})
  raise_if c e s = (if c then err e else ok tt, s)

  abbrev pub modify : (S → S) → Action S (Unit {0})
  modify f s = (ok tt, f s)

infixl 5 ◌>>=◌ ◌>>◌
abbrev pub ◌>>=◌ : {S A B : Type 0} → Action S A → (A → Action S B) → Action S B
◌>>=◌ m f s = let (r, s') = m s in elim r [ ok a ↦ f a s' | err e ↦ (err e, s') ]

abbrev pub ◌>>◌ : {S A B : Type 0} → Action S A → Action S B → Action S B
m >> k = m >>= λ _. k

-- What a block of calls that returned went through: its first call returned, and the rest ran on the
-- store that this call left.
pub act_elim {ℓ} :
    {S A B : Type 0} {P : Type ℓ} (m : Action S A) (s : S) (rest : A → Result B × S) (b : B)
    (s' : S)
    → (elim (m s).0 as (λ _. Result B × S) [ ok a ↦ rest a | err e ↦ (err e, (m s).1) ])
      ≡ (ok b, s')
    → ((a : A) → m s ≡ (ok a, (m s).1) → rest a ≡ (ok b, s') → P)
    → P
act_elim {S} {A} {B} {P} m s rest b s' h k = step (m s) refl h
  where
    step :
        (o : Result A × S)
        → m s ≡ o
        → (elim o.0 as (λ _. Result B × S) [ ok a ↦ rest a | err e ↦ (err e, (m s).1) ])
          ≡ (ok b, s')
        → P
    step (ok a, t) same h = k a (same ∙ ap (λ x. (ok a, x)) (sym (ap (λ o. o.1) same))) h
    step (err e, t) same h = absurd (err-ne-ok e b (ap (λ o. o.0) h))

-- The store after a block of calls, whether it returned or raised: if the first call moves the store
-- as `R` says, and the rest does where it runs, then so does the block.
pub act_moves {ℓ} :
    {S A B : Type 0} (R : S → S → Type ℓ)
    → ((s t u : S) → R s t → R t u → R s u)
    → (m : Action S A) (s : S) (rest : A → Result B × S) → R s (m s).1
    → ((a : A) → m s ≡ (ok a, (m s).1) → R (m s).1 (rest a).1)
    → R s (elim (m s).0 as (λ _. Result B × S) [ ok a ↦ rest a | err e ↦ (err e, (m s).1) ]).1
act_moves {S} {A} {B} R trans m s rest first next = step (m s) refl
  where
    step :
        (o : Result A × S)
        → m s ≡ o
        → R s (elim o.0 as (λ _. Result B × S) [ ok a ↦ rest a | err e ↦ (err e, (m s).1) ]).1
    step (ok a, t) same =
        trans s (m s).1 (rest a).1 first
          (next a (same ∙ ap (λ x. (ok a, x)) (sym (ap (λ o. o.1) same))))
    step (err e, t) same = first

-- What a block, and a transaction, does where its first call, or its statements, returned or raised.
pub bound :
    {S A B : Type 0} (m : Action S A) (f : A → Action S B) (s : S) (a : A) (s' : S)
    → m s ≡ (ok a, s')
    → (m >>= f) s ≡ f a s'
bound {S} {A} {B} m f s a s' e =
    ap (λ o. elim o.0 as (λ _. Result B × S) [ ok x ↦ f x o.1 | err y ↦ (err y, o.1) ]) e

pub bound_raised :
    {S A B : Type 0} (m : Action S A) (f : A → Action S B) (s : S) (x : Error) (s' : S)
    → m s ≡ (err x, s')
    → (m >>= f) s ≡ (err x, s')
bound_raised {S} {A} {B} m f s x s' e =
    ap (λ o. elim o.0 as (λ _. Result B × S) [ ok a ↦ f a o.1 | err y ↦ (err y, o.1) ]) e

pub transaction_ok :
    {S A : Type 0} (t : S → Result (A × S)) (s : S) (a : A) (s' : S)
    → t s ≡ ok (a, s')
    → transaction t s ≡ (ok a, s')
transaction_ok t s a s' e = rw (e, transaction)

pub transaction_raised :
    {S A : Type 0} (t : S → Result (A × S)) (s : S) (x : Error)
    → t s ≡ err x
    → transaction t s ≡ (err x, s)
transaction_raised t s x e = rw (e, transaction)

-- The store after a transaction: it is what the statements made of it, or as it was.
pub transaction_moves {ℓ} :
    {S A : Type 0} (R : S → S → Type ℓ) (t : S → Result (A × S)) (s : S)
    → R s s
    → ((r : A × S) → t s ≡ ok r → R s r.1)
    → R s (transaction t s).1
transaction_moves {S} {A} R t s same next = step (t s) refl
  where
    step : (o : Result (A × S)) → t s ≡ o → R s (transaction (λ _. o) s).1
    step (ok r) e = next r e
    step (err x) e = same

-- SHA-256 as a hexadecimal text: of bytes; of the UTF-8 bytes of a text; of the canonical text of a JSON
-- value; and of what `json.dumps` with sorted keys and default separators prints.
pub record Sha256 : Type 0 where
  pub of_bytes : String → String
  pub of_text : String → String
  pub of_json : Json → String
  pub of_dump : Json → String

-- What a call reads outside the store: the time as `_current_timestamp` prints it, as `strftime`
-- prints it for an event, and as CURRENT_TIMESTAMP, and as an instant in microseconds; a fresh uuid4,
-- and a fresh `token_urlsafe`. A call reads the clock once.
pub record Clock : Type 0 where
  pub now : String
  pub event_now : String
  pub sql_now : String
  pub nonce : String
  pub instant : ℕ
  pub secret : String

-- `datetime.fromisoformat` with the time zone that is assumed without one: an instant in
-- microseconds, or none where it raises a ValueError.
pub record Calendar : Type 0 where
  pub parse : String → Option ℕ
