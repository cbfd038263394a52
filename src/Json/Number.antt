-- ===== src/Json/Number.antt =====
-- Integers as `json` prints and reads them.
use Prim.Native.String.{slice}
use text.Mathlib.TextLemmas.{cons-append, nil-append}
use mcp_multiplex.Prelude.{
  ℕ, zero, suc, ◌+◌, ◌-◌, ◌*◌, ◌<◌, String, true, false, ◌&&◌, List, [], ◌∷◌, ◌++◌, Option, none,
  some, ◌≡◌, refl, ap, arith, if◌then◌else◌, ltb, leb, ◌<>◌, codes, Bool-cases, inl, inr, ◌≢◌, ◌∙◌,
}

-- `negsuc n` is -(n + 1).
pub data ℤ : Type 0 where
  pos : ℕ → ℤ
  negsuc : ℕ → ℤ

-- The digits of the next number, the last digit first.
next_digits : List ℕ → List ℕ
next_digits [] = 1 ∷ []
next_digits (d ∷ ds) = let carried = next_digits ds in if ltb d 9 then (d + 1) ∷ ds else 0 ∷ carried

digits : ℕ → List ℕ
unfolding next_digits
digits zero = 0 ∷ []
digits (suc n) = next_digits (digits n)

print_digits : List ℕ → String
print_digits [] = ""
print_digits (d ∷ ds) = print_digits ds <> slice "0123456789" d (d + 1)

-- An int as JSON prints it.
unfoldable pub decimal : ℕ → String
unfolding digits print_digits
decimal n = print_digits (digits n)

-- The digits that are left to read, after those that make `n`.
read_digits : ℕ → List ℕ → Option ℕ
read_digits n [] = some n
read_digits n (c ∷ cs) =
    let rest = read_digits (n * 10 + (c - 48)) cs in if leb 48 c && leb c 57 then rest else none

read_nat : List ℕ → Option ℕ
unfolding read_digits
read_nat [] = none
read_nat (c ∷ cs) = read_digits 0 (c ∷ cs)

negate : Option ℕ → Option ℤ
negate none = none
negate (some zero) = some (pos 0)
negate (some (suc n)) = some (negsuc n)

abbrev positive : Option ℕ → Option ℤ
positive none = none
positive (some n) = some (pos n)

read_codes : List ℕ → Option ℤ
unfolding read_nat negate
read_codes [] = none
read_codes (c ∷ cs) =
    if ltb c 45
    then none
    else if ltb 45 c
    then positive (read_nat (c ∷ cs))
    else negate (read_nat cs)

-- The int that a number's literal stands for, or none where `json` reads a float.
unfoldable pub read_int : String → Option ℤ
unfolding read_codes
read_int s = read_codes (codes s)

value : List ℕ → ℕ
value [] = 0
value (d ∷ ds) = value ds * 10 + d

abbrev AreDigits : List ℕ → Type 0
AreDigits [] = Unit {0}
AreDigits (d ∷ ds) = (d < 10) × AreDigits ds

next_digits-AreDigits : (ds : List ℕ) → AreDigits ds → AreDigits (next_digits ds)
unfolding next_digits
next_digits-AreDigits [] a = (omega arith, tt)
next_digits-AreDigits (d ∷ ds) a = elim (Bool-cases (ltb d 9)) [
  | inl low ↦ rw low (ground arith, a.1)
  | inr high ↦ rw high (omega arith, next_digits-AreDigits ds a.1)
]

value-next_digits : (ds : List ℕ) → AreDigits ds → value (next_digits ds) ≡ value ds + 1
unfolding value next_digits
value-next_digits [] a = omega arith
value-next_digits (d ∷ ds) a = ground (arith, value-next_digits ds a.1)

digits-AreDigits : (n : ℕ) → AreDigits (digits n)
unfolding digits
digits-AreDigits zero = (omega arith, tt)
digits-AreDigits (suc n) = next_digits-AreDigits (digits n) (digits-AreDigits n)

value-digits : (n : ℕ) → value (digits n) ≡ n
unfolding digits
value-digits zero = unfold value in refl
value-digits (suc n) =
    omega (arith, value-next_digits (digits n) (digits-AreDigits n), value-digits n)

codes-append : (s t : String) → codes (s <> t) ≡ codes s ++ codes t
codes-append String.[] t = rw (nil-append t)
codes-append (String.◌∷◌ c s) t = rw (cons-append c s t, codes-append s t)

codes-digit : (d : ℕ) → d < 10 → codes (slice "0123456789" d (d + 1)) ≡ (d + 48) ∷ []
codes-digit zero h = refl
codes-digit (suc zero) h = refl
codes-digit (suc (suc zero)) h = refl
codes-digit (suc (suc (suc zero))) h = refl
codes-digit (suc (suc (suc (suc zero)))) h = refl
codes-digit (suc (suc (suc (suc (suc zero))))) h = refl
codes-digit (suc (suc (suc (suc (suc (suc zero)))))) h = refl
codes-digit (suc (suc (suc (suc (suc (suc (suc zero))))))) h = refl
codes-digit (suc (suc (suc (suc (suc (suc (suc (suc zero)))))))) h = refl
codes-digit (suc (suc (suc (suc (suc (suc (suc (suc (suc zero))))))))) h = refl
codes-digit (suc (suc (suc (suc (suc (suc (suc (suc (suc (suc n)))))))))) h = absurd (omega arith)

read_digits-append :
    (cs : List ℕ) (n v d : ℕ)
    → d < 10
    → read_digits n cs ≡ some v
    → read_digits n (cs ++ (d + 48) ∷ []) ≡ some (v * 10 + d)
unfolding read_digits
read_digits-append [] n v d h e = ground arith
read_digits-append (c ∷ cs) n v d h e =
    ground (arith, read_digits-append cs (n * 10 + (c - 48)) v d h)

read_digits-print :
    (ds : List ℕ) → AreDigits ds → read_digits 0 (codes (print_digits ds)) ≡ some (value ds)
unfolding print_digits value
read_digits-print [] a = unfold read_digits in refl
read_digits-print (d ∷ ds) a =
    rw (codes-append (print_digits ds) (slice "0123456789" d (d + 1)), codes-digit d a.0)
      (read_digits-append (codes (print_digits ds)) 0 (value ds) d a.0 (read_digits-print ds a.1))

-- A text of digits alone is read as a positive number.
read_codes-digits :
    (c : ℕ) (cs : List ℕ) (v : ℕ)
    → read_digits 0 (c ∷ cs) ≡ some v
    → read_codes (c ∷ cs) ≡ some (pos v)
unfolding read_codes read_nat
read_codes-digits c cs v e = elim (Bool-cases (leb 48 c)) [
  | inl digit ↦
      let low : ltb c 45 ≡ false = ground arith in
      let high : ltb 45 c ≡ true = ground arith in rw (low, high, e)
  | inr other ↦ unfold read_digits in ground arith
]

read_codes-append :
    (cs : List ℕ) (c v : ℕ)
    → read_digits 0 (cs ++ c ∷ []) ≡ some v
    → read_codes (cs ++ c ∷ []) ≡ some (pos v)
read_codes-append [] c v e = read_codes-digits c [] v e
read_codes-append (b ∷ cs) c v e = read_codes-digits b (cs ++ c ∷ []) v e

read_codes-print :
    (ds : List ℕ)
    → AreDigits ds
    → ds ≢ []
    → read_codes (codes (print_digits ds)) ≡ some (pos (value ds))
unfolding print_digits value
read_codes-print [] a nonempty = absurd (nonempty refl)
read_codes-print (d ∷ ds) a nonempty =
    rw (codes-append (print_digits ds) (slice "0123456789" d (d + 1)), codes-digit d a.0)
      (read_codes-append (codes (print_digits ds)) (d + 48) (value (d ∷ ds)) (
        read_digits-append (codes (print_digits ds)) 0 (value ds) d a.0 (read_digits-print ds a.1)))

next_digits-ne-nil : (ds : List ℕ) → next_digits ds ≢ []
unfolding next_digits
next_digits-ne-nil [] e = cc e
next_digits-ne-nil (d ∷ ds) e = ground arith

digits-ne-nil : (n : ℕ) → digits n ≢ []
unfolding digits
digits-ne-nil zero e = cc e
digits-ne-nil (suc n) e = next_digits-ne-nil (digits n) e

-- What is printed is read back.
pub read_int-decimal : (n : ℕ) → read_int (decimal n) ≡ some (pos n)
unfolding read_int decimal
read_int-decimal n =
    read_codes-print (digits n) (digits-AreDigits n) (digits-ne-nil n)
    ∙ ap (λ v. some (pos v)) (value-digits n)
