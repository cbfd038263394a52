-- ===== src/Json/Canonical.antt =====
-- `json.dumps(value, sort_keys=True, separators=(",", ":"))` as a normal form: two values have the
-- same canonical text when they have the same normal form, with the keys of each object sorted.
use mcp_multiplex.Prelude.{
  String, true, Bool-cases, inl, inr, ◌≡◌, refl, ap, arith, if◌then◌else◌, text_leb, text_leb_total,
}
use mcp_multiplex.Json.{
  Json, Items, Fields, null, boolean, number, text, array, object, nil, cons, end, field,
}

-- Puts a field before the first one with the same or a greater key.
unfoldable pub insert_field : String → Json → Fields → Fields
insert_field k v end = field k v end
insert_field k v (field j w fs) =
    if text_leb k j then field k v (field j w fs) else field j w (insert_field k v fs)

unfoldable mutual
  pub canonical : Json → Json
  canonical null = null
  canonical (boolean b) = boolean b
  canonical (number n) = number n
  canonical (text s) = text s
  canonical (array xs) = array (canonical_items xs)
  canonical (object fs) = object (canonical_fields fs)

  pub canonical_items : Items → Items
  canonical_items nil = nil
  canonical_items (cons x xs) = cons (canonical x) (canonical_items xs)

  pub canonical_fields : Fields → Fields
  canonical_fields end = end
  canonical_fields (field k v fs) = insert_field k (canonical v) (canonical_fields fs)

-- No key of the head is above the next one.
abbrev IsAbove : String → Fields → Type 0
IsAbove k end = Unit {0}
IsAbove k (field j w fs) = text_leb k j ≡ true

abbrev mutual
  IsCanonical : Json → Type 0
  IsCanonical (array xs) = AreCanonical xs
  IsCanonical (object fs) = IsSorted fs
  IsCanonical _ = Unit {0}

  AreCanonical : Items → Type 0
  AreCanonical nil = Unit {0}
  AreCanonical (cons x xs) = IsCanonical x × AreCanonical xs

  IsSorted : Fields → Type 0
  IsSorted end = Unit {0}
  IsSorted (field k v fs) = IsAbove k fs × IsCanonical v × IsSorted fs

insert_field-IsAbove :
    (j k : String) (v : Json) (fs : Fields)
    → text_leb j k ≡ true
    → IsAbove j fs
    → IsAbove j (insert_field k v fs)
unfolding insert_field
insert_field-IsAbove j k v end h a = h
insert_field-IsAbove j k v (field i w fs) h a = ground arith

insert_field-IsSorted :
    (k : String) (v : Json) (fs : Fields)
    → IsCanonical v
    → IsSorted fs
    → IsSorted (insert_field k v fs)
unfolding insert_field
insert_field-IsSorted k v end c s = (tt, c, tt)
insert_field-IsSorted k v (field j w fs) c s = elim (Bool-cases (text_leb k j)) [
  | inl before ↦ rw before (before, c, s)
  | inr after ↦ rw after (
    insert_field-IsAbove j k v fs (text_leb_total k j after) s.0,
    s.1,
    insert_field-IsSorted k v fs c s.2,
  )
]

mutual
  unfolding canonical canonical_items canonical_fields

  canonical-IsCanonical : (x : Json) → IsCanonical (canonical x)
  canonical-IsCanonical null = tt
  canonical-IsCanonical (boolean b) = tt
  canonical-IsCanonical (number n) = tt
  canonical-IsCanonical (text s) = tt
  canonical-IsCanonical (array xs) = canonical_items-AreCanonical xs
  canonical-IsCanonical (object fs) = canonical_fields-IsSorted fs

  canonical_items-AreCanonical : (xs : Items) → AreCanonical (canonical_items xs)
  canonical_items-AreCanonical nil = tt
  canonical_items-AreCanonical (cons x xs) =
      (canonical-IsCanonical x, canonical_items-AreCanonical xs)

  canonical_fields-IsSorted : (fs : Fields) → IsSorted (canonical_fields fs)
  canonical_fields-IsSorted end = tt
  canonical_fields-IsSorted (field k v fs) =
      insert_field-IsSorted k (canonical v) (canonical_fields fs) (canonical-IsCanonical v)
        (canonical_fields-IsSorted fs)

insert_field-IsAbove_eq :
    (k : String) (v : Json) (fs : Fields) → IsAbove k fs → insert_field k v fs ≡ field k v fs
unfolding insert_field
insert_field-IsAbove_eq k v end a = refl
insert_field-IsAbove_eq k v (field j w fs) a = ground arith

mutual
  unfolding canonical canonical_items canonical_fields

  canonical_of_IsCanonical : (x : Json) → IsCanonical x → canonical x ≡ x
  canonical_of_IsCanonical null c = refl
  canonical_of_IsCanonical (boolean b) c = refl
  canonical_of_IsCanonical (number n) c = refl
  canonical_of_IsCanonical (text s) c = refl
  canonical_of_IsCanonical (array xs) c = ap array (canonical_items_of_AreCanonical xs c)
  canonical_of_IsCanonical (object fs) c = ap object (canonical_fields_of_IsSorted fs c)

  canonical_items_of_AreCanonical : (xs : Items) → AreCanonical xs → canonical_items xs ≡ xs
  canonical_items_of_AreCanonical nil c = refl
  canonical_items_of_AreCanonical (cons x xs) c =
      cc (canonical_of_IsCanonical x c.0, canonical_items_of_AreCanonical xs c.1)

  canonical_fields_of_IsSorted : (fs : Fields) → IsSorted fs → canonical_fields fs ≡ fs
  canonical_fields_of_IsSorted end c = refl
  canonical_fields_of_IsSorted (field k v fs) c =
      rw (canonical_of_IsCanonical v c.1, canonical_fields_of_IsSorted fs c.2)
        (insert_field-IsAbove_eq k v fs c.0)

-- What was printed and read back prints the same.
pub canonical_idem : (x : Json) → canonical (canonical x) ≡ canonical x
canonical_idem x = canonical_of_IsCanonical (canonical x) (canonical-IsCanonical x)
