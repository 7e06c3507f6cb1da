-- ===== src/Model/Values/Compare.antt =====
-- `reflect.DeepEqual` on maps of JSON values, by which internal/broker/provision.go compares the
-- parameters of a request with those of an instance.
use helm_broker.Common.{
  String, ◌≡◌, refl, Bool, true, false, Option, none, some, arith, ◌==◌, ◌&&◌, eq_refl, eq_iff,
  nat_eq, bool_eq,
}
use helm_broker.Model.Values.{
  Value, Items, Fields, null, boolean, num, str, arr, obj, no_items, item, no_fields, field,
  lookup_field, field_count,
}
use helm_broker.Model.Values.Merge.{IsMap, HasMaps, HaveMaps}

-- Two maps are equal if they have as many keys, and each key of the first is one of the second with
-- an equal value.
unfoldable mutual
  pub deep_equal : Value → Value → Bool
  deep_equal null null = true
  deep_equal (boolean a) (boolean b) = bool_eq a b
  deep_equal (num a) (num b) = nat_eq a b
  deep_equal (str a) (str b) = a == b
  deep_equal (arr xs) (arr ys) = items_equal xs ys
  deep_equal (obj xs) (obj ys) = nat_eq (field_count xs) (field_count ys) && fields_within xs ys
  deep_equal _ _ = false

  pub items_equal : Items → Items → Bool
  items_equal no_items no_items = true
  items_equal (item v xs) (item w ys) = deep_equal v w && items_equal xs ys
  items_equal _ _ = false

  pub fields_within : Fields → Fields → Bool
  fields_within no_fields ys = true
  fields_within (field k v xs) ys =
      elim (lookup_field k ys) [ none ↦ false | some w ↦ deep_equal v w ] && fields_within xs ys

-- A nil map is equal to a nil map, and to no other.
unfoldable pub data_equal : Option Fields → Option Fields → Bool
unfolding deep_equal
data_equal none none = true
data_equal (some xs) (some ys) = deep_equal (obj xs) (obj ys)
data_equal _ _ = false

-- The fields of `xs` are fields of `ys`.
abbrev IsWithin : Fields → Fields → Type 0
IsWithin xs ys = (k : String) (v : Value) → lookup_field k xs ≡ some v → lookup_field k ys ≡ some v

IsWithin-tail :
    (k : String) (v : Value) (xs ys : Fields)
    → lookup_field k xs ≡ none
    → IsWithin (field k v xs) ys
    → IsWithin xs ys
unfolding lookup_field
IsWithin-tail k v xs ys fresh h j w e = h j w (ground (arith, eq_iff k j))

IsWithin-head :
    (k : String) (v : Value) (xs ys : Fields)
    → IsWithin (field k v xs) ys
    → lookup_field k ys ≡ some v
unfolding lookup_field
IsWithin-head k v xs ys h = h k v (rw (eq_refl k))

mutual
  unfolding deep_equal

  deep_equal_self : (v : Value) → HasMaps v → deep_equal v v ≡ true
  deep_equal_self null m = refl
  deep_equal_self (boolean true) m = refl
  deep_equal_self (boolean false) m = refl
  deep_equal_self (num n) m = ground arith
  deep_equal_self (str s) m = eq_refl s
  deep_equal_self (arr xs) m = items_equal_self xs m
  deep_equal_self (obj fs) m = rw (fields_within_self fs fs m (λ k v e. e)) (ground arith)

  items_equal_self : (xs : Items) → HaveMaps xs → items_equal xs xs ≡ true
  items_equal_self no_items m = refl
  items_equal_self (item v xs) m = rw (deep_equal_self v m.0, items_equal_self xs m.1) refl

  fields_within_self : (xs ys : Fields) → IsMap xs → IsWithin xs ys → fields_within xs ys ≡ true
  fields_within_self no_fields ys m h = refl
  fields_within_self (field k v xs) ys m h =
      rw
        (
          IsWithin-head k v xs ys h,
          deep_equal_self v m.1,
          fields_within_self xs ys m.2 (IsWithin-tail k v xs ys m.0 h),
        )
        refl

-- Parameters are equal to themselves.
pub data_equal_self :
    (xs : Option Fields) → ((fs : Fields) → xs ≡ some fs → IsMap fs) → data_equal xs xs ≡ true
unfolding data_equal
data_equal_self none m = refl
data_equal_self (some fs) m = deep_equal_self (obj fs) (m fs refl)
