-- ===== src/Model/Values/Merge.antt =====
-- `mergeValues` of internal/broker/provision.go: the values of a chart with overrides merged in.
use helm_broker.Common.{String, ◌≡◌, refl, Option, none, some, arith, ◌==◌, eq_iff, if◌then◌else◌}
use helm_broker.Model.Values.{
  Value, Items, no_items, item, null, boolean, num, str, arr, obj, Fields, no_fields, field,
  lookup_field, set_field,
}

unfoldable mutual
  -- The loop over `src` writes each of its values into `dest`.
  pub merge_values : Fields → Fields → Fields
  merge_values dest no_fields = dest
  merge_values dest (field k v src) =
      merge_values (set_field k (merged_value (lookup_field k dest) v) dest) src

  -- What one round writes: a map is merged into a map, and any other value replaces.
  pub merged_value : Option Value → Value → Value
  merged_value none v = v
  merged_value (some d) (obj next_map) = elim d [
    | null ↦ obj next_map
    | boolean b ↦ obj next_map
    | num n ↦ obj next_map
    | str s ↦ obj next_map
    | arr xs ↦ obj next_map
    | obj dest_map ↦ obj (merge_values dest_map next_map)
  ]
  merged_value (some d) v = v

-- The fields stand for a map: no key has two of them, here and in the values.
abbrev mutual
  pub IsMap : Fields → Type 0
  IsMap no_fields = Unit
  IsMap (field k v fs) = (lookup_field k fs ≡ none) × HasMaps v × IsMap fs

  pub HasMaps : Value → Type 0
  HasMaps (obj fs) = IsMap fs
  HasMaps (arr xs) = HaveMaps xs
  HasMaps _ = Unit

  pub HaveMaps : Items → Type 0
  HaveMaps no_items = Unit
  HaveMaps (item v xs) = HasMaps v × HaveMaps xs

pub lookup-set :
    (k j : String) (v : Value) (fs : Fields)
    → lookup_field j (set_field k v fs) ≡ (if k == j then some v else lookup_field j fs)
unfolding lookup_field set_field
lookup-set k j v no_fields = refl
lookup-set k j v (field i w fs) =
    ground (arith, eq_iff k j, eq_iff i k, eq_iff i j, lookup-set k j v fs)

-- The value of a merge under a key: that of `dest`, or the value of `src` merged into it.
abbrev pub merged_at : Option Value → Option Value → Option Value
merged_at d none = d
merged_at d (some v) = some (merged_value d v)

-- If no map of `src` has a key twice, the merge has under each key what the two values under it decide:
-- that of `dest` where `src` has none, and else the value of `src` merged into it; so the order in which
-- the loop visits `src` is of no account.
pub lookup-merge_values :
    (j : String) (dest src : Fields)
    → IsMap src
    → lookup_field j (merge_values dest src) ≡ merged_at (lookup_field j dest) (lookup_field j src)
unfolding merge_values lookup_field
lookup-merge_values j dest no_fields m = refl
lookup-merge_values j dest (field k v src) m = ground (
  arith,
  lookup-merge_values j (set_field k (merged_value (lookup_field k dest) v) dest) src m.2,
  lookup-set k j (merged_value (lookup_field k dest) v) dest,
  eq_iff k j,
)
