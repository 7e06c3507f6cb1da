-- ===== src/Model/Tests.antt =====
-- Runs of the functions on JSON values.
use helm_broker.Common.{◌≡◌, refl, true, some, [], ◌∷◌}
use helm_broker.Model.Values.{boolean, num, obj, Fields, no_fields, field, lookup_field}
use helm_broker.Model.Values.Merge.{merge_values, IsMap}
use helm_broker.Model.Values.Paths.{lookup_path, lookup_path-merge_values}

abbrev defaults : Fields
defaults =
    field "resources" (obj (field "memory" (num 1) (field "cpu" (num 2) no_fields)))
      (field "tls" (boolean true) no_fields)

abbrev overrides : Fields
overrides = field "resources" (obj (field "memory" (num 4) no_fields)) no_fields

overrides-IsMap : IsMap overrides
unfolding lookup_field
overrides-IsMap = (refl, (refl, tt, tt), tt)

-- The value of the request wins at its path.
lookup_path-merge_values_example :
    lookup_path ("resources" ∷ "memory" ∷ []) (obj (merge_values defaults overrides)) ≡ some (num 4)
unfolding lookup_path lookup_field
lookup_path-merge_values_example =
    lookup_path-merge_values "resources" ("memory" ∷ []) defaults overrides (num 4) overrides-IsMap
      refl refl
